-- ===== src/Peer/Reads.antt =====
-- Reads at the end of a frame: what they give where the frame has the fields, and where it lacks the last.
use soulseek_rs_lib.Base.{
  ℕ, ◌+◌, ◌-◌, ◌<◌, ◌^◌, ◌≡◌, refl, Bool, true, false, Option, none, some, List, [], ◌∷◌, ◌++◌,
  append-nil, length, length-append, arith, ltb, leb, if◌then◌else◌,
}
use soulseek_rs_lib.Base.Text.{Text}
use soulseek_rs_lib.Base.Outcome.{ok}
use soulseek_rs_lib.Bytes.{le_bytes}
use soulseek_rs_lib.Message.{
  Message, Read, pure, ◌>>=◌, read_word, read_int8, read_int32, read_int64, read_string, read_bool,
}
use soulseek_rs_lib.Message.Parses.{
  Parses, IsText, cursor, string_bytes, read_int8-Parses, read_int32-Parses, read_int64-Parses,
  read_string-Parses, read_bool-Parses, bind-Parses, last-Parses, pure-Parses,
}
use soulseek_rs_lib.Listing.RoundTrip.{empty-IsText}
use soulseek_rs_lib.Replies.{read_folder_contents_request}
use soulseek_rs_lib.Peer.{
  Transfer, PeerMessage, transfer_response, sending, read_transfer, read_transfer_response,
  read_picture, read_last, read_user_info, read_counts, read_place,
}

-- `p` gives `a` where `bs` is all there is to come.
pub record Finishes {A : Type 0} (p : Read A) (bs : List ℕ) (a : A) : Type 0 where
  pub at : (pre : List ℕ) → (n : Message) × (p (cursor pre bs) ≡ ok (a, n))

module _ {A : Type 0} where
  pub Parses-Finishes : (p : Read A) (bs : List ℕ) (a : A) → Parses p bs a → Finishes p bs a
  Parses-Finishes p bs a h = record {
    at = λ pre. (cursor (pre ++ bs) [], rw (append-nil bs) at (h.at pre []));
  }

  pub sending-Finishes :
      (p : Read A) (f : A → Option PeerMessage) (bs : List ℕ) (a : A)
      → Finishes p bs a
      → (pre : List ℕ) → sending p f (cursor pre bs) ≡ ok (f a)
  sending-Finishes p f bs a h pre = let (n, e) = h.at pre in rw e refl

  pure-Finishes : (a : A) → Finishes (pure a) [] a
  pure-Finishes a = record { at = λ pre. (cursor pre [], refl) }

bind-Finishes :
    {A B : Type 0} (p : Read A) (f : A → Read B) (xs ys : List ℕ) (a : A) (b : B)
    → Parses p xs a
    → Finishes (f a) ys b
    → Finishes (p >>= f) (xs ++ ys) b
bind-Finishes p f xs ys a b hp hf = record {
  at = λ pre. let (n, e) = hf.at (pre ++ xs) in (n, rw (hp.at pre ys) e);
}

last-Finishes :
    {A B : Type 0} (p : Read A) (g : A → B) (xs : List ℕ) (a : A)
    → Finishes p xs a
    → Finishes (p >>= λ x. pure (g x)) xs (g a)
last-Finishes p g xs a h = record { at = λ pre. let (n, e) = h.at pre in (n, rw e refl) }

-- A word that is missing reads as 0.
read_int64-Finishes : Finishes read_int64 [] 0
unfolding read_int64
read_int64-Finishes = record {
  at = λ pre.
      let lacks : ltb (length (pre ++ [])) (length pre + 8) ≡ true =
        ground (arith, length-append pre []) in
      (cursor pre [], rw (read_word, lacks) refl);
}

read_last-Finishes : Finishes read_last [] none
read_last-Finishes = record {
  at = λ pre.
      let lacks : leb 4 (length (pre ++ []) - length pre) ≡ false =
        ground (arith, length-append pre []) in
      (cursor pre [], rw lacks refl);
}

-- A request for a transfer that says no size.
pub read_transfer-request :
    (direction token : ℕ) (filename : Text)
    → direction < 2 ^ 32
    → token < 2 ^ 32
    → IsText filename
    → Finishes read_transfer
        (le_bytes 4 direction ++ (le_bytes 4 token ++ string_bytes filename))
        (record { direction = direction; token = token; filename = filename; size = 0 })
unfolding read_transfer
read_transfer-request direction token filename h k t =
    bind-Finishes read_int32 _ _ _ direction _ (read_int32-Parses direction h) (
      bind-Finishes read_int32 _ _ _ token _ (read_int32-Parses token k) (
        named (
          bind-Finishes read_string _ _ _ filename _ (read_string-Parses filename t) (
            last-Finishes read_int64
              (λ size. record {
                direction = direction;
                token = token;
                filename = filename;
                size = size;
              })
              [] 0 read_int64-Finishes))))
  where
    named :
        {p : Read Transfer} {a : Transfer}
        → Finishes p (string_bytes filename ++ []) a
        → Finishes p (string_bytes filename) a
    named h = rw (append-nil (string_bytes filename)) at h

pub read_transfer-offer :
    (direction token : ℕ) (filename : Text) (size : ℕ)
    → direction < 2 ^ 32
    → token < 2 ^ 32
    → IsText filename
    → size < 2 ^ 64
    → Parses read_transfer
        (le_bytes 4 direction ++ (le_bytes 4 token ++ (string_bytes filename ++ le_bytes 8 size)))
        (record { direction = direction; token = token; filename = filename; size = size })
unfolding read_transfer
read_transfer-offer direction token filename size h k t l =
    bind-Parses read_int32 _ (read_int32-Parses direction h) (
      bind-Parses read_int32 _ (read_int32-Parses token k) (
        bind-Parses read_string _ (read_string-Parses filename t) (
          last-Parses read_int64
            (λ size. record {
              direction = direction;
              token = token;
              filename = filename;
              size = size;
            })
            (read_int64-Parses size l))))

pub read_transfer_response-allowed :
    (token : ℕ)
    → token < 2 ^ 32
    → Finishes read_transfer_response
        (le_bytes 4 token ++ le_bytes 1 1)
        (transfer_response token true none)
unfolding read_transfer_response
read_transfer_response-allowed token h =
    bind-Finishes read_int32 _ _ _ token _ (read_int32-Parses token h) (
      allowed (
        bind-Finishes read_int8 _ _ _ 1 _ (read_int8-Parses 1 (omega arith))
          (pure-Finishes (transfer_response token true none))))
  where
    allowed :
        {p : Read PeerMessage} {a : PeerMessage}
        → Finishes p (le_bytes 1 1 ++ []) a
        → Finishes p (le_bytes 1 1) a
    allowed h = rw (append-nil (le_bytes 1 1)) at h

pub read_transfer_response-denied :
    (token : ℕ) (reason : Text)
    → token < 2 ^ 32
    → IsText reason
    → Parses read_transfer_response
        (le_bytes 4 token ++ (le_bytes 1 0 ++ string_bytes reason))
        (transfer_response token false (some reason))
unfolding read_transfer_response
read_transfer_response-denied token reason h t =
    bind-Parses read_int32 _ (read_int32-Parses token h) (
      bind-Parses read_int8 _ (read_int8-Parses 0 (omega arith)) (
        last-Parses (read_string >>= λ reason. pure (some reason))
          (λ reason. transfer_response token false reason)
          (last-Parses read_string some (read_string-Parses reason t))))

pub read_place-Parses :
    (filename : Text) (place : ℕ)
    → IsText filename
    → place < 2 ^ 32
    → Parses read_place (string_bytes filename ++ le_bytes 4 place) (filename, place)
unfolding read_place
read_place-Parses filename place t h =
    bind-Parses read_string _ (read_string-Parses filename t)
      (last-Parses read_int32 (λ place. (filename, place)) (read_int32-Parses place h))

pub read_folder_contents_request-Parses :
    (token : ℕ) (folder : Text)
    → token < 2 ^ 32
    → IsText folder
    → Parses read_folder_contents_request (le_bytes 4 token ++ string_bytes folder) (token, folder)
unfolding read_folder_contents_request
read_folder_contents_request-Parses token folder h t =
    bind-Parses read_int32 _ (read_int32-Parses token h)
      (last-Parses read_string (λ folder. (token, folder)) (read_string-Parses folder t))

read_counts-Finishes :
    (total_uploads queue_size : ℕ) (slots_free : Bool)
    → total_uploads < 2 ^ 32
    → queue_size < 2 ^ 32
    → Finishes
        (read_counts [] none)
        (le_bytes 4 total_uploads
          ++ (le_bytes 4 queue_size ++ ((if slots_free then 1 else 0) ∷ [])))
        (record {
          description = [];
          picture_bytes = none;
          total_uploads = total_uploads;
          queue_size = queue_size;
          slots_free = slots_free;
          upload_allowed = none;
        })
unfolding read_counts
read_counts-Finishes total_uploads queue_size slots_free h k =
    bind-Finishes read_int32 _ _ _ total_uploads _ (read_int32-Parses total_uploads h) (
      bind-Finishes read_int32 _ _ _ queue_size _ (read_int32-Parses queue_size k) (
        bind-Finishes read_bool _ ((if slots_free then 1 else 0) ∷ []) [] slots_free _
          (read_bool-Parses slots_free)
          (last-Finishes read_last
            (λ upload_allowed. record {
              description = [];
              picture_bytes = none;
              total_uploads = total_uploads;
              queue_size = queue_size;
              slots_free = slots_free;
              upload_allowed = upload_allowed;
            })
            [] none read_last-Finishes)))

-- The answer about oneself, which has neither a text nor a picture, nor the last field.
pub read_user_info-Finishes :
    (total_uploads queue_size : ℕ) (slots_free : Bool)
    → total_uploads < 2 ^ 32
    → queue_size < 2 ^ 32
    → Finishes read_user_info
        (string_bytes []
          ++ (0
              ∷ (le_bytes 4 total_uploads
                  ++ (le_bytes 4 queue_size ++ ((if slots_free then 1 else 0) ∷ [])))))
        (record {
          description = [];
          picture_bytes = none;
          total_uploads = total_uploads;
          queue_size = queue_size;
          slots_free = slots_free;
          upload_allowed = none;
        })
unfolding read_user_info
read_user_info-Finishes total_uploads queue_size slots_free h k =
    bind-Finishes read_string
      (λ description.
        read_bool >>= λ has_picture. read_picture has_picture >>= read_counts description)
      _ _ [] _ (read_string-Parses [] empty-IsText)
      (bind-Finishes read_bool (λ has_picture. read_picture has_picture >>= read_counts []) (0 ∷ [])
        _ false _ (read_bool-Parses false)
        (bind-Finishes (read_picture false) (read_counts []) [] _ none _ (pure-Parses none)
          (read_counts-Finishes total_uploads queue_size slots_free h k)))
