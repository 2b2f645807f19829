-- ===== src/Peer.antt =====
-- Messages between peers: the handlers of soulseek-rs-lib/src/message/peer, the table of handlers of
-- soulseek-rs-lib/src/message/handlers.rs and soulseek-rs-lib/src/actor/peer_actor.rs, the dispatcher of
-- soulseek-rs-lib/src/dispatcher.rs. What a handler sends on its channel is its result; a handler that
-- sends nothing gives `none`.
pub mod Builders
pub mod Reads
pub mod Dispatch
mod Tests
use soulseek_rs_lib.Base.{
  ℕ, ◌+◌, ◌-◌, min, Bool, true, false, Option, none, some, List, [], ◌∷◌, length, ltb, leb, ◌==◌,
  if◌then◌else◌,
}
use soulseek_rs_lib.Base.Text.{Text, text, text_eq}
use soulseek_rs_lib.Base.Assoc.{Map, insert, lookup, nat_eq}
use soulseek_rs_lib.Base.Outcome.{Outcome, ok, and_then}
use soulseek_rs_lib.Message.{
  Message, new, set_pointer, get_size, get_message_code, Read, pure, ◌>>=◌, ◌>>◌, read_int8,
  read_int32, read_int64, read_string, read_bool, write_int32, write_int64, write_string,
  write_bool,
}
use soulseek_rs_lib.Downloads.{Download}
use soulseek_rs_lib.Listing.{SharedDirectory}
use soulseek_rs_lib.Replies.{
  parse_shared_file_list, parse_folder_contents, read_folder_contents_request,
  build_folder_contents_request,
}
use soulseek_rs_lib.Search.{SearchResult, new_from_message}

pub record Transfer : Type 0 where
  pub direction : ℕ
  pub token : ℕ
  pub filename : Text
  pub size : ℕ

pub record PeerInfo : Type 0 where
  pub description : Text
  pub picture_bytes : Option ℕ
  pub total_uploads : ℕ
  pub queue_size : ℕ
  pub slots_free : Bool
  pub upload_allowed : Option ℕ

-- What a peer's actor is told: by the handlers, by the client, and by the loop that polls it.
pub data PeerMessage : Type 0 where
  send_message : Message → PeerMessage
  file_search_result : SearchResult → PeerMessage
  transfer_request : Transfer → PeerMessage
  upload_failed : (username filename : Text) → PeerMessage
  transfer_response : (token : ℕ) (allowed : Bool) (reason : Option Text) → PeerMessage
  place_in_queue_response : (filename : Text) (place : ℕ) → PeerMessage
  set_username queue_upload : Text → PeerMessage
  request_transfer : Download → PeerMessage
  incoming_queue_upload incoming_place_in_queue_request : Text → PeerMessage
  share_list_requested : PeerMessage
  share_list_received : List SharedDirectory → PeerMessage
  user_info_received : PeerInfo → PeerMessage
  folder_contents_received :
      (token : ℕ) (folder : Text) (directories : List SharedDirectory) → PeerMessage
  user_info_requested : PeerMessage
  folder_contents_requested : (token : ℕ) (folder : Text) → PeerMessage
  serve_upload : (token : ℕ) (filename : Text) (size : ℕ) → PeerMessage
  process_read retire : PeerMessage

abbrev pub Handler : Type 0
Handler = Message → Outcome (Option PeerMessage)

-- A handler that sends what it reads.
abbrev pub sending : {A : Type 0} → Read A → (A → Option PeerMessage) → Handler
sending p f m = and_then (p m) λ (a, n). ok (f a)

unfoldable pub read_transfer : Read Transfer
read_transfer = do
  direction ← read_int32
  token ← read_int32
  filename ← read_string
  size ← read_int64
  pure (record { direction = direction; token = token; filename = filename; size = size })

abbrev pub read_reason : ℕ → Read (Option Text)
read_reason allowed =
    if allowed == 0 then (read_string >>= λ reason. pure (some reason)) else pure none

unfoldable pub read_transfer_response : Read PeerMessage
read_transfer_response = do
  token ← read_int32
  allowed ← read_int8
  reason ← read_reason allowed
  pure (transfer_response token (allowed == 1) reason)

-- The picture is passed over, as far as there is one.
abbrev pub read_picture : Bool → Read (Option ℕ)
read_picture false = pure none
read_picture true = read_int32 >>= skip_picture
  where
    skip_picture : ℕ → Read (Option ℕ)
    skip_picture announced m =
        let bytes = min announced (get_size m - m.pointer) in
        ok (some bytes, set_pointer (m.pointer + bytes) m)

-- A last field that there is room for.
abbrev pub read_last : Read (Option ℕ)
read_last m =
    if leb 4 (get_size m - m.pointer) then (read_int32 >>= λ v. pure (some v)) m else ok (none, m)

unfoldable pub read_counts : Text → Option ℕ → Read PeerInfo
read_counts description picture_bytes = do
  total_uploads ← read_int32
  queue_size ← read_int32
  slots_free ← read_bool
  upload_allowed ← read_last
  pure (record {
    description = description;
    picture_bytes = picture_bytes;
    total_uploads = total_uploads;
    queue_size = queue_size;
    slots_free = slots_free;
    upload_allowed = upload_allowed;
  })

unfoldable pub read_user_info : Read PeerInfo
unfolding read_counts
read_user_info = do
  description ← read_string
  has_picture ← read_bool
  picture_bytes ← read_picture has_picture
  read_counts description picture_bytes

unfoldable pub read_two_texts : Read (Text × Text)
read_two_texts = do filename ← read_string; reason ← read_string; pure (filename, reason)

unfoldable pub read_place : Read (Text × ℕ)
read_place = do filename ← read_string; place ← read_int32; pure (filename, place)

-- The frame of `PeerInit` has a code of one byte.
unfoldable pub read_peer_init : Read Text
read_peer_init m =
    (do read_int8; username ← read_string; read_string; read_int32; pure username) (set_pointer 4 m)

-- A refusal for the queue's sake is no failure.
abbrev pub denied : Text × Text → Option PeerMessage
denied (filename, reason) =
    if text_eq reason (text "Queued") then none else some (upload_failed [] filename)

abbrev pub received_result : Option SearchResult → Option PeerMessage
received_result none = none
received_result (some r) = some (file_search_result r)

abbrev pub received_contents : Option (ℕ × Text × List SharedDirectory) → Option PeerMessage
received_contents none = none
received_contents (some (token, folder, dirs)) = some (folder_contents_received token folder dirs)

-- One handler for each message.
abbrev pub handle_file_search_response : Handler
handle_file_search_response m = and_then (new_from_message m) λ r. ok (received_result r)

abbrev pub handle_transfer_request : Handler
handle_transfer_request m = sending read_transfer (λ t. some (transfer_request t)) m

abbrev pub handle_transfer_response : Handler
handle_transfer_response m = sending read_transfer_response some m

abbrev pub handle_get_share_file_list : Handler
handle_get_share_file_list m = ok (some share_list_requested)

abbrev pub handle_folder_contents_request : Handler
handle_folder_contents_request m =
    sending read_folder_contents_request
      (λ (token, folder). some (folder_contents_requested token folder)) m

abbrev pub handle_folder_contents_response : Handler
handle_folder_contents_response m = and_then (parse_folder_contents m) λ c. ok (received_contents c)

abbrev pub handle_user_info_request : Handler
handle_user_info_request m = ok (some user_info_requested)

abbrev pub handle_user_info_response : Handler
handle_user_info_response m = sending read_user_info (λ info. some (user_info_received info)) m

abbrev pub handle_upload_denied : Handler
handle_upload_denied m = sending read_two_texts denied m

abbrev pub handle_upload_failed : Handler
handle_upload_failed m = sending read_string (λ filename. some (upload_failed [] filename)) m

abbrev pub handle_place_in_queue_request : Handler
handle_place_in_queue_request m =
    sending read_string (λ filename. some (incoming_place_in_queue_request filename)) m

abbrev pub handle_place_in_queue_response : Handler
handle_place_in_queue_response m =
    sending read_place (λ (filename, place). some (place_in_queue_response filename place)) m

abbrev pub handle_queue_upload : Handler
handle_queue_upload m = sending read_string (λ filename. some (incoming_queue_upload filename)) m

abbrev pub handle_shared_file_list : Handler
handle_shared_file_list m =
    and_then (parse_shared_file_list m) λ dirs. ok (some (share_list_received dirs))

abbrev pub handle_peer_init : Handler
handle_peer_init m = sending read_peer_init (λ username. some (set_username username)) m

-- The handlers in the order they are registered, each with its code.
abbrev pub registered : List (ℕ × Handler)
registered =
    (9, handle_file_search_response)
    ∷ (40, handle_transfer_request)
    ∷ (41, handle_transfer_response)
    ∷ (4, handle_get_share_file_list)
    ∷ (36, handle_folder_contents_request)
    ∷ (37, handle_folder_contents_response)
    ∷ (15, handle_user_info_request)
    ∷ (16, handle_user_info_response)
    ∷ (50, handle_upload_denied)
    ∷ (46, handle_upload_failed)
    ∷ (51, handle_place_in_queue_request)
    ∷ (44, handle_place_in_queue_response)
    ∷ (43, handle_queue_upload)
    ∷ (5, handle_shared_file_list)
    ∷ (1, handle_peer_init)
    ∷ []

abbrev pub register_all : List (ℕ × Handler) → Map ℕ Handler → Map ℕ Handler
register_all [] handlers = handlers
register_all ((code, handler) ∷ rest) handlers = register_all rest (insert code handler handlers)

abbrev pub handle_with : Option Handler → Handler
handle_with none m = ok none
handle_with (some handler) m = handler (set_pointer 8 m)

unfoldable pub dispatch : Handler
dispatch m = handle_with (lookup (get_message_code m) (register_all registered [])) m
