-- ===== src/Framing/Frames.antt =====
-- The frames at the front of a byte sequence, as a function of the bytes alone, and the loop of the
-- reader against it.
use soulseek_rs_lib.Base.{
  ℕ, zero, suc, ◌+◌, ◌≤◌, ◌<◌, ◌≡◌, refl, ap, inl, inr, Option, none, some, List, [], ◌∷◌, ◌++◌,
  length, take, drop, ltb, if◌then◌else◌, arith, Option-cases, length-append, length-drop,
}
use soulseek_rs_lib.Base.Outcome.{ok}
use soulseek_rs_lib.Bytes.{from_le}
use soulseek_rs_lib.Message.{Message, new_with_data}
use soulseek_rs_lib.Message.Index.{bytes_at-eq}
use soulseek_rs_lib.Framing.{MessageReader, extract_message, extract_all}

-- The length of the whole frame at the front, if there is one.
unfoldable pub frame_length : List ℕ → Option ℕ
frame_length b =
    if ltb (length b) 4
    then none
    else let size = from_le (take 4 b) + 4 in if ltb (length b) size then none else some size

abbrev pub extracted : Option ℕ → MessageReader → Option Message × MessageReader
extracted none r = (none, r)
extracted (some n) r =
    (some (new_with_data (take n r.buffer)), record r { buffer = drop n r.buffer })

pub extract_message-eq :
    (r : MessageReader) → extract_message r ≡ ok (extracted (frame_length r.buffer) r)
unfolding extract_message frame_length
extract_message-eq r = ground (arith, bytes_at-eq 4 r.buffer 0)

pub frame_length_bounds : (b : List ℕ) (n : ℕ) → frame_length b ≡ some n → (4 ≤ n) × (n ≤ length b)
unfolding frame_length
frame_length_bounds b n h = ground arith

take-append-le : (n : ℕ) (b c : List ℕ) → n ≤ length b → take n (b ++ c) ≡ take n b
take-append-le zero b c h = refl
take-append-le (suc n) [] c h = absurd (omega arith)
take-append-le (suc n) (x ∷ b) c h = ap (λ t. x ∷ t) (take-append-le n b c (omega arith))

drop-append-le : (n : ℕ) (b c : List ℕ) → n ≤ length b → drop n (b ++ c) ≡ drop n b ++ c
drop-append-le zero b c h = refl
drop-append-le (suc n) [] c h = absurd (omega arith)
drop-append-le (suc n) (x ∷ b) c h = drop-append-le n b c (omega arith)

-- More bytes behind a whole frame do not change it.
pub frame_length-append :
    (b c : List ℕ) (n : ℕ) → frame_length b ≡ some n → frame_length (b ++ c) ≡ some n
unfolding frame_length
frame_length-append b c n h = ground (arith, length-append b c, take-append-le 4 b c)

-- The frames of a byte sequence, and what is left behind them.
unfoldable pub frames : ℕ → List ℕ → List Message × List ℕ
frames zero b = ([], b)
frames (suc fuel) b = elim (frame_length b) [
  | none ↦ ([], b)
  | some n ↦ let (ms, rest) = frames fuel (drop n b) in (new_with_data (take n b) ∷ ms, rest)
]

-- Fuel above the length of the input reaches the end: no whole frame is left.
pub frames-stops : (fuel : ℕ) (b : List ℕ) → length b < fuel → frame_length (frames fuel b).1 ≡ none
unfolding frames
frames-stops zero b h = absurd (omega arith)
frames-stops (suc fuel) b h = elim (Option-cases (frame_length b)) [
  | inl e ↦ rw (e, frames) e
  | inr (n, e) ↦
      let bounds = frame_length_bounds b n e in
      rw (e, frames) (frames-stops fuel (drop n b) (omega (arith, length-drop n b)))
]

-- Above the length of the input the amount of fuel makes no difference.
pub frames-fuel : (f g : ℕ) (b : List ℕ) → length b < f → length b < g → frames f b ≡ frames g b
unfolding frames
frames-fuel zero g b h k = absurd (omega arith)
frames-fuel (suc f) zero b h k = absurd (omega arith)
frames-fuel (suc f) (suc g) b h k = elim (Option-cases (frame_length b)) [
  | inl e ↦ rw (e, frames)
  | inr (n, e) ↦
      let bounds = frame_length_bounds b n e in
      rw (
        e,
        frames,
        frames-fuel f g (drop n b) (omega (arith, length-drop n b))
            (omega (arith, length-drop n b)),
      )
]

-- The frames of a sequence, with the fuel that is enough for it.
abbrev pub split : List ℕ → List Message × List ℕ
split b = frames (suc (length b)) b

-- The loop of the reader never panics and finds exactly these frames.
pub extract_all-eq :
    (fuel : ℕ) (r : MessageReader)
    → extract_all fuel r
      ≡ ok ((frames fuel r.buffer).0, record { buffer = (frames fuel r.buffer).1 })
unfolding extract_all frames
extract_all-eq zero r = refl
extract_all-eq (suc fuel) r = elim (Option-cases (frame_length r.buffer)) [
  | inl e ↦ rw (extract_message-eq r, extract_all, e, frames)
  | inr (n, e) ↦ rw (
    extract_message-eq r,
    extract_all,
    e,
    frames,
    extract_all-eq fuel (record r { buffer = drop n r.buffer }),
  )
]

pub frames-none : (fuel : ℕ) (b : List ℕ) → frame_length b ≡ none → frames fuel b ≡ ([], b)
unfolding frames
frames-none zero b e = refl
frames-none (suc fuel) b e = rw (e, frames)

pub frames-some :
    (fuel n : ℕ) (b : List ℕ)
    → frame_length b ≡ some n
    → frames (suc fuel) b
      ≡ (new_with_data (take n b) ∷ (frames fuel (drop n b)).0, (frames fuel (drop n b)).1)
unfolding frames
frames-some fuel n b e = rw (e, frames)

-- Splitting what is left of `b` together with `c` continues the splitting of `b`.
pub split-append :
    (fuel : ℕ) (b c : List ℕ)
    → length b < fuel
    → split (b ++ c) ≡ (
      (frames fuel b).0 ++ (split ((frames fuel b).1 ++ c)).0,
      (split ((frames fuel b).1 ++ c)).1,
    )
split-append zero b c h = absurd (omega arith)
split-append (suc fuel) b c h = elim (Option-cases (frame_length b)) [
  | inl e ↦ rw (frames-none (suc fuel) b e)
  | inr (n, e) ↦
      let bounds = frame_length_bounds b n e in
      let shorter = length-drop n b in
      let whole = frame_length-append b c n e in
      let same : frames (length (b ++ c)) (drop n b ++ c) ≡ split (drop n b ++ c) =
        frames-fuel (length (b ++ c)) (suc (length (drop n b ++ c))) (drop n b ++ c)
          (omega (arith, length-append b c, length-append (drop n b) c)) (omega arith) in
      rw (
        frames-some fuel n b e,
        frames-some (length (b ++ c)) n (b ++ c) whole,
        take-append-le n b c bounds.1,
        drop-append-le n b c bounds.1,
        same,
        split-append fuel (drop n b) c (omega arith),
      )
]
