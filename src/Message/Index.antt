-- ===== src/Message/Index.antt =====
-- Indexing and slicing within bounds gives the bytes that stand there.
use soulseek_rs_lib.Base.{
  ℕ, zero, suc, ◌+◌, ◌-◌, ◌≤◌, ◌≡◌, refl, List, [], ◌∷◌, length, some, get_elem?, take, drop, arith,
  get_elem?-some,
}
use soulseek_rs_lib.Base.Outcome.{ok}
use soulseek_rs_lib.Message.{byte_at, bytes_at, slice}

drop-get_elem? : (bs : List ℕ) (i b : ℕ) → get_elem? bs i ≡ some b → drop i bs ≡ b ∷ drop (suc i) bs
drop-get_elem? [] i b h = cc
drop-get_elem? (x ∷ bs) zero b h = ground arith
drop-get_elem? (x ∷ bs) (suc i) b h = drop-get_elem? bs i b h

pub byte_at-eq : (bs : List ℕ) (i b : ℕ) → get_elem? bs i ≡ some b → byte_at bs i ≡ ok b
unfolding byte_at
byte_at-eq bs i b h = rw (h, byte_at)

pub bytes_at-eq :
    (k : ℕ) (bs : List ℕ) (i : ℕ) → i + k ≤ length bs → bytes_at k bs i ≡ ok (take k (drop i bs))
unfolding bytes_at
bytes_at-eq zero bs i h = refl
bytes_at-eq (suc k) bs i h =
    let (b, e) = get_elem?-some bs i (omega arith) in
    let next : i + 1 ≡ suc i = omega arith in
    rw (byte_at-eq bs i b e, bytes_at-eq k bs (i + 1) (omega arith), next, drop-get_elem? bs i b e)

pub slice-eq :
    (bs : List ℕ) (from to : ℕ)
    → from ≤ to
    → to ≤ length bs
    → slice bs from to ≡ ok (take (to - from) (drop from bs))
unfolding slice
slice-eq bs from to h k = ground arith
