-- ===== src/Zlib/Deflate.antt =====
-- Deflating: `deflate` and what it calls, of soulseek-rs-lib/src/utils/zlib.rs. The position
-- `usize::MAX`, which marks the end of a chain, is `none`.
pub mod Tables
pub mod Matches
pub mod Search
pub mod Codes
pub mod Writes
use soulseek_rs_lib.Base.{
  ℕ, zero, suc, ◌+◌, ◌-◌, ◌*◌, ◌/◌, ◌%◌, ◌^◌, min, max, Bool, true, false, ◌||◌, Option, none, some,
  List, [], ◌∷◌, length, ltb, leb, ◌==◌, if◌then◌else◌,
}
use soulseek_rs_lib.Zlib.Result.{Result, done, panics, spins, and_then}
use soulseek_rs_lib.Zlib.Huffman.{index, assign}
use soulseek_rs_lib.Zlib.Inflate.{
  length_extra_bits, length_base, distance_extra_bits, distance_base, adler32,
}
use soulseek_rs_lib.Zlib.Writer.{BitWriter, new, put, code, finish}

abbrev pub min_match : ℕ
min_match = 3

abbrev pub max_match : ℕ
max_match = 258

abbrev pub window : ℕ
window = 32_768

abbrev pub match_tries : ℕ
match_tries = 128

abbrev pub nice_match : ℕ
nice_match = 64

-- The exponent of the next power of two, from `k` on.
unfoldable pub power_from : ℕ → ℕ → ℕ → ℕ
power_from zero k n = k
power_from (suc fuel) k n = if leb n (2 ^ k) then k else power_from fuel (suc k) n

unfoldable pub hash_bits : ℕ → ℕ
unfolding power_from
hash_bits len = min 15 (max 8 (power_from 64 0 (max len 2)))

-- The trailing zeros of a word of `n` bits.
unfoldable pub trailing_zeros : ℕ → ℕ → ℕ
trailing_zeros zero v = 0
trailing_zeros (suc n) v = if v % 2 == 0 then suc (trailing_zeros n (v / 2)) else 0

-- The fixed Huffman code of a literal or length symbol, and its length.
abbrev pub symbol_code : ℕ → ℕ × ℕ
symbol_code s =
    if ltb s 144
    then (48 + s, 8)
    else if ltb s 256
    then (400 + s - 144, 9)
    else if ltb s 280
    then (s - 256, 7)
    else (192 + s - 280, 8)

unfoldable pub symbol : ℕ → BitWriter → BitWriter
unfolding code
symbol s w = let (value, count) = symbol_code s in code value count w

-- A subtraction that must not go below zero.
abbrev pub minus : ℕ → ℕ → Result ℕ
minus a b = if ltb a b then panics else done (a - b)

-- `bases.iter().rposition(|&base| base <= v)`
unfoldable pub rposition : List ℕ → ℕ → Option ℕ
rposition [] v = none
rposition (base ∷ rest) v = elim (rposition rest v) [
  | some k ↦ some (suc k)
  | none ↦ if leb base v then some 0 else none
]

abbrev pub or_first : Option ℕ → ℕ
or_first none = 0
or_first (some k) = k

-- The extra bits of a value above the base of its symbol.
abbrev pub put_extra : List ℕ → List ℕ → ℕ → ℕ → BitWriter → Result BitWriter
put_extra bases extras k v w = and_then (index bases k) λ base.
    and_then (minus v base) λ more. and_then (index extras k) λ count. done (put more count w)

unfoldable pub emit_match : ℕ → ℕ → BitWriter → Result BitWriter
unfolding symbol rposition
emit_match len distance w =
    let l = or_first (rposition length_base len) in
    let d = or_first (rposition distance_base distance) in
    and_then (put_extra length_base length_extra_bits l len (symbol (257 + l) w))
      λ v. put_extra distance_base distance_extra_bits d distance (code d 5 v)

abbrev pub three_bytes : ℕ → ℕ → ℕ → ℕ
three_bytes a b c = a * 2 ^ 16 + b * 2 ^ 8 + c

unfoldable pub hash : List ℕ → ℕ → ℕ → Result ℕ
hash bytes i bits = and_then (index bytes i) λ a. and_then (index bytes (i + 1)) λ b.
    and_then (index bytes (i + 2))
      λ c. done (three_bytes a b c * 2_654_435_761 % 2 ^ 32 / 2 ^ (32 - bits))

-- `head` and `prev`: the latest position of each hash, and the one before each position.
pub record Chains : Type 0 where
  pub head : List (Option ℕ)
  pub prev : List (Option ℕ)

unfoldable pub remember : List ℕ → ℕ → Chains → Result Chains
unfolding hash trailing_zeros
remember bytes i t =
    if ltb (length bytes) (i + min_match)
    then done t
    else and_then (hash bytes i (trailing_zeros 64 (length t.head))) λ h.
      and_then (index t.head h) λ latest. and_then (assign t.prev i latest) λ prev.
        and_then (assign t.head h (some i)) λ head. done (record { head = head; prev = prev })

unfoldable pub remember_each : ℕ → List ℕ → ℕ → Chains → Result Chains
unfolding remember
remember_each zero bytes i t = done t
remember_each (suc n) bytes i t = and_then (remember bytes i t) (remember_each n bytes (suc i))

abbrev pub one_more : Result ℕ → Result ℕ
one_more o = and_then o λ n. done (suc n)

-- How many of the next `n` bytes at `c` and at `i` agree, from the first.
unfoldable pub common : ℕ → List ℕ → ℕ → ℕ → Result ℕ
common zero bytes c i = done 0
common (suc n) bytes c i = and_then (index bytes c) λ a.
    and_then (index bytes i)
      λ b. if a == b then one_more (common n bytes (suc c) (suc i)) else done 0

-- What a candidate at distance `d` with `len` bytes in common does to the search, with the rest of
-- the search behind it.
abbrev pub weigh : (ℕ × ℕ → Result (ℕ × ℕ)) → ℕ → ℕ → ℕ × ℕ → ℕ → Result (ℕ × ℕ)
weigh go_on longest d best len =
    if ltb best.0 len
    then if (len == longest) || leb nice_match len then done (len, d) else go_on (len, d)
    else go_on best

-- The walk along the chain of candidates for the bytes at `i`.
unfoldable pub walk : ℕ → List ℕ → List (Option ℕ) → ℕ → ℕ → Option ℕ → ℕ × ℕ → Result (ℕ × ℕ)
unfolding common
walk zero bytes prev i longest candidate best = done best
walk (suc tries) bytes prev i longest none best = done best
walk (suc tries) bytes prev i longest (some c) best = and_then (minus i c) λ d.
    if ltb window d
    then done best
    else and_then (common longest bytes c i) (
        weigh
          (λ better. and_then (index prev c) λ next. walk tries bytes prev i longest next better)
          longest d best)

unfoldable pub best_match : List ℕ → ℕ → Chains → ℕ → Result (ℕ × ℕ)
unfolding hash walk
best_match bytes bits t i =
    if leb (i + min_match) (length bytes)
    then (and_then (hash bytes i bits) λ h. and_then (index t.head h) λ candidate.
        walk match_tries bytes t.prev i (min max_match (length bytes - i)) candidate (0, 0))
    else done (0, 0)

module _ (bytes : List ℕ) (bits : ℕ) where
  -- A round of the loop with the match that was found, and the rounds behind it.
  abbrev pub write_best :
      (ℕ → Chains → BitWriter → Result BitWriter)
      → ℕ
      → Chains
      → BitWriter
      → ℕ × ℕ
      → Result BitWriter
  write_best again i t w (len, distance) =
      if ltb len min_match
      then (and_then (index bytes i) λ byte. again (i + 1) t (symbol byte w))
      else and_then (emit_match len distance w)
          λ v. and_then (remember_each (len - 1) bytes (i + 1) t) λ u. again (i + len) u v

  -- Each round goes at least a byte further, so that the number of bytes is fuel enough.
  unfoldable pub deflate_from : ℕ → ℕ → Chains → BitWriter → Result BitWriter
  unfolding best_match remember_each emit_match symbol
  deflate_from zero i t w = if ltb i (length bytes) then spins else done w
  deflate_from (suc fuel) i t w =
      if ltb i (length bytes)
      then (and_then (best_match bytes bits t i)
          λ best. and_then (remember bytes i t) λ u. write_best (deflate_from fuel) i u w best)
      else done w

abbrev pub no_positions : ℕ → List (Option ℕ)
no_positions zero = []
no_positions (suc n) = none ∷ no_positions n

abbrev pub no_chains : ℕ → ℕ → Chains
no_chains bits len = record { head = no_positions (2 ^ bits); prev = no_positions len }

-- The bits that open the only block: the last one, with fixed codes.
abbrev pub opened : BitWriter
opened = put 1 2 (put 1 1 new)

unfoldable pub deflate : List ℕ → Result (List ℕ)
unfolding deflate_from hash_bits finish adler32
deflate bytes =
    let bits = hash_bits (length bytes) in
    and_then (deflate_from bytes bits (length bytes) 0 (no_chains bits (length bytes)) opened)
      λ w. done (finish (adler32 bytes) (symbol 256 w))
