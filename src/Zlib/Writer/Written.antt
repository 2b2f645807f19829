-- ===== src/Zlib/Writer/Written.antt =====
-- What a writer has written, as bits: each write adds its bits behind those before.
use native.Mathlib.Nat.{pow-suc, mul-le-mul_right}
use soulseek_rs_lib.Base.{
  ℕ, zero, suc, ◌+◌, ◌-◌, ◌*◌, ◌/◌, ◌%◌, ◌^◌, ◌≤◌, ◌<◌, ◌≡◌, refl, sym, ap, ◌∙◌, inl, inr,
  Bool-cases, List, [], ◌∷◌, ◌++◌, append-nil, append_assoc, arith, ltb,
}
use soulseek_rs_lib.Zlib.Reader.Stream.{bits, bytes_bits}
use soulseek_rs_lib.Zlib.Writer.{BitWriter, flush, push_byte, hold, put, code}

abbrev pub written : BitWriter → List ℕ
written w = bytes_bits w.out ++ bits w.bit w.held

-- Between writes less than a byte is held, and nothing above its bits.
pub record IsSettled (w : BitWriter) : Type 0 where
  pub short : w.bit < 8
  pub clean : w.held < 2 ^ w.bit

pub bytes_bits-append : (xs ys : List ℕ) → bytes_bits (xs ++ ys) ≡ bytes_bits xs ++ bytes_bits ys
unfolding bytes_bits
bytes_bits-append [] ys = refl
bytes_bits-append (x ∷ xs) ys =
    ap (λ zs. bits 8 x ++ zs) (bytes_bits-append xs ys)
    ∙ sym (append_assoc (bits 8 x) (bytes_bits xs) (bytes_bits ys))

pub bits_above : (n c h v : ℕ) → h < 2 ^ n → bits (n + c) (h + v * 2 ^ n) ≡ bits n h ++ bits c v
unfolding bits
bits_above zero c h v k =
    let e : h + v * 2 ^ 0 ≡ v = omega arith in let f : 0 + c ≡ c = omega arith in rw (e, f) refl
bits_above (suc n) c h v k =
    let p : 2 ^ suc n ≡ 2 ^ n * 2 = pow-suc 2 n in
    let m : v * 2 ^ suc n ≡ v * 2 ^ n * 2 = ap (λ t. v * t) p ∙ omega arith in
    let f : suc n + c ≡ suc (n + c) = omega arith in
    let low : (h + v * 2 ^ suc n) % 2 ≡ h % 2 = omega arith in
    let high : (h + v * 2 ^ suc n) / 2 ≡ h / 2 + v * 2 ^ n = omega arith in
    rw (f, low, high) (ap (λ zs. h % 2 ∷ zs) (bits_above n c (h / 2) v (omega arith)))

abbrev eight : ℕ → ℕ
eight k = suc (suc (suc (suc (suc (suc (suc (suc k)))))))

bits_byte : (k h : ℕ) → bits (eight k) h ≡ bits 8 (h % 256) ++ bits k (h / 256)
unfolding bits
bits_byte k h =
    let a0 : h % 256 % 2 ≡ h % 2 = omega arith in
    let a1 : h % 256 / 2 % 2 ≡ h / 2 % 2 = omega arith in
    let a2 : h % 256 / 2 / 2 % 2 ≡ h / 2 / 2 % 2 = omega arith in
    let a3 : h % 256 / 2 / 2 / 2 % 2 ≡ h / 2 / 2 / 2 % 2 = omega arith in
    let a4 : h % 256 / 2 / 2 / 2 / 2 % 2 ≡ h / 2 / 2 / 2 / 2 % 2 = omega arith in
    let a5 : h % 256 / 2 / 2 / 2 / 2 / 2 % 2 ≡ h / 2 / 2 / 2 / 2 / 2 % 2 = omega arith in
    let a6 : h % 256 / 2 / 2 / 2 / 2 / 2 / 2 % 2 ≡ h / 2 / 2 / 2 / 2 / 2 / 2 % 2 = omega arith in
    let a7 : h % 256 / 2 / 2 / 2 / 2 / 2 / 2 / 2 % 2 ≡ h / 2 / 2 / 2 / 2 / 2 / 2 / 2 % 2 =
      omega arith in
    let rest : h / 256 ≡ h / 2 / 2 / 2 / 2 / 2 / 2 / 2 / 2 = omega arith in
    rw (a0, a1, a2, a3, a4, a5, a6, a7, rest) refl

byte_first : (n h : ℕ) → 8 ≤ n → bits n h ≡ bits 8 (h % 256) ++ bits (n - 8) (h / 256)
byte_first n h k =
    let e : n ≡ eight (n - 8) = omega arith in ap (λ m. bits m h) e ∙ bits_byte (n - 8) h

-- The bits of a byte that is appended.
pub bytes_bits_snoc :
    (bs : List ℕ) (b : ℕ) → bytes_bits (bs ++ (b ∷ [])) ≡ bytes_bits bs ++ bits 8 b
unfolding bytes_bits
bytes_bits_snoc bs b =
    bytes_bits-append bs (b ∷ []) ∙ ap (λ zs. bytes_bits bs ++ zs) (append-nil (bits 8 b))

push_byte-written : (w : BitWriter) → 8 ≤ w.bit → written (push_byte w) ≡ written w
push_byte-written w h =
    ap (λ zs. zs ++ bits (w.bit - 8) (w.held / 256)) (bytes_bits_snoc w.out (w.held % 256))
    ∙ append_assoc (bytes_bits w.out) (bits 8 (w.held % 256)) (bits (w.bit - 8) (w.held / 256))
    ∙ ap (λ zs. bytes_bits w.out ++ zs) (sym (byte_first w.bit w.held h))

flush-written : (fuel : ℕ) (w : BitWriter) → written (flush fuel w) ≡ written w
unfolding flush
flush-written zero w = refl
flush-written (suc fuel) w = elim (Bool-cases (ltb w.bit 8)) [
  | inl e ↦ rw e refl
  | inr e ↦ rw e (flush-written fuel (push_byte w) ∙ push_byte-written w (ground arith))
]

pub pow_add : (i j : ℕ) → 2 ^ (i + j) ≡ 2 ^ i * 2 ^ j
pow_add i zero = let e : i + 0 ≡ i = omega arith in ap (λ m. 2 ^ m) e ∙ omega arith
pow_add i (suc j) =
    let e : i + suc j ≡ suc (i + j) = omega arith in
    ap (λ m. 2 ^ m) e
    ∙ pow-suc 2 (i + j)
    ∙ ap (λ m. m * 2) (pow_add i j)
    ∙ omega arith
    ∙ ap (λ m. 2 ^ i * m) (sym (pow-suc 2 j))

pow_byte : (n : ℕ) → 8 ≤ n → 2 ^ n ≡ 2 ^ (n - 8) * 256
pow_byte n h = let e : n ≡ (n - 8) + 8 = omega arith in ap (λ m. 2 ^ m) e ∙ pow_add (n - 8) 8

-- Whatever is in it, less than a byte is held after a flush with enough rounds.
flush-IsSettled :
    (fuel : ℕ) (w : BitWriter) → w.bit ≤ fuel → w.held < 2 ^ w.bit → IsSettled (flush fuel w)
unfolding flush
flush-IsSettled zero w h k = record { short = omega arith; clean = k }
flush-IsSettled (suc fuel) w h k = elim (Bool-cases (ltb w.bit 8)) [
  | inl e ↦ rw e (record { short = ground arith; clean = k })
  | inr e ↦
      let big : 8 ≤ w.bit = ground arith in
      let p : 2 ^ w.bit ≡ 2 ^ (w.bit - 8) * 256 = pow_byte w.bit big in
      rw e (flush-IsSettled fuel (push_byte w) (omega arith) (omega arith))
]

hold-clean :
    (v c : ℕ) (w : BitWriter)
    → v < 2 ^ c
    → w.held < 2 ^ w.bit
    → w.held + v * 2 ^ w.bit < 2 ^ (w.bit + c)
hold-clean v c w h k =
    let p : 2 ^ (w.bit + c) ≡ 2 ^ w.bit * 2 ^ c = pow_add w.bit c in
    let q : suc v * 2 ^ w.bit ≤ 2 ^ c * 2 ^ w.bit = mul-le-mul_right (2 ^ w.bit) h in omega arith

-- A write of extra bits.
pub put-written :
    (v c : ℕ) (w : BitWriter) → IsSettled w → written (put v c w) ≡ written w ++ bits c v
unfolding put
put-written v c w s =
    flush-written (w.bit + c) (hold v c w)
    ∙ ap (λ zs. bytes_bits w.out ++ zs) (bits_above w.bit c w.held v s.clean)
    ∙ sym (append_assoc (bytes_bits w.out) (bits w.bit w.held) (bits c v))

pub put-IsSettled : (v c : ℕ) (w : BitWriter) → v < 2 ^ c → IsSettled w → IsSettled (put v c w)
unfolding put
put-IsSettled v c w h s =
    flush-IsSettled (w.bit + c) (hold v c w) (omega arith) (hold-clean v c w h s.clean)

-- The `n` lowest bits of `v`, highest first.
abbrev pub msb : ℕ → ℕ → List ℕ
msb v zero = []
msb v (suc i) = v / 2 ^ i % 2 ∷ msb v i

pub code-IsSettled : (v n : ℕ) (w : BitWriter) → IsSettled w → IsSettled (code v n w)
unfolding code
code-IsSettled v zero w s = s
code-IsSettled v (suc i) w s =
    code-IsSettled v i (put (v / 2 ^ i % 2) 1 w) (put-IsSettled (v / 2 ^ i % 2) 1 w (omega arith) s)

-- A write of a code.
pub code-written :
    (v n : ℕ) (w : BitWriter) → IsSettled w → written (code v n w) ≡ written w ++ msb v n
unfolding code bits
code-written v zero w s = sym (append-nil (written w))
code-written v (suc i) w s =
    let b = v / 2 ^ i % 2 in
    let one : b % 2 ≡ b = omega arith in
    code-written v i (put b 1 w) (put-IsSettled b 1 w (omega arith) s)
    ∙ ap (λ zs. zs ++ msb v i) (put-written b 1 w s)
    ∙ append_assoc (written w) (b % 2 ∷ []) (msb v i)
    ∙ ap (λ d. written w ++ (d ∷ msb v i)) one

-- `v` has the bytes of `w` that are out, and some more.
abbrev pub Extends : BitWriter → BitWriter → Type 0
Extends w v = (bs : List ℕ) × (v.out ≡ w.out ++ bs)

pub Extends-trans : (u v w : BitWriter) → Extends u v → Extends v w → Extends u w
Extends-trans u v w (bs, e) (cs, f) =
    (bs ++ cs, f ∙ ap (λ out. out ++ cs) e ∙ append_assoc u.out bs cs)

flush-Extends : (fuel : ℕ) (w : BitWriter) → Extends w (flush fuel w)
unfolding flush
flush-Extends zero w = ([], sym (append-nil w.out))
flush-Extends (suc fuel) w = elim (Bool-cases (ltb w.bit 8)) [
  | inl e ↦ rw e ([], sym (append-nil w.out))
  | inr e ↦ rw e (
      Extends-trans w (push_byte w) (flush fuel (push_byte w)) (w.held % 256 ∷ [], refl)
        (flush-Extends fuel (push_byte w)))
]

-- What is out stays out.
pub put-Extends : (v c : ℕ) (w : BitWriter) → Extends w (put v c w)
unfolding put
put-Extends v c w = flush-Extends (w.bit + c) (hold v c w)

pub code-Extends : (v n : ℕ) (w : BitWriter) → Extends w (code v n w)
unfolding code
code-Extends v zero w = ([], sym (append-nil w.out))
code-Extends v (suc i) w =
    let next = put (v / 2 ^ i % 2) 1 w in
    Extends-trans w next (code v i next) (put-Extends (v / 2 ^ i % 2) 1 w) (code-Extends v i next)
