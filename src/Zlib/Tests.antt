-- ===== src/Zlib/Tests.antt =====
-- A stream of one stored block with the bytes 97, 98 and 99, and a word with a match in it.
use soulseek_rs_lib.Base.{ℕ, ◌≡◌, List, [], ◌∷◌, All, arith}
use soulseek_rs_lib.Bytes.{IsByte}
use soulseek_rs_lib.Zlib.Result.{done, and_then}
use soulseek_rs_lib.Zlib.Inflate.{inflate_limited}
use soulseek_rs_lib.Zlib.Inflate.Blocks.{Bounded, inflate_limited-Bounded}
use soulseek_rs_lib.Zlib.Deflate.{deflate}
use soulseek_rs_lib.Zlib.RoundTrip.{
  verdict, with_trailer, inflate_limited-deflate, inflate_limited-with_trailer,
}

abbrev stored : List ℕ
stored = 120 ∷ 1 ∷ 1 ∷ 3 ∷ 0 ∷ 252 ∷ 255 ∷ 97 ∷ 98 ∷ 99 ∷ 2 ∷ 77 ∷ 1 ∷ 39 ∷ []

inflate_limited-Bounded_example : Bounded 2 (inflate_limited stored 2)
inflate_limited-Bounded_example = inflate_limited-Bounded stored 2

abbrev word : List ℕ
word = 97 ∷ 97 ∷ 97 ∷ 97 ∷ 97 ∷ 98 ∷ []

word-IsByte : All IsByte word
word-IsByte =
    (omega arith, (omega arith, (omega arith, (omega arith, (omega arith, (omega arith, tt))))))

inflate_limited-deflate_example : and_then (deflate word) (λ zs. inflate_limited zs 6) ≡ done word
inflate_limited-deflate_example = inflate_limited-deflate word 6 word-IsByte

inflate_limited-with_trailer_example :
    and_then (deflate word) (λ zs. inflate_limited (with_trailer zs (0 ∷ 0 ∷ 0 ∷ 1 ∷ [])) 6)
    ≡ verdict 6 word (0 ∷ 0 ∷ 0 ∷ 1 ∷ [])
inflate_limited-with_trailer_example =
    inflate_limited-with_trailer word 6 0 0 0 1 word-IsByte
      (omega arith, (omega arith, (omega arith, (omega arith, tt))))
