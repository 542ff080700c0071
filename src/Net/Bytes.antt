-- ===== src/Net/Bytes.antt =====
-- Big-endian numbers (`to_be_bytes` and `from_be_bytes` of the standard library), and the
-- interface of the byte buffers that the protocol is written over (`BufMut` and `Buf` of the
-- crate `bytes`, which stands outside the repository).
use native.Mathlib.Nat.{pow-suc}
use mathlib.Core.List.{foldl, foldl-append}
use creo_bench.Prelude.{
  ℕ, zero, suc, ◌+◌, ◌*◌, ◌/◌, ◌%◌, ◌^◌, ◌<◌, ◌≡◌, refl, Option, none, some, List, [], ◌∷◌, ◌++◌,
  arith, length, length-append,
}

-- The `w` bytes of `n`, the most significant first; what does not fit is cut off.
unfoldable pub to_be_bytes : ℕ → ℕ → List ℕ
to_be_bytes zero n = []
to_be_bytes (suc w) n = to_be_bytes w (n / 256) ++ n % 256 ∷ []

unfoldable pub from_be_bytes : List ℕ → ℕ
from_be_bytes = foldl (λ acc byte. acc * 256 + byte) 0

pub length-to_be_bytes : (w n : ℕ) → length (to_be_bytes w n) ≡ w
unfolding to_be_bytes
length-to_be_bytes zero n = refl
length-to_be_bytes (suc w) n =
    omega (
      arith,
      length-append (to_be_bytes w (n / 256)) (n % 256 ∷ []),
      length-to_be_bytes w (n / 256),
    )

pub from_be_bytes-to_be_bytes : (w n : ℕ) → n < 256 ^ w → from_be_bytes (to_be_bytes w n) ≡ n
unfolding from_be_bytes to_be_bytes
from_be_bytes-to_be_bytes zero n h = omega arith
from_be_bytes-to_be_bytes (suc w) n h =
    rw foldl-append
      (omega (arith, from_be_bytes-to_be_bytes w (n / 256) (omega (arith, pow-suc 256 w))))

-- The documented behaviour of the buffers. A buffer is the list of its unread bytes.
-- `put_uint w` is `put_u8`, `put_u16`, …, `put_f64` by the width in bytes (of the bit pattern, for
-- the signed and the floating types), `try_get_uint w` is `try_get_u8` and so on, and `split_to`
-- is `BytesMut::split_to` and `Buf::copy_to_bytes`.
pub record Buffer : Type 0 where
  pub put_uint : ℕ → ℕ → List ℕ → List ℕ
  pub put_slice : List ℕ → List ℕ → List ℕ
  pub try_get_uint : ℕ → List ℕ → Option (ℕ × List ℕ)
  pub split_to : ℕ → List ℕ → List ℕ × List ℕ
  pub advance : ℕ → List ℕ → List ℕ
  pub put_uint_lem : (w n : ℕ) (buf : List ℕ) → put_uint w n buf ≡ buf ++ to_be_bytes w n
  pub put_slice_lem : (src buf : List ℕ) → put_slice src buf ≡ buf ++ src
  pub try_get_uint_short : (w : ℕ) (buf : List ℕ) → length buf < w → try_get_uint w buf ≡ none
  pub try_get_uint_lem :
      (w : ℕ) (xs rest : List ℕ)
      → length xs ≡ w
      → try_get_uint w (xs ++ rest) ≡ some (from_be_bytes xs, rest)
  pub split_to_lem :
      (n : ℕ) (xs rest : List ℕ) → length xs ≡ n → split_to n (xs ++ rest) ≡ (xs, rest)
  pub advance_lem : (n : ℕ) (xs rest : List ℕ) → length xs ≡ n → advance n (xs ++ rest) ≡ rest

-- What was put is what is read back.
pub try_get_uint-to_be_bytes :
    (bytes : Buffer) (w n : ℕ) (rest : List ℕ)
    → n < 256 ^ w
    → bytes.try_get_uint w (to_be_bytes w n ++ rest) ≡ some (n, rest)
try_get_uint-to_be_bytes bytes w n rest h = rw (
  bytes.try_get_uint_lem w (to_be_bytes w n) rest (length-to_be_bytes w n),
  from_be_bytes-to_be_bytes w n h,
)
