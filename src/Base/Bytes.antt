-- ===== src/Base/Bytes.antt =====
-- Byte arrays as lists of numbers: comparison, slices, and big-endian words.
use Prim.Native.Nat.{ℕ, zero, suc, ◌+◌, ◌-◌, ◌*◌, ◌/◌, ◌%◌, ◌^◌, ◌<◌, compare, Ordering}
use Prim.Native.Char.{code}
use Prim.Native.String.{String}
use mathlib.Core.Path.{◌≡◌, refl, ap, ◌∙◌}
use mathlib.Core.Logic.{◌↔◌, ◌≢◌}
use mathlib.Core.Bool.{Bool, true, false, ◌&&◌}
use mathlib.Core.List.{List, [], ◌∷◌, ◌++◌}
use native.Mathlib.Nat.{pow-suc}
use native.Mathlib.Omega.{arith}
use risc_v_rust.Base.Tests.{◌==◌}
use risc_v_rust.Base.Lists.{length, take, drop, replicate, length-append}

abbrev pub Bytes : Type 0
Bytes = List ℕ

-- `a == b` on arrays and slices.
unfoldable pub bytes_eq : Bytes → Bytes → Bool
bytes_eq [] [] = true
bytes_eq [] (y ∷ ys) = false
bytes_eq (x ∷ xs) [] = false
bytes_eq (x ∷ xs) (y ∷ ys) = x == y && bytes_eq xs ys

pub bytes_eq_iff : (xs ys : Bytes) → (bytes_eq xs ys ≡ true) ↔ (xs ≡ ys)
unfolding bytes_eq
bytes_eq_iff [] [] = ground arith
bytes_eq_iff [] (y ∷ ys) = ground arith
bytes_eq_iff (x ∷ xs) [] = ground arith
bytes_eq_iff (x ∷ xs) (y ∷ ys) = ground (arith, bytes_eq_iff xs ys)

pub bytes_eq_refl : (xs : Bytes) → bytes_eq xs xs ≡ true
bytes_eq_refl xs = (bytes_eq_iff xs xs).1 refl

pub bytes_eq_ne : (xs ys : Bytes) → xs ≢ ys → bytes_eq xs ys ≡ false
bytes_eq_ne xs ys ne = ground (arith, bytes_eq_iff xs ys)

-- `a < b` on arrays: the lexicographic order.
unfoldable pub bytes_lt : Bytes → Bytes → Bool
bytes_lt xs [] = false
bytes_lt [] (y ∷ ys) = true
bytes_lt (x ∷ xs) (y ∷ ys) = elim (compare x y) [
  | Ordering.lt ↦ true
  | Ordering.eq ↦ bytes_lt xs ys
  | Ordering.gt ↦ false
]

-- `[0u8; n]`
abbrev pub zeros : ℕ → Bytes
zeros n = replicate n 0

-- `xs[lo..hi]`
abbrev pub slice : ℕ → ℕ → Bytes → Bytes
slice lo hi xs = take (hi - lo) (drop lo xs)

-- `buf[lo..lo + src.len()].copy_from_slice(src)`
abbrev pub copy_from_slice : Bytes → ℕ → Bytes → Bytes
copy_from_slice buf lo src = take lo buf ++ (src ++ drop (lo + length src) buf)

-- `U256::from_be_slice`, and the same reading of any big-endian bytes, from the value read so far.
unfoldable pub be_from : ℕ → Bytes → ℕ
be_from acc [] = acc
be_from acc (x ∷ xs) = be_from (acc * 256 + x) xs

abbrev pub from_be_slice : Bytes → ℕ
from_be_slice xs = be_from 0 xs

-- `to_be_bytes` at a width of `k` bytes.
unfoldable pub to_be_bytes : ℕ → ℕ → Bytes
to_be_bytes zero n = []
to_be_bytes (suc k) n = to_be_bytes k (n / 256) ++ (n % 256) ∷ []

be_from-append : (acc : ℕ) (xs ys : Bytes) → be_from acc (xs ++ ys) ≡ be_from (be_from acc xs) ys
unfolding be_from
be_from-append acc [] ys = refl
be_from-append acc (x ∷ xs) ys = be_from-append (acc * 256 + x) xs ys

pub length-to_be_bytes : (k n : ℕ) → length (to_be_bytes k n) ≡ k
unfolding to_be_bytes
length-to_be_bytes zero n = refl
length-to_be_bytes (suc k) n = omega (
  arith,
  length-append (to_be_bytes k (n / 256)) ((n % 256) ∷ []),
  length-to_be_bytes k (n / 256),
)

from_be-to_be_split :
    (k q r : ℕ) → r < 256 ^ k → from_be_slice (to_be_bytes k (q * 256 ^ k + r)) ≡ r
unfolding to_be_bytes be_from
from_be-to_be_split zero q r h = omega arith
from_be-to_be_split (suc k) q r h =
    let n = q * 256 ^ suc k + r in
    let shifted : n / 256 ≡ q * 256 ^ k + r / 256 =
      omega (arith, pow-suc 256 k, ap (λ (t : ℕ). q * t) (pow-suc 256 k)) in
    rw (be_from-append 0 (to_be_bytes k (n / 256)) ((n % 256) ∷ [])) (
      rw shifted (
        omega (
          arith,
          from_be-to_be_split k q (r / 256) (omega (arith, pow-suc 256 k)),
          pow-suc 256 k,
          ap (λ (t : ℕ). q * t) (pow-suc 256 k),
        )))

-- Big-endian bytes are read back, up to what did not fit them.
pub from_be-to_be : (n : ℕ) → from_be_slice (to_be_bytes 32 n) ≡ n % 2 ^ 256
from_be-to_be n =
    let e : n ≡ n / 2 ^ 256 * 256 ^ 32 + n % 2 ^ 256 = omega arith in
    ap (λ (t : ℕ). from_be_slice (to_be_bytes 32 t)) e
    ∙ from_be-to_be_split 32 (n / 2 ^ 256) (n % 2 ^ 256) (omega arith)

-- The code points of a text: its bytes, if it is ASCII.
abbrev pub codes : String → Bytes
codes String.[] = []
codes (String.◌∷◌ c s) = code c ∷ codes s
