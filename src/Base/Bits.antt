-- ===== src/Base/Bits.antt =====
-- `|` of a shifted field with what fits below it, and `&` with a mask of ones, as arithmetic.
use Prim.Native.Nat.{
  ℕ, zero, suc, ◌+◌, ◌-◌, ◌*◌, ◌/◌, ◌%◌, ◌^◌, ◌≤◌, ◌<◌, min, max, bit_and, bit_or, digits, bitwise,
  bit_and-bitwise, bit_or-bitwise,
}
use mathlib.Core.Path.{◌≡◌, refl, sym, ap}
use native.Mathlib.Nat.{pow-suc, one-le-pow, mod-lt, div-add-mod'}
use native.Mathlib.Omega.{arith}

-- The native operations stand for a recursion on binary digits with fuel; any fuel that is not
-- below the number gives the same digits.
module _ (rest : ℕ → ℕ) (digit : ℕ → ℕ → ℕ) where
  abbrev run : ℕ → ℕ → ℕ → ℕ
  run fuel x y = digits rest digit fuel x y

  enough : (fuel other x y : ℕ) → x ≤ fuel → x ≤ other → run fuel x y ≡ run other x y
  enough zero zero x y h k = refl
  enough zero (suc other) zero y h k = refl
  enough (suc fuel) zero zero y h k = refl
  enough (suc fuel) (suc other) zero y h k = refl
  enough zero (suc other) (suc x) y h k = absurd (omega arith)
  enough (suc fuel) zero (suc x) y h k = absurd (omega arith)
  enough (suc fuel) (suc other) (suc x) y h k =
      ap (λ t. t * 2 + digit (suc x % 2) (y % 2))
        (enough fuel other (suc x / 2) (y / 2) (omega arith) (omega arith))

  lowest :
      (x y : ℕ)
      → bitwise rest digit (suc x) y
        ≡ bitwise rest digit (suc x / 2) (y / 2) * 2 + digit (suc x % 2) (y % 2)
  lowest x y =
      ap (λ t. t * 2 + digit (suc x % 2) (y % 2))
        (enough x (suc x / 2) (suc x / 2) (y / 2) (omega arith) (omega arith))

-- The lowest binary digit of each operation.
or_lowest : (x y : ℕ) → bit_or x y ≡ bit_or (x / 2) (y / 2) * 2 + max (x % 2) (y % 2)
or_lowest zero y = simp bit_or-bitwise (omega arith)
or_lowest (suc x) y = simp bit_or-bitwise (lowest (λ b. b) max x y)

and_lowest : (x y : ℕ) → bit_and x y ≡ bit_and (x / 2) (y / 2) * 2 + min (x % 2) (y % 2)
and_lowest zero y = simp bit_and-bitwise (omega arith)
and_lowest (suc x) y = simp bit_and-bitwise (lowest (λ b. zero) min x y)

-- By the number of digits, `or` with nothing and `and` with nothing.
or_nothing : (k x : ℕ) → x < 2 ^ k → bit_or x 0 ≡ x
or_nothing zero zero h = refl
or_nothing zero (suc x) h = absurd (omega arith)
or_nothing (suc k) x h =
    omega (arith, or_lowest x 0, pow-suc 2 k, or_nothing k (x / 2) (omega (arith, pow-suc 2 k)))

and_nothing : (k x : ℕ) → x < 2 ^ k → bit_and x 0 ≡ 0
and_nothing zero zero h = refl
and_nothing zero (suc x) h = absurd (omega arith)
and_nothing (suc k) x h =
    omega (arith, and_lowest x 0, pow-suc 2 k, and_nothing k (x / 2) (omega (arith, pow-suc 2 k)))

-- A field shifted by `k` joined with a value of `k` bits is their sum.
pub bit_or-shifted : (n k q r : ℕ) → q < 2 ^ n → r < 2 ^ k → bit_or (q * 2 ^ k) r ≡ q * 2 ^ k + r
bit_or-shifted n zero q zero hq h = rw or_unit (omega (arith, or_nothing n q hq))
  where
    or_unit : q * 2 ^ 0 ≡ q
    or_unit = omega arith
bit_or-shifted n zero q (suc r) hq h = absurd (omega arith)
bit_or-shifted n (suc k) q r hq h =
    let twice : q * 2 ^ suc k ≡ 2 * (q * 2 ^ k) =
      omega (arith, ap (λ (t : ℕ). q * t) (pow-suc 2 k)) in
    let half : q * 2 ^ suc k / 2 ≡ q * 2 ^ k = omega arith in
    let rest = bit_or-shifted n k q (r / 2) hq (omega (arith, pow-suc 2 k)) in
    omega (arith, or_lowest (q * 2 ^ suc k) r, ap (λ (t : ℕ). bit_or t (r / 2)) half)

mask_split : (n k q r x : ℕ) → x < 2 ^ n → x ≡ q * 2 ^ k + r → r < 2 ^ k → bit_and x (2 ^ k - 1) ≡ r
mask_split n zero q r x hx e h = omega (arith, and_nothing n x hx)
mask_split n (suc k) q r x hx e h =
    let two = pow-suc 2 k in
    let twice : q * 2 ^ suc k ≡ 2 * (q * 2 ^ k) = omega (arith, ap (λ (t : ℕ). q * t) two) in
    let pos = one-le-pow k 2 (omega arith) in
    let half : (2 ^ suc k - 1) / 2 ≡ 2 ^ k - 1 = omega arith in
    let rest = mask_split n k q (r / 2) (x / 2) (omega arith) (omega arith) (omega arith) in
    omega (arith, and_lowest x (2 ^ suc k - 1), ap (λ (t : ℕ). bit_and (x / 2) t) half)

-- A mask of `k` ones keeps the remainder by `2 ^ k`.
pub bit_and-mask : (n k x : ℕ) → x < 2 ^ n → bit_and x (2 ^ k - 1) ≡ x % 2 ^ k
bit_and-mask n k x h =
    mask_split n k (x / 2 ^ k) (x % 2 ^ k) x h (sym (div-add-mod' x (2 ^ k)))
      (mod-lt x (one-le-pow k 2 (omega arith)))

below_power : (x : ℕ) → x < 2 ^ x
below_power zero = omega arith
below_power (suc x) = omega (arith, pow-suc 2 x, below_power x)

-- A mask of `k` ones leaves less than `2 ^ k`.
pub bit_and-lt : (k x : ℕ) → bit_and x (2 ^ k - 1) < 2 ^ k
bit_and-lt k x =
    omega (arith, bit_and-mask x k x (below_power x), mod-lt x (one-le-pow k 2 (omega arith)))
