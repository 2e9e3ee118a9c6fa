-- ===== src/Uniswap/Math/Sqrt.antt =====
-- The square root is the integer square root, and its loop ends (uniswap-rust/src/math.rs).
use native.Mathlib.Nat.{le_refl, lt-mul-div-succ, div-mul-le_self}
use risc_v_rust.Base.{
  ℕ, zero, suc, ◌+◌, ◌-◌, ◌*◌, ◌/◌, ◌^◌, ◌≤◌, ◌<◌, ◌≡◌, ◌⊎◌, inl, inr, refl, false, some, arith,
  Bool-cases, ltb→lt, ltb→le, ltb, if◌then◌else◌,
}
use risc_v_rust.Base.Word.{add256, mul_mono}
use risc_v_rust.Uniswap.Math.{sqrt_loop, sqrt_u256}

abbrev pub IsRoot : ℕ → ℕ → Type 0
IsRoot y r = (r * r ≤ y) × (y < (r + 1) * (r + 1))

square_of_sum_le : (a b d : ℕ) → b ≡ a + d → 4 * (a * b) ≤ (a + b) * (a + b)
square_of_sum_le a b d e = rw e (omega arith)

square_of_sum : (a b : ℕ) → 4 * (a * b) ≤ (a + b) * (a + b)
square_of_sum a b = elim (Bool-cases (ltb a b)) [
  | inl below ↦ square_of_sum_le a b (b - a) (omega (arith, ltb→lt a b below))
  | inr above ↦ omega (arith, square_of_sum_le b a (a - b) (omega (arith, ltb→le a b above)))
]

square_mono : (a b : ℕ) → a ≤ b → a * a ≤ b * b
square_mono a b h = grind arith

-- The mean of `x` and `q = y / x` does not fall below the root: `y < (q + 1) * x`, and four times
-- that is at most the square of `q + 1 + x`.
mean_above : (y x : ℕ) → 0 < x → y < ((y / x + x) / 2 + 1) * ((y / x + x) / 2 + 1)
mean_above y x h = omega (
  arith,
  lt-mul-div-succ y h,
  square_of_sum (y / x + 1) x,
  square_mono (y / x + 1 + x) (2 * ((y / x + x) / 2 + 1)) (omega arith),
)

-- A quotient by two or more.
quotient_le : (y x : ℕ) → 2 ≤ x → y / x ≤ y / 2
quotient_le y x h = omega (arith, div-mul-le_self y x, mul_mono (y / x) 2 x h)

next_exact : (y x : ℕ) → y < 2 ^ 256 → 2 ≤ x → x ≤ y / 2 + 1 → add256 (y / x) x ≡ y / x + x
next_exact y x hy lo hi = omega (arith, quotient_le y x lo)

-- Where the loop stops.
stop : (y z : ℕ) → z ≤ (y / z + z) / 2 → z * z ≤ y
stop y z e = omega (arith, div-mul-le_self y z, mul_mono z z (y / z) (omega arith))

two_le : (y x : ℕ) → 3 < y → y < (x + 1) * (x + 1) → 2 ≤ x
two_le y zero h k = absurd (omega arith)
two_le y (suc zero) h k = absurd (omega arith)
two_le y (suc (suc x)) h k = omega arith

module _ (y : ℕ) (big : 3 < y) (fits : y < 2 ^ 256) where
  -- What holds of `z` and `x` at each test of the loop.
  record IsRound (z x : ℕ) : Type 0 where
    two : 2 ≤ x
    half : x ≤ y / 2 + 1
    above : y < (x + 1) * (x + 1)
    above_z : y < (z + 1) * (z + 1)
    next : (x < z) ⊎ (x ≡ (y / z + z) / 2)

  next-IsRound : (z x : ℕ) → IsRound z x → IsRound x (add256 (y / x) x / 2)
  next-IsRound z x r = rw (next_exact y x fits r.two r.half) (record {
    two = two_le y ((y / x + x) / 2) big (mean_above y x (omega (arith, r.two)));
    half = omega (arith, quotient_le y x r.two, r.half);
    above = mean_above y x (omega (arith, r.two));
    above_z = r.above;
    next = inr refl;
  })

  stops : (z x : ℕ) → IsRound z x → ltb x z ≡ false → IsRoot y z
  stops z x r done = (
    elim r.next [
      | inl lt ↦ absurd (omega (arith, ltb→le x z done))
      | inr e ↦ stop y z (omega (arith, ltb→le x z done))
    ],
    r.above_z,
  )

  loop-IsRoot :
      (fuel z x : ℕ)
      → z ≤ fuel
      → IsRound z x
      → 0 < z
      → (r : ℕ) × (sqrt_loop fuel y z x ≡ some r) × IsRoot y r
  unfolding sqrt_loop
  loop-IsRoot zero z x m r p = absurd (omega arith)
  loop-IsRoot (suc fuel) z x m r p = elim (Bool-cases (ltb x z)) [
    | inl more ↦ rw more (
        loop-IsRoot fuel x (add256 (y / x) x / 2) (omega (arith, ltb→lt x z more))
          (next-IsRound z x r) (omega (arith, r.two)))
    | inr done ↦ (z, rw done, stops z x r done)
  ]

first_exact : (y : ℕ) → y < 2 ^ 256 → add256 (y / 2) 1 ≡ y / 2 + 1
first_exact y h = omega arith

first-IsRound : (y : ℕ) (big : 3 < y) (fits : y < 2 ^ 256) → IsRound y big fits y (y / 2 + 1)
first-IsRound y big fits = record {
  two = omega arith;
  half = omega arith;
  above = omega arith;
  above_z = omega arith;
  next = inl (omega arith);
}

small-IsRoot :
    (y : ℕ) → y ≤ 3 → (r : ℕ) × ((if ltb 0 y then some 1 else some 0) ≡ some r) × IsRoot y r
small-IsRoot zero h = (0, refl, omega arith)
small-IsRoot (suc y) h = (1, ground arith, omega arith)

-- On every 256-bit input the loop ends within its fuel, and the result is the integer square root:
-- the largest `r` with `r * r ≤ y`.
pub sqrt_u256-IsRoot : (y : ℕ) → y < 2 ^ 256 → (r : ℕ) × (sqrt_u256 y ≡ some r) × IsRoot y r
unfolding sqrt_u256
sqrt_u256-IsRoot y h = elim (Bool-cases (ltb 3 y)) [
  | inl big ↦
      let four = ltb→lt 3 y big in
      rw big (
        rw (first_exact y h)
          (loop-IsRoot y four h y y (y / 2 + 1) (le_refl y) (first-IsRound y four h) (omega arith)))
  | inr small ↦ rw small (small-IsRoot y (ltb→le 3 y small))
]
