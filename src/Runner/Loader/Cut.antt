-- ===== src/Runner/Loader/Cut.antt =====
-- Where the loader cuts EVM bytecode in two.
use risc_v_rust.Base.{
  ℕ, zero, suc, ◌+◌, ◌-◌, ◌≤◌, ◌<◌, ◌≡◌, refl, append-nil, ◌&&◌, Option, none, some, List, [], ◌∷◌,
  ◌++◌, arith, length, take, drop, get_elem?, ==_iff, ltb, Bool-cases, Option-cases, inl, inr, ◌⊎◌,
  length-take, take-append-drop,
}
use risc_v_rust.Base.Bytes.{Bytes}
use risc_v_rust.Runner.Engine.{ok}
use risc_v_rust.Runner.Loader.{
  Files, strip_0x, trim, position_of_return, after_return, alternate_offset, init_len, split_code,
  load_evm_bytecode,
}

-- The first byte 0xf3 stands at the position found.
position_of_return-some :
    (full : Bytes) (i : ℕ)
    → position_of_return full ≡ some i
    → (position_of_return (take i full) ≡ none) × (get_elem? full i ≡ some 0xf3)
unfolding position_of_return
position_of_return-some [] i e = cc
position_of_return-some (b ∷ bs) zero e = ground (arith, ==_iff b 0xf3)
position_of_return-some (b ∷ bs) (suc i) e =
    ground (arith, ==_iff b 0xf3, position_of_return-some bs i)

take-get_elem? :
    (xs : Bytes) (i k m x : ℕ)
    → get_elem? xs i ≡ some x
    → m ≡ i + suc k
    → take m xs ≡ take i xs ++ x ∷ take k (drop (suc i) xs)
take-get_elem? [] i k m x e h = cc
take-get_elem? (y ∷ xs) i k zero x e h = absurd (omega arith)
take-get_elem? (y ∷ xs) zero k (suc m) x e h = let same : m ≡ k = omega arith in cc
take-get_elem? (y ∷ xs) (suc i) k (suc m) x e h = rw (take-get_elem? xs i k m x e (omega arith))

alternate_offset_bounds :
    (n : ℕ) (o : Option ℕ) → (n ≤ alternate_offset n o) × (alternate_offset n o ≤ n + 1)
unfolding alternate_offset
alternate_offset_bounds n none = (omega arith, omega arith)
alternate_offset_bounds n (some b) = ground arith

after_return-some :
    (full : Bytes) (i : ℕ) → position_of_return full ≡ some i → after_return full ≡ i + 1
unfolding after_return
after_return-some full i e = rw (e, after_return) refl

-- Cut at one byte or two bytes behind the position found.
init_len-some :
    (full : Bytes) (i : ℕ)
    → position_of_return full ≡ some i
    → (i + 1 ≤ init_len full) × (init_len full ≤ i + 2)
unfolding init_len
init_len-some full i e =
    let n = after_return full in
    let (low, high) = alternate_offset_bounds n (get_elem? full n) in
    ground (arith, low, high, after_return-some full i e)

after_return-none : (full : Bytes) → position_of_return full ≡ none → after_return full ≡ 0
unfolding after_return
after_return-none full e = rw (e, after_return) refl

init_len-none : (full : Bytes) → position_of_return full ≡ none → init_len full ≡ 0
unfolding init_len
init_len-none full e = rw (after_return-none full e) refl

-- A cut behind the first return: the first part ends in the byte 0xf3 and at most one byte more.
unfoldable pub BehindReturn : Bytes → Type 0
BehindReturn init =
    (before : Bytes) × (more : Bytes) × (position_of_return before ≡ none)
    × (init ≡ before ++ 0xf3 ∷ more)
    × (length more ≤ 1)

take-BehindReturn : (full : Bytes) → 0 < init_len full → BehindReturn (take (init_len full) full)
unfolding BehindReturn
take-BehindReturn full h = elim (Option-cases (position_of_return full)) [
  | inl e ↦ absurd (omega (arith, init_len-none full e))
  | inr (i, e) ↦
      let (clean, found) = position_of_return-some full i e in
      let (low, high) = init_len-some full i e in
      let k = init_len full - (i + 1) in
      (
        take i full,
        take k (drop (suc i) full),
        clean,
        take-get_elem? full i k (init_len full) 0xf3 found (omega arith),
        omega (arith, length-take k (drop (suc i) full)),
      )
]

split_code-lem :
    (full : Bytes)
    → ((split_code full).0 ++ (split_code full).1 ≡ full)
      × (((split_code full).1 ≡ []) ⊎ BehindReturn (split_code full).0)
unfolding split_code
split_code-lem full =
    elim (Bool-cases (ltb (init_len full) (length full) && ltb 0 (init_len full))) [
      | inl h ↦
          rw h (take-append-drop (init_len full) full, inr (take-BehindReturn full (ground arith)))
      | inr h ↦ rw h (append-nil full, inl refl)
    ]

-- A text that is read and decoded is loaded. The two parts put together are the decoded code, and where the second
-- is not empty, the first ends in the first byte 0xf3 of the code and at most one byte more.
pub load_evm_bytecode-splits :
    (files : Files) (text : List ℕ) (full : Bytes)
    → files.read_to_string "bytecode/evm/arithmetic.bin" ≡ ok text
    → files.hex_decode (strip_0x (trim text)) ≡ ok full
    → (init : Bytes) × (runtime : Bytes) × (load_evm_bytecode files ≡ ok (init, runtime))
      × (init ++ runtime ≡ full)
      × ((runtime ≡ []) ⊎ BehindReturn init)
unfolding load_evm_bytecode split_code
load_evm_bytecode-splits files text full e f =
    let (whole, cut) = split_code-lem full in
    ((split_code full).0, (split_code full).1, rw (e, load_evm_bytecode) (rw f refl), whole, cut)
