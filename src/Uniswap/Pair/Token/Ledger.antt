-- ===== src/Uniswap/Pair/Token/Ledger.antt =====
-- What a token is, abstractly: a number for each account, and the sum over a list of accounts.
use risc_v_rust.Base.{ℕ, ◌+◌, ◌-◌, ◌≤◌, ◌≡◌, List, [], ◌∷◌, arith, if◌then◌else◌}
use risc_v_rust.Base.Bytes.{Bytes, bytes_eq, bytes_eq_iff}

abbrev pub Ledger : Type 0
Ledger = Bytes → ℕ

abbrev pub put : Ledger → Bytes → ℕ → Ledger
put f a v b = if bytes_eq a b then v else f b

-- `value` goes from one account to another, or to the same.
abbrev pub moved : Bytes → Bytes → ℕ → Ledger → Ledger
moved from to value f = let g = put f from (f from - value) in put g to (g to + value)

unfoldable pub sum : Ledger → List Bytes → ℕ
sum f [] = 0
sum f (a ∷ others) = f a + sum f others

-- How often an account is listed.
unfoldable pub times : Bytes → List Bytes → ℕ
times a [] = 0
times a (b ∷ bs) = (if bytes_eq a b then 1 else 0) + times a bs

sum-put_absent :
    (f : Ledger) (a : Bytes) (v : ℕ) (bs : List Bytes)
    → times a bs ≡ 0
    → sum (put f a v) bs ≡ sum f bs
unfolding sum times
sum-put_absent f a v [] h = ground arith
sum-put_absent f a v (b ∷ bs) h = ground (arith, sum-put_absent f a v bs)

sum-put :
    (f : Ledger) (a : Bytes) (v : ℕ) (bs : List Bytes)
    → times a bs ≡ 1
    → sum (put f a v) bs + f a ≡ sum f bs + v
unfolding sum times
sum-put f a v [] h = absurd (omega arith)
sum-put f a v (b ∷ bs) h =
    ground (arith, sum-put f a v bs, sum-put_absent f a v bs, bytes_eq_iff a b)

le-sum : (f : Ledger) (a : Bytes) (bs : List Bytes) → times a bs ≡ 1 → f a ≤ sum f bs
unfolding sum times
le-sum f a [] h = absurd (omega arith)
le-sum f a (b ∷ bs) h = ground (arith, le-sum f a bs, bytes_eq_iff a b)

-- A move between listed accounts keeps the sum.
pub sum-moved :
    (from to : Bytes) (value : ℕ) (f : Ledger) (others : List Bytes)
    → value ≤ f from
    → times from others ≡ 1
    → times to others ≡ 1
    → sum (moved from to value f) others ≡ sum f others
sum-moved from to value f others h hf ht =
    let g = put f from (f from - value) in
    omega (arith, sum-put f from (f from - value) others hf, sum-put g to (g to + value) others ht)

-- No account, and no account after a move, holds more than the sum.
pub moved-le-sum :
    (from to : Bytes) (value : ℕ) (f : Ledger) (others : List Bytes)
    → value ≤ f from
    → times from others ≡ 1
    → times to others ≡ 1
    → (f from ≤ sum f others) × (put f from (f from - value) to + value ≤ sum f others)
moved-le-sum from to value f others h hf ht = (
  le-sum f from others hf,
  ground (
    arith,
    bytes_eq_iff to to,
    le-sum (moved from to value f) to others ht,
    sum-moved from to value f others h hf ht,
  ),
)
