-- ===== src/Uniswap/Factory/Registry.antt =====
-- The registry of pairs, and who may change the fee.
use risc_v_rust.Base.{
  ℕ, zero, suc, ◌≡◌, ◌≢◌, ◌⊎◌, ◌∙◌, refl, sym, ap, inl, inr, Bool-cases, true, false, some, [], ◌∷◌,
  arith, length,
}
use risc_v_rust.Base.Bytes.{Bytes, bytes_eq, bytes_eq_iff, bytes_eq_ne, bytes_lt, zeros}
use risc_v_rust.Uniswap.Host.{World, Host, reverted, ◌>>=◌}
use risc_v_rust.Uniswap.Slots.{slot_key}
use risc_v_rust.Uniswap.Factory.{
  FactoryDecoders, sort_tokens, get_setter, slot_pair_code_hash, get_pair_internal, return_pair,
  create_pair, set_fee_to, set_fee_to_setter,
}

bytes_lt_asymm : (a b : Bytes) → bytes_lt a b ≡ true → bytes_lt b a ≡ false
unfolding bytes_lt
bytes_lt_asymm [] [] h = refl
bytes_lt_asymm [] (y ∷ b) h = refl
bytes_lt_asymm (x ∷ a) [] h = cc
bytes_lt_asymm (x ∷ a) (y ∷ b) h = ground (arith, bytes_lt_asymm a b)

bytes_lt_connected :
    (a b : Bytes) → length a ≡ length b → bytes_lt a b ≡ false → bytes_lt b a ≡ false → a ≡ b
unfolding bytes_lt
bytes_lt_connected [] [] e h k = refl
bytes_lt_connected [] (y ∷ b) e h k = absurd (omega arith)
bytes_lt_connected (x ∷ a) [] e h k = absurd (omega arith)
bytes_lt_connected (x ∷ a) (y ∷ b) e h k = ground (arith, bytes_lt_connected a b)

-- The order of two tokens does not matter.
sort_tokens_comm : (a b : Bytes) → length a ≡ length b → sort_tokens a b ≡ sort_tokens b a
unfolding sort_tokens
sort_tokens_comm a b e = ground (arith, bytes_lt_asymm a b, bytes_lt_connected a b e)

zeros_least : (n : ℕ) (xs : Bytes) → length xs ≡ n → bytes_lt xs (zeros n) ≡ false
unfolding bytes_lt
zeros_least zero xs e = refl
zeros_least (suc n) [] e = absurd (omega arith)
zeros_least (suc n) (x ∷ xs) e = ground (arith, zeros_least n xs)

sort_tokens-lt : (a b : Bytes) → bytes_lt a b ≡ true → sort_tokens a b ≡ (a, b)
unfolding sort_tokens
sort_tokens-lt a b h = rw h

sort_tokens-gt : (a b : Bytes) → bytes_lt b a ≡ true → sort_tokens a b ≡ (b, a)
unfolding sort_tokens
sort_tokens-gt a b h = rw (bytes_lt_asymm b a h)

decided : (a b : Bytes) → (a ≡ b) ⊎ (a ≢ b)
decided a b = elim (Bool-cases (bytes_eq a b)) [
  | inl h ↦ inl (ground (arith, h, bytes_eq_iff a b))
  | inr h ↦ inr (ground (arith, h, bytes_eq_iff a b))
]

-- The zero address sorts first.
zero_first :
    (a b : Bytes)
    → length a ≡ 20
    → length b ≡ 20
    → a ≢ b
    → (a ≡ zeros 20) ⊎ (b ≡ zeros 20)
    → (sort_tokens a b).0 ≡ zeros 20
unfolding sort_tokens
zero_first a b la lb ne h = elim (Bool-cases (bytes_lt a b)) [
  | inl lt ↦ elim h [
    | inl e ↦ rw lt e
    | inr e ↦ absurd (cc (lt, ap (bytes_lt a) e, zeros_least 20 a la))
  ]
  | inr ge ↦ elim h [
    | inr e ↦ rw ge e
    | inl e ↦
        absurd
          (ne (bytes_lt_connected a b (la ∙ sym lb) ge (ap (bytes_lt b) e ∙ zeros_least 20 b lb)))
  ]
]

module _ {E : Type 0} (host : Host E) (abi : FactoryDecoders) (w : World E) where
  open host use {hash_keccak_256, caller}

  -- getPair gives the same answer for two tokens of the same length in either order.
  pub return_pair_comm :
      (one other a b : Bytes)
      → abi.get_pair one ≡ some (a, b)
      → abi.get_pair other ≡ some (b, a)
      → length a ≡ length b
      → return_pair host abi one w ≡ return_pair host abi other w
  unfolding return_pair ◌>>=◌
  return_pair_comm one other a b e f same = rw (e, f) (rw (sort_tokens_comm a b same))

  -- Who is not the setter can change neither the fee's receiver nor the setter: both calls revert and
  -- change nothing.
  pub outsider-reverts :
      (call_data : Bytes)
      → caller ≢ get_setter w.storage
      → (set_fee_to host abi call_data w ≡ (reverted, w))
        × (set_fee_to_setter host abi call_data w ≡ (reverted, w))
  unfolding set_fee_to set_fee_to_setter ◌>>=◌
  outsider-reverts call_data ne =
      let e = bytes_eq_ne caller (get_setter w.storage) ne in (ground arith, ground arith)

  -- The guards of createPair on the sorted tokens.
  refused_sorted :
      (call_data a b : Bytes)
      → abi.create_pair call_data ≡ some (a, b)
      → (a ≡ b)
        ⊎ ((sort_tokens a b).0 ≡ zeros 20)
        ⊎ (get_pair_internal hash_keccak_256 (sort_tokens a b).0 (sort_tokens a b).1 w.storage
            ≢ zeros 20)
        ⊎ (w.storage (slot_key slot_pair_code_hash) ≡ zeros 32)
      → create_pair host abi call_data w ≡ (reverted, w)
  unfolding create_pair ◌>>=◌
  refused_sorted call_data a b e h =
      let sorted = sort_tokens a b in
      let known = get_pair_internal hash_keccak_256 sorted.0 sorted.1 w.storage in
      ground (
        arith,
        bytes_eq_iff a b,
        bytes_eq_iff sorted.0 (zeros 20),
        bytes_eq_iff known (zeros 20),
        bytes_eq_iff (w.storage (slot_key slot_pair_code_hash)) (zeros 32),
      )

  -- createPair reverts and changes nothing for a token with itself, for the zero address as either token,
  -- for two tokens whose pair is registered under the smaller token first, and while the pair's code is not
  -- set. A token is an address of twenty bytes.
  pub create_pair_refused :
      (call_data a b : Bytes)
      → abi.create_pair call_data ≡ some (a, b)
      → length a ≡ 20
      → length b ≡ 20
      → (a ≡ b)
        ⊎ (a ≡ zeros 20)
        ⊎ (b ≡ zeros 20)
        ⊎ ((bytes_lt a b ≡ true) × (get_pair_internal hash_keccak_256 a b w.storage ≢ zeros 20))
        ⊎ ((bytes_lt b a ≡ true) × (get_pair_internal hash_keccak_256 b a w.storage ≢ zeros 20))
        ⊎ (w.storage (slot_key slot_pair_code_hash) ≡ zeros 32)
      → create_pair host abi call_data w ≡ (reverted, w)
  create_pair_refused call_data a b e la lb h = refused_sorted call_data a b e (elim h [
    | inl same ↦ inl same
    | inr (inl none_a) ↦ elim (decided a b) [
      | inl same ↦ inl same
      | inr ne ↦ inr (inl (zero_first a b la lb ne (inl none_a)))
    ]
    | inr (inr (inl none_b)) ↦ elim (decided a b) [
      | inl same ↦ inl same
      | inr ne ↦ inr (inl (zero_first a b la lb ne (inr none_b)))
    ]
    | inr (inr (inr (inl (lt, known)))) ↦ inr (inr (inl (rw (sort_tokens-lt a b lt) known)))
    | inr (inr (inr (inr (inl (lt, known))))) ↦ inr (inr (inl (rw (sort_tokens-gt a b lt) known)))
    | inr (inr (inr (inr (inr unset)))) ↦ inr (inr (inr unset))
  ])
