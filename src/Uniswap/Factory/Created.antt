-- ===== src/Uniswap/Factory/Created.antt =====
-- What createPair leaves behind when it returns.
use risc_v_rust.Base.{
  ◌≡◌, ◌≢◌, ◌∙◌, refl, sym, ap, Bool, true, false, not, none, some, Option, arith,
}
use risc_v_rust.Base.Bytes.{Bytes, bytes_eq, bytes_eq_iff, zeros}
use risc_v_rust.Uniswap.Host.{
  Storage, World, M, Host, returned, revert_if, modify, external, return_value, unwrap_or_revert,
  get_storage_or_zero, ◌>>=◌, ◌>>◌,
}
use risc_v_rust.Uniswap.Host.Ensures.{
  Ensures, Ensures-bind, Ensures-returned, Ensures-gets, Ensures-unwrap_or_revert,
}
use risc_v_rust.Uniswap.Slots.{slot_key}
use risc_v_rust.Uniswap.Slots.Keys.{NoCollision}
use risc_v_rust.Uniswap.Pair.State.Balances.{IsAddress}
use risc_v_rust.Uniswap.Pair.Calls.{is_err}
use risc_v_rust.Uniswap.Factory.{
  slot_pair_code_hash, encode_initialize, FactoryDecoders, address_bytes, sort_tokens,
  get_pair_internal, set_pair, all_pairs_length, all_pairs_push, create_pair,
}
use risc_v_rust.Uniswap.Factory.Entered.{Entered, entered-Entered}

-- What a createPair that returns has done between `w` and `w'`: from the code that is set it has
-- made a new contract, whose call of `initialize` with the two tokens succeeded and left `before`; it
-- replies with the contract, and `w'` is `before` but for the storage, where the contract is entered.
pub record Created {E : Type 0} (host : Host E) (token0 token1 d : Bytes) (w w' : World E)
    : Type 0 where
  pub pair : Bytes
  pub out : Bytes
  pub made : World E
  pub before : World E
  pub instantiated :
      host.instantiate (get_storage_or_zero (slot_key slot_pair_code_hash) w.storage) w
      ≡ (some pair, made)
  pub initialized :
      host.call pair (encode_initialize host.hash_keccak_256 token0 token1) made
      ≡ (some out, before)
  pub reply : d ≡ address_bytes pair
  pub registry :
      Entered host.hash_keccak_256 token0 token1 pair (all_pairs_length before.storage) w'.storage
  pub only_storage : w'.rest ≡ before.rest

module _ {E : Type 0} (r : Bytes → World E → Type 0) (w : World E) where
  pub Ensures-revert_if : (b : Bool) → Ensures (λ _ w'. (b ≡ false) × (w' ≡ w)) r (revert_if b w)
  unfolding revert_if
  Ensures-revert_if true = record { holds = tt }
  Ensures-revert_if false = record { holds = (refl, refl) }

  pub Ensures-external :
      (f : World E → Option Bytes × World E) → Ensures (λ a w'. f w ≡ (a, w')) r (external f w)
  unfolding external
  Ensures-external f = record { holds = refl }

  three_writes :
      (f g h : Storage → Storage) (d : Bytes)
      → r d (record w { storage = h (g (f w.storage)) })
      → Ensures {A = Unit {0}}
          (λ _ _. Unit {0})
          r
          ((modify f >> (modify g >> (modify h >> return_value d))) w)
  unfolding ◌>>=◌
  three_writes f g h d t = record { holds = t }

pub answered : (o : Option Bytes) → is_err o ≡ false → (out : Bytes) × (o ≡ some out)
answered none e = cc
answered (some out) e = (out, refl)

-- createPair behind its guards.
unfoldable enter : {E : Type 0} → Host E → Bytes → Bytes → Bytes → M E (Unit {0})
enter host code_hash token0 token1 = do
  made ← external (host.instantiate code_hash)
  pair_addr ← unwrap_or_revert made
  call_res ← external (host.call pair_addr (encode_initialize host.hash_keccak_256 token0 token1))
  revert_if (is_err call_res)
  modify (set_pair host.hash_keccak_256 token0 token1 pair_addr)
  modify (set_pair host.hash_keccak_256 token1 token0 pair_addr)
  modify (all_pairs_push host.hash_keccak_256 pair_addr)
  return_value (address_bytes pair_addr)

module _ {E : Type 0} (host : Host E) (abi : FactoryDecoders)
    (ideal : NoCollision host.hash_keccak_256)
    (sized : (code : Bytes) (w : World E) (a : Bytes)
      → (host.instantiate code w).0 ≡ some a
      → IsAddress a)
    (w : World E) (call_data a b : Bytes) (decoded : abi.create_pair call_data ≡ some (a, b)) where
  open host use {hash_keccak_256}

  abbrev Goal : Bytes → World E → Type 0
  Goal d w' =
      (a ≢ b)
      × (get_pair_internal hash_keccak_256 (sort_tokens a b).0 (sort_tokens a b).1 w.storage
          ≡ zeros 20)
      × Created host (sort_tokens a b).0 (sort_tokens a b).1 d w w'

  abbrev Any : Unit {0} → World E → Type 0
  Any _ _ = Unit {0}

  fresh :
      (known : Bytes) {x : Bytes}
      → not (bytes_eq known (zeros 20)) ≡ false
      → known ≡ x
      → x ≡ zeros 20
  fresh known e same = sym same ∙ ground (arith, bytes_eq_iff known (zeros 20))

  abbrev known_in : World E → Bytes
  known_in v = get_pair_internal hash_keccak_256 (sort_tokens a b).0 (sort_tokens a b).1 v.storage

  abbrev code_in : World E → Bytes
  code_in v = get_storage_or_zero (slot_key slot_pair_code_hash) v.storage

  -- The second half: the new contract, its call, and the three writes.
  created :
      (a ≢ b) × (known_in w ≡ zeros 20)
      → (code : Bytes) (w7 : World E) → code ≡ code_in w
      → w7 ≡ w
      → Ensures Any Goal (enter host code (sort_tokens a b).0 (sort_tokens a b).1 w7)
  unfolding enter
  created asked code w7 same here =
      Ensures-bind Any Goal _ _ _ w7 (Ensures-external Goal w7 (host.instantiate code)) λ o w8 e8.
        Ensures-bind Any Goal _ _ _ w8 (Ensures-unwrap_or_revert Goal w8 o) λ pair w9 e9.
          Ensures-bind Any Goal _ _ _ w9 (Ensures-external Goal w9 _) λ res w10 e10.
            Ensures-bind Any Goal _ _ _ w10 (Ensures-revert_if Goal w10 _) λ _ w11 e11.
              let (out, paid) = answered res (e11.0) in
              let made : host.instantiate code w7 ≡ (some pair, w8) =
                e8 ∙ ap (λ r. (r, w8)) (e9.0) in
              three_writes Goal w11 _ _ _ _ (
                asked.0,
                asked.1,
                record {
                  pair = pair;
                  out = out;
                  made = w8;
                  before = w11;
                  instantiated = rw (← same, ← here) made;
                  initialized =
                      ap
                        (host.call pair (
                          encode_initialize hash_keccak_256 (sort_tokens a b).0
                            (sort_tokens a b).1))
                        (sym (e9.1))
                      ∙ e10
                      ∙ ap (λ r. (r, w10)) paid
                      ∙ ap (λ v. (some out, v)) (sym (e11.1));
                  reply = refl;
                  registry =
                      entered-Entered hash_keccak_256 ideal (sort_tokens a b).0 (sort_tokens a b).1
                        pair (sized code w7 pair (ap (λ x. x.0) made)) w11.storage;
                  only_storage = refl;
                },
              )

  create_pair-Ensures : Ensures Any Goal (create_pair host abi call_data w)
  unfolding create_pair enter
  create_pair-Ensures =
      Ensures-bind Any Goal _ _ _ w (Ensures-unwrap_or_revert Goal w (abi.create_pair call_data))
        λ c w1 e1.
          let same : c ≡ (a, b) = cc (e1.0) in
          rw same (
            Ensures-bind Any Goal _ _ _ w1 (Ensures-revert_if Goal w1 _) λ _ w2 e2.
              Ensures-bind Any Goal _ _ _ w2 (Ensures-revert_if Goal w2 _) λ _ w3 e3.
                Ensures-bind Any Goal _ _ _ w3 (Ensures-gets Goal w3 _) λ known w4 e4.
                  Ensures-bind Any Goal _ _ _ w4 (Ensures-revert_if Goal w4 _) λ _ w5 e5.
                    Ensures-bind Any Goal _ _ _ w5 (Ensures-gets Goal w5 _) λ code w6 e6.
                      Ensures-bind Any Goal _ _ _ w6 (Ensures-revert_if Goal w6 _) λ _ w7 e7.
                        let at3 : w3 ≡ w = e3.1 ∙ e2.1 ∙ e1.1 in
                        let at5 : w5 ≡ w = e5.1 ∙ e4.1 ∙ at3 in
                        let here : w7 ≡ w = e7.1 ∙ e6.1 ∙ at5 in
                        let found : a ≢ b = ground (arith, e2.0, bytes_eq_iff a b) in
                        created (found, fresh known (e5.0) (e4.0 ∙ ap known_in at3)) code w7
                          (e6.0 ∙ ap code_in at5) here)

  -- A createPair that returns was asked for two different tokens that had no pair. Where hashes do not
  -- collide and new contracts have addresses of twenty bytes, it has made a contract from the code that
  -- is set, and a call of the contract's `initialize` with the sorted tokens succeeded. It replies with
  -- the contract; getPair gives it for both orders of the tokens, and the list of pairs has one more
  -- entry than that call left it, counted modulo 2 ^ 256, which is the contract.
  pub create_pair-Created :
      {d : Bytes}
      → (create_pair host abi call_data w).0 ≡ returned d
      → (a ≢ b)
        × (get_pair_internal hash_keccak_256 (sort_tokens a b).0 (sort_tokens a b).1 w.storage
            ≡ zeros 20)
        × Created host
            (sort_tokens a b).0
            (sort_tokens a b).1
            d
            w
            (create_pair host abi call_data w).1
  create_pair-Created e =
      let (d, same, h) = Ensures-returned Any Goal _ create_pair-Ensures e in rw (← same) h
