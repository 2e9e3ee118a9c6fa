-- ===== src/Uniswap/Chain.antt =====
-- The factory and its pairs on one chain: what the factory sets up when it creates a pair.
pub mod Initialized
use risc_v_rust.Base.{
  ℕ, ◌+◌, ◌%◌, ◌^◌, ◌≤◌, ◌<◌, ◌≡◌, ◌∙◌, refl, sym, ap, subst, Bool, true, false, not, none, some,
  Option, [], ◌∷◌, arith, length, take, ◌==◌, if◌then◌else◌,
}
use risc_v_rust.Base.Bytes.{Bytes, be_from, copy_from_slice, zeros, codes}
use risc_v_rust.Uniswap.Host.{
  Storage, World, Host, Exit, next, returned, gets, modify, revert_if, external, return_value,
  ◌>>=◌, ◌>>◌,
}
use risc_v_rust.Uniswap.Host.Ensures.{
  bind-next, Ensures, Ensures-bind, Ensures-goes, Ensures-returned, Ensures-unwrap_or_revert,
}
use risc_v_rust.Uniswap.Host.Goes.{goes_on}
use risc_v_rust.Uniswap.Slots.{storage_get_u256, storage_set_u256}
use risc_v_rust.Uniswap.Slots.Laws.{storage_get_u256-storage_set_u256}
use risc_v_rust.Uniswap.Pair.Abi.{Selectors, Decoders}
use risc_v_rust.Uniswap.Pair.State.{
  slot_factory, slot_token0, slot_token1, slot_unlocked, address_word,
}
use risc_v_rust.Uniswap.Pair.Calls.{deploy, require_unlocked, set_unlocked, is_err}
use risc_v_rust.Uniswap.Pair.Calls.Ensures.{locked_world}
use risc_v_rust.Uniswap.Pair.Lock.{lock}
use risc_v_rust.Uniswap.Pair.Identity.{Identity}
use risc_v_rust.Uniswap.Pair.Liquidity.{initialize}
use risc_v_rust.Uniswap.Pair.Dispatch.{call}
use risc_v_rust.Uniswap.Pair.Dispatch.Reaches.{Entry, selector_of, run, call-run}
use risc_v_rust.Uniswap.Pair.Life.Live.{require_unlocked-next, passes, decodes, gets-next}
use risc_v_rust.Uniswap.Pair.Life.Burn.{modify-next}
use risc_v_rust.Uniswap.Factory.{
  FactoryDecoders, address_bytes, sort_tokens, encode_initialize, create_pair,
}
use risc_v_rust.Uniswap.Chain.Initialized.{Agrees, SetUp, encode_initialize-SetUp}
use risc_v_rust.Uniswap.Factory.Created.{Ensures-revert_if, Ensures-external, answered}

-- What a chain does for a factory that has the pair's code: a contract that it creates is a pair whose constructor has run on
-- no storage, and a call that succeeds is one of the pair's entry point that returned, both with the factory as the caller.
pub record RunsPairs {E : Type 0} (F : Type 0) (host : Host E) (sel : Selectors) (abi : Decoders)
    : Type 0 where
  pub pair_host : Bytes → Host F
  pub world_of : Bytes → E → World F
  pub calls : (p : Bytes) → (pair_host p).caller ≡ host.address
  pub created :
      (code p : Bytes) (w w' : World E)
      → host.instantiate code w ≡ (some p, w')
      → (rest : F) × ((world_of p w'.rest).storage
          ≡ (deploy (pair_host p) (record { storage = λ _. zeros 32; rest = rest })).1.storage)
  pub called :
      (p input out : Bytes) (w w' : World E)
      → host.call p input w ≡ (some out, w')
      → call sel abi (pair_host p) input (world_of p w.rest) ≡ (returned out, world_of p w'.rest)

module _ {E F : Type 0} (sel : Selectors) (pair_abi : Decoders) (abi : FactoryDecoders)
    (host : Host E) (chain : RunsPairs F host sel pair_abi) (w : World E) (call_data a b : Bytes)
    (agrees : Agrees host.hash_keccak_256 sel pair_abi (sort_tokens a b).0 (sort_tokens a b).1)
    (decoded : abi.create_pair call_data ≡ some (a, b)) where
  abbrev Goal : Bytes → World E → Type 0
  Goal d w' =
      (pair : Bytes) × (d ≡ address_bytes pair)
      × SetUp host.address (sort_tokens a b).0 (sort_tokens a b).1 (chain.world_of pair w'.rest)

  abbrev Any : Unit {0} → World E → Type 0
  Any _ _ = Unit {0}

  -- The writes of the registry leave the rest of the chain alone.
  Ensures-registered :
      (f g h : Storage → Storage) (d : Bytes) (v : World E)
      → Goal d v
      → Ensures Any Goal ((modify f >> (modify g >> (modify h >> return_value {A = Unit {0}} d))) v)
  unfolding ◌>>=◌
  Ensures-registered f g h d v e = record { holds = e }

  created-SetUp :
      (code p out : Bytes) (v v' v'' : World E)
      → host.instantiate code v ≡ (some p, v')
      → host.call p
          (encode_initialize host.hash_keccak_256 (sort_tokens a b).0 (sort_tokens a b).1)
          v'
        ≡ (some out, v'')
      → SetUp host.address (sort_tokens a b).0 (sort_tokens a b).1 (chain.world_of p v''.rest)
  unfolding deploy ◌>>=◌
  created-SetUp code p out v v' v'' e f =
      let (rest, built) = chain.created code p v v' e in
      subst (λ c. SetUp c (sort_tokens a b).0 (sort_tokens a b).1 (chain.world_of p v''.rest))
        (chain.calls p)
        (encode_initialize-SetUp sel pair_abi (chain.pair_host p) host.hash_keccak_256 _ _ agrees
          out _ _ built (chain.called p _ out v' v'' f))

  create_pair-Ensures : Ensures Any Goal (create_pair host abi call_data w)
  unfolding create_pair
  create_pair-Ensures =
      Ensures-bind Any Goal _ _ _ w (Ensures-unwrap_or_revert Goal w (abi.create_pair call_data))
        λ c w1 e1.
          let same : c ≡ (a, b) = cc (e1.0) in
          rw same (
            Ensures-goes Any Goal _ _ w1 (search goes_on) λ _ w2.
              Ensures-goes Any Goal _ _ w2 (search goes_on) λ _ w3.
                Ensures-goes Any Goal _ _ w3 (search goes_on) λ known w4.
                  Ensures-goes Any Goal _ _ w4 (search goes_on) λ _ w5.
                    Ensures-goes Any Goal _ _ w5 (search goes_on) λ code w6.
                      Ensures-goes Any Goal _ _ w6 (search goes_on) λ _ w7.
                        Ensures-bind Any Goal _ _ _ w7
                          (Ensures-external Goal w7 (host.instantiate code))
                          λ o w8 e8.
                            Ensures-bind Any Goal _ _ _ w8 (Ensures-unwrap_or_revert Goal w8 o)
                              λ p w9 e9.
                                Ensures-bind Any Goal _ _ _ w9
                                  (Ensures-external Goal w9 (host.call p _))
                                  λ o2 w10 e10.
                                    Ensures-bind Any Goal _ _ _ w10
                                      (Ensures-revert_if Goal w10 (is_err o2))
                                      λ _ w11 e11.
                                        let (out, found) = answered o2 (e11.0) in
                                        let up =
                                          created-SetUp code p out w7 w9 w10
                                            (e8
                                              ∙ ap (λ r. (r, w8)) (e9.0)
                                              ∙ ap (λ v. (some p, v)) (sym (e9.1)))
                                            (e10 ∙ ap (λ r. (r, w10)) found) in
                                        Ensures-registered _ _ _ _ w11 (p, refl, rw (e11.1) up))

  -- Where the chain runs the pair's constructor and entry point, and alloy reads what the factory encodes: a createPair
  -- that returns replies with a pair that is set up. The pair is unlocked, and knows the factory and the two tokens in
  -- order.
  pub create_pair-SetUp :
      {d : Bytes}
      → (create_pair host abi call_data w).0 ≡ returned d
      → (pair : Bytes) × (d ≡ address_bytes pair)
        × SetUp host.address
            (sort_tokens a b).0
            (sort_tokens a b).1
            (chain.world_of pair (create_pair host abi call_data w).1.rest)
  create_pair-SetUp e =
      let (d, same, h) = Ensures-returned Any Goal _ create_pair-Ensures e in rw (← same) h
