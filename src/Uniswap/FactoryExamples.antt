-- ===== src/Uniswap/FactoryExamples.antt =====
-- A factory that knows no pair, on which the theorems about the factory are applied.
use risc_v_rust.Base.{◌≡◌, ◌≢◌, inr, refl, none, some, [], ◌∷◌, length, replicate, if◌then◌else◌}
use risc_v_rust.Base.Bytes.{Bytes, bytes_eq, bytes_lt, be_from, to_be_bytes, zeros}
use risc_v_rust.Uniswap.Host.{
  Host, World, returned, reverted, ◌>>=◌, external, gets, modify, pure, return_value, revert,
  revert_if, unwrap_or_revert,
}
use risc_v_rust.Uniswap.Slots.{slot_key, mapping_key_2, storage_get_u256}
use risc_v_rust.Uniswap.Sample.{hash, hash-NoCollision}
use risc_v_rust.Uniswap.Factory.{
  FactoryDecoders, address_bytes, sort_tokens, get_setter, get_pair_internal, return_pair,
  create_pair, set_fee_to, set_fee_to_setter,
}
use risc_v_rust.Uniswap.Factory.Registry.{return_pair_comm, outsider-reverts, create_pair_refused}
use risc_v_rust.Uniswap.Factory.Created.{Created, create_pair-Created}

abbrev silver : Bytes
silver = replicate 20 0xa1

abbrev gold : Bytes
gold = replicate 20 0xb0

abbrev new_pair : Bytes
new_pair = replicate 20 0xee

abbrev host : Host (Unit {0})
host = record {
  hash_keccak_256 = hash;
  caller = silver;
  address = replicate 20 0xcc;
  now = λ _. zeros 32;
  call_evm = λ token input output w. (none, w);
  call = λ callee input w. (some [], w);
  instantiate = λ input w. (some new_pair, w);
}

-- The input `[]` asks for gold and silver, any other for silver and gold.
abbrev decoders : FactoryDecoders
decoders = record {
  get_pair = λ c. if bytes_eq c [] then some (gold, silver) else some (silver, gold);
  all_pairs = λ _. some 0;
  create_pair = λ _. some (gold, silver);
  set_fee_to = λ _. some gold;
  set_fee_to_setter = λ _. some gold;
}

-- Slot 4, the code of the pair, is set, and everything else is zero.
abbrev coded : World (Unit {0})
coded = record {
  storage = λ key. if bytes_eq key (slot_key 4) then replicate 32 7 else zeros 32;
  rest = tt;
}

abbrev blank : World (Unit {0})
blank = record { storage = λ _. zeros 32; rest = tt }

instantiate-sized :
    (code : Bytes) (w : World (Unit {0})) (a : Bytes)
    → (host.instantiate code w).0 ≡ some a
    → length a ≡ 20
instantiate-sized code w a e = let same : new_pair ≡ a = cc in rw (← same)

creates : (create_pair host decoders [] coded).0 ≡ returned (address_bytes new_pair)
unfolding create_pair ◌>>=◌ external gets modify pure return_value revert revert_if unwrap_or_revert
    sort_tokens bytes_lt get_pair_internal mapping_key_2 bytes_eq slot_key to_be_bytes
creates = refl

create_pair-Created_example :
    (gold ≢ silver)
    × (get_pair_internal hash
          (sort_tokens gold silver).0
          (sort_tokens gold silver).1
          (coded.storage)
        ≡ zeros 20)
    × Created host
        (sort_tokens gold silver).0
        (sort_tokens gold silver).1
        (address_bytes new_pair)
        coded
        (create_pair host decoders [] coded).1
create_pair-Created_example =
    create_pair-Created host decoders hash-NoCollision instantiate-sized coded [] gold silver refl
      creates

create_pair_refused_example : create_pair host decoders [] blank ≡ (reverted, blank)
create_pair_refused_example =
    create_pair_refused host decoders blank [] gold silver refl refl refl
      (inr (inr (inr (inr (inr refl)))))

outsider-reverts_example :
    (set_fee_to host decoders [] blank ≡ (reverted, blank))
    × (set_fee_to_setter host decoders [] blank ≡ (reverted, blank))
unfolding get_setter storage_get_u256 be_from to_be_bytes
outsider-reverts_example = outsider-reverts host decoders blank [] (λ e. cc)

return_pair_comm_example :
    return_pair host decoders [] coded ≡ return_pair host decoders (1 ∷ []) coded
unfolding bytes_eq
return_pair_comm_example =
    return_pair_comm host decoders coded [] (1 ∷ []) gold silver refl refl refl
