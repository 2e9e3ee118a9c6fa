-- ===== src/Uniswap/ChainExamples.antt =====
-- A chain of the factory and one pair, on which the theorem about both is applied.
use risc_v_rust.Base.{
  ◌≡◌, refl, sym, ap, ◌∙◌, Option, none, some, [], arith, length-append, replicate, if◌then◌else◌,
}
use risc_v_rust.Base.Bytes.{Bytes, bytes_eq, bytes_lt, zeros, slice, be_from, to_be_bytes}
use risc_v_rust.Uniswap.Host.{
  Host, World, Exit, next, returned, reverted, trapped, returned, set_storage_or_clear, ◌>>=◌,
}
use risc_v_rust.Uniswap.Pair.Liquidity.{initialize}
use risc_v_rust.Uniswap.Slots.{storage_get_u256, storage_set_u256, slot_key, mapping_key_2}
use risc_v_rust.Uniswap.Pair.Abi.{Decoders}
use risc_v_rust.Uniswap.Pair.Calls
use risc_v_rust.Uniswap.Pair.Dispatch
use risc_v_rust.Uniswap.Pair.Dispatch.{call_selected, call_mutating}
use risc_v_rust.Uniswap.Factory.{
  FactoryDecoders, address_bytes, sort_tokens, get_pair_internal, encode_initialize, create_pair,
}
use risc_v_rust.Uniswap.Chain.{RunsPairs, create_pair-SetUp}
use risc_v_rust.Uniswap.Chain.Initialized.{Agrees, SetUp}
use risc_v_rust.Uniswap.Sample
use risc_v_rust.Uniswap.Sample.{hash, hash-NoCollision, selectors, alice, bob}
use risc_v_rust.Uniswap.Distinct.{distinct}

abbrev pair_address : Bytes
pair_address = replicate 20 0xee

-- The decoder reads the two addresses where the factory writes them.
abbrev pair_decoders : Decoders
pair_decoders = record (Sample.decoders 0) {
  initialize = λ input. some (slice 16 36 input, slice 48 68 input);
}

abbrev pair_host : Host (Unit {0})
pair_host = Sample.host

abbrev Pair : Type 0
Pair = World (Unit {0})

-- What the factory sees of a call of the pair.
unfoldable answer : Exit (Unit {0}) × Pair → Option Bytes × Pair
answer (next a, v) = (none, v)
answer (returned out, v) = (some out, v)
answer (reverted, v) = (none, v)
answer (trapped, v) = (none, v)

unfoldable on_pair : (Pair → Option Bytes × Pair) → World Pair → Option Bytes × World Pair
on_pair f w = let (out, v) = f w.rest in (out, record w { rest = v })

abbrev host : Host Pair
host = record {
  hash_keccak_256 = hash;
  caller = alice;
  address = alice;
  now = λ _. zeros 32;
  call_evm = λ token input output w. (none, w);
  call = λ callee input.
      on_pair (λ v. answer (Dispatch.call selectors pair_decoders pair_host input v));
  instantiate = λ code w. (
    some pair_address,
    record w { rest = (Calls.deploy pair_host (record { storage = λ _. zeros 32; rest = tt })).1 },
  );
}

answer-returned :
    (e : Exit (Unit {0}) × Pair) (out : Bytes)
    → (answer e).0 ≡ some out
    → e ≡ (returned out, (answer e).1)
unfolding answer
answer-returned (next a, v) out e = cc
answer-returned (returned d, v) out e = let same : d ≡ out = cc in ap (λ x. (returned x, v)) same
answer-returned (reverted, v) out e = cc
answer-returned (trapped, v) out e = cc

chain : RunsPairs (Unit {0}) host selectors pair_decoders
unfolding on_pair
chain = record {
  pair_host = λ p. pair_host;
  world_of = λ p v. v;
  calls = λ p. refl;
  created = λ code p w w' e. (tt, ap (λ r. r.1.rest.storage) (sym e));
  called = λ p input out w w' e.
      answer-returned (Dispatch.call selectors pair_decoders pair_host input w.rest) out
        (ap (λ r. r.0) e)
      ∙ ap (λ r. (returned out, r.1.rest)) e;
}

abbrev decoders : FactoryDecoders
decoders = record {
  get_pair = λ _. some (bob, alice);
  all_pairs = λ _. some 0;
  create_pair = λ _. some (bob, alice);
  set_fee_to = λ _. some bob;
  set_fee_to_setter = λ _. some bob;
}

-- Slot 4, the code of the pair, is set.
abbrev coded : World Pair
coded = record {
  storage = λ key. if bytes_eq key (slot_key 4) then replicate 32 7 else zeros 32;
  rest = record { storage = λ _. zeros 32; rest = tt };
}

agrees : Agrees hash selectors pair_decoders alice bob
unfolding encode_initialize
agrees = record {
  long = λ x. rw (length-append (replicate 32 1) x) (omega arith);
  selector = refl;
  distinct = distinct;
  decoded = refl;
}

creates : (create_pair host decoders [] coded).0 ≡ returned (address_bytes pair_address)
unfolding sort_tokens create_pair bytes_lt ◌>>=◌ bytes_eq get_pair_internal mapping_key_2 slot_key
    to_be_bytes on_pair answer Dispatch.call encode_initialize call_selected call_mutating
    initialize Calls.require_unlocked storage_get_u256 be_from storage_set_u256 set_storage_or_clear
    Calls.set_unlocked Calls.unlock_and_revert_if Calls.deploy
creates = refl

create_pair-SetUp_example :
    (pair : Bytes) × (address_bytes pair_address ≡ address_bytes pair)
    × SetUp alice alice bob (create_pair host decoders [] coded).1.rest
unfolding sort_tokens bytes_lt chain
create_pair-SetUp_example =
    create_pair-SetUp selectors pair_decoders decoders host chain coded [] bob alice agrees refl
      creates
