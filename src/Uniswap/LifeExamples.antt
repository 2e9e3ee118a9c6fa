-- ===== src/Uniswap/LifeExamples.antt =====
-- The theorems about the life of a pair, at concrete inputs.
use risc_v_rust.Base.{◌%◌, ◌^◌, ◌*◌, ◌+◌, ◌≡◌, refl, [], ◌∷◌, arith}
use risc_v_rust.Base.Bytes.{Bytes, bytes_eq, be_from, to_be_bytes, zeros}
use risc_v_rust.Uniswap.Host.{World, returned, set_storage_or_clear, ◌>>=◌}
use risc_v_rust.Uniswap.Slots.{slot_key, storage_get_u256, storage_set_u256}
use risc_v_rust.Uniswap.Pair.State.{get_reserves, set_reserves, slot_unlocked}
use risc_v_rust.Uniswap.Pair.Calls.{deploy}
use risc_v_rust.Uniswap.Pair.Calls.Ensures.{locked_world}
use risc_v_rust.Uniswap.Pair.Trade.{sync}
use risc_v_rust.Uniswap.Host.Keeps.{CalleesKeep}
use risc_v_rust.Uniswap.Pair.Token.{approve}
use risc_v_rust.Uniswap.Pair.Dispatch.{call, call_selected, call_mutating}
use risc_v_rust.Uniswap.Pair.Lock.{lock}
use risc_v_rust.Uniswap.Pair.Identity.{Identity}
use risc_v_rust.Uniswap.Pair.Life.{Reach, deployed, called}
use risc_v_rust.Uniswap.Pair.Life.Free.{Reach-IsFree}
use risc_v_rust.Uniswap.Pair.Life.Fixed.{here, called_next, Calls-Identity}
use risc_v_rust.Uniswap.Pair.Life.Live.{sync-returns}
use risc_v_rust.Uniswap.Sample.{
  hash, hash-NoCollision, host, decoders, selectors, unlocked, locked, tokens,
}

sync-returns_example :
    let st = (locked_world unlocked).storage in
    let done = storage_set_u256 slot_unlocked 1 (set_reserves 70000 70000 (get_reserves st).2 st) in
    (sync (decoders 0) host unlocked ≡ (returned [], record unlocked { storage = done }))
    × (get_reserves done
        ≡ (70000 % 2 ^ 112, 70000 % 2 ^ 16 * 2 ^ 112 + 70000, (get_reserves (unlocked.storage)).2))
unfolding storage_get_u256 be_from bytes_eq slot_key to_be_bytes
sync-returns_example =
    sync-returns (decoders 0) host tokens unlocked 70000 70000 refl refl refl (omega arith)
      (omega arith)

-- A pair after its deployment, and after a call of approve.
abbrev fresh : World (Unit {0})
fresh = (deploy host locked).1

abbrev approving : Bytes
approving = 0 ∷ 0 ∷ 0 ∷ 18 ∷ []

abbrev approved : World (Unit {0})
approved = (call selectors (decoders 5) host approving fresh).1

call_approves :
    (w : World (Unit {0}))
    → (call selectors (decoders 5) host approving w).0 ≡ returned (to_be_bytes 32 1)
unfolding call call_selected call_mutating approve ◌>>=◌ bytes_eq
call_approves w = refl

approved-Reach : Reach selectors (decoders 5) hash approved
unfolding deploy ◌>>=◌
approved-Reach =
    called host approving (to_be_bytes 32 1) approved (deployed host locked fresh refl refl) refl
      (λ i. (call_approves fresh i, approved))

Reach-IsFree_example : lock approved ≡ 1
Reach-IsFree_example =
    Reach-IsFree selectors (decoders 5) hash hash-NoCollision approved approved-Reach

-- A pair of two tokens.
abbrev paired : World (Unit {0})
paired = record {
  storage = storage_set_u256 2 22 (storage_set_u256 1 11 (storage_set_u256 0 10 (λ _. zeros 32)));
  rest = tt;
}

abbrev paired_later : World (Unit {0})
paired_later = (call selectors (decoders 5) host approving paired).1

host-CalleesKeep : CalleesKeep (Identity 10 11 22) host
host-CalleesKeep = record {
  call_evm = λ a b c w h. h;
  call = λ a b w h. h;
  instantiate = λ a w h. h;
}

paired-Identity : Identity 10 11 22 (paired.storage)
unfolding storage_get_u256 storage_set_u256 set_storage_or_clear slot_key bytes_eq be_from
    to_be_bytes
paired-Identity = (refl, refl, refl)

Calls-Identity_example : Identity 10 11 22 (paired_later.storage)
Calls-Identity_example =
    Calls-Identity selectors (decoders 5) hash hash-NoCollision 10 11 22 (omega arith) paired
      paired_later
      (called_next {v = paired} host approving (to_be_bytes 32 1) paired_later here refl
        host-CalleesKeep (λ i. (call_approves paired i, paired_later)))
      paired-Identity
