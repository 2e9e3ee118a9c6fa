-- ===== src/Uniswap/Factory/Entered.antt =====
-- The registry of pairs after createPair has entered a pair.
use risc_v_rust.Base.{ℕ, ◌≡◌, ◌≢◌, ◌∙◌, sym, ap, arith, Bool-cases, inl, inr, take-append_length}
use risc_v_rust.Base.Bytes.{Bytes, bytes_eq, bytes_eq_refl, slice, be_from}
use risc_v_rust.Base.Word.{add256}
use risc_v_rust.Uniswap.Host.{Storage, set_storage_or_clear}
use risc_v_rust.Uniswap.Slots.{slot_key, storage_get_u256, storage_set_u256, mapping_key_2}
use risc_v_rust.Uniswap.Slots.Keys.{NoCollision, hash-ne-slot_key, mapping_key_2-ne-slot_key}
use risc_v_rust.Uniswap.Slots.Laws.{read-write_ne, storage_get_u256-storage_set_u256}
use risc_v_rust.Uniswap.Pair.State.Balances.{IsAddress}
use risc_v_rust.Uniswap.Factory.{
  address_bytes, slot_get_pair, slot_all_pairs, get_pair_internal, set_pair, all_pairs_length,
  all_pairs_push, array_slot, all_pairs_get,
}

write_here : (k v : Bytes) (st : Storage) → set_storage_or_clear k v st k ≡ v
unfolding set_storage_or_clear
write_here k v st = rw (bytes_eq_refl k)

-- A write of what is there already.
write_again : (k j v : Bytes) (st : Storage) → st j ≡ v → set_storage_or_clear k v st j ≡ v
unfolding set_storage_or_clear
write_again k j v st e = elim (Bool-cases (bytes_eq k j)) [ inl h ↦ rw h | inr h ↦ rw h e ]

-- The registry after a pair is entered: both orders and the end of the list give the pair, and the
-- list is longer by one.
pub record Entered (hash : Bytes → Bytes) (token0 token1 pair : Bytes) (length_before : ℕ)
    (st : Storage) : Type 0 where
  pub one_way : get_pair_internal hash token0 token1 st ≡ pair
  pub other_way : get_pair_internal hash token1 token0 st ≡ pair
  pub last : all_pairs_get hash length_before st ≡ pair
  pub longer : all_pairs_length st ≡ add256 length_before 1

module _ (hash : Bytes → Bytes) (ideal : NoCollision hash) (token0 token1 pair : Bytes)
    (address : IsAddress pair) (st : Storage) where
  abbrev value : Bytes
  value = address_bytes pair

  abbrev entered : Storage
  entered =
      all_pairs_push hash pair
        (set_pair hash token1 token0 pair (set_pair hash token0 token1 pair st))

  at_key :
      (j : Bytes)
      → j ≢ slot_key slot_all_pairs
      → set_storage_or_clear
          (array_slot hash slot_all_pairs (
            all_pairs_length
              (set_pair hash token1 token0 pair (set_pair hash token0 token1 pair st))))
          value
          (set_pair hash token1 token0 pair (set_pair hash token0 token1 pair st))
          j
        ≡ value
      → entered j ≡ value
  unfolding all_pairs_push storage_set_u256
  at_key j ne e = read-write_ne (slot_key slot_all_pairs) j _ _ (λ h. ne (sym h)) ∙ e

  read_back : (j : Bytes) (st' : Storage) → st' j ≡ value → slice 12 32 (st' j) ≡ pair
  read_back j st' e = rw e (take-append_length 20 pair _ address)

  set_pair-same :
      (a b : Bytes) (s : Storage) (j : Bytes) → s j ≡ value → set_pair hash a b pair s j ≡ value
  unfolding set_pair
  set_pair-same a b s j e = write_again _ j value s e

  set_pair-here :
      (a b : Bytes) (s : Storage)
      → set_pair hash a b pair s (mapping_key_2 hash slot_get_pair a b) ≡ value
  unfolding set_pair
  set_pair-here a b s = write_here _ value s

  length_kept :
      all_pairs_length (set_pair hash token1 token0 pair (set_pair hash token0 token1 pair st))
      ≡ all_pairs_length st
  unfolding all_pairs_length storage_get_u256 set_pair
  length_kept = ap (be_from 0) (
      read-write_ne _ _ value _
        (mapping_key_2-ne-slot_key hash ideal slot_get_pair token1 token0 slot_all_pairs)
      ∙ read-write_ne _ _ value st
          (mapping_key_2-ne-slot_key hash ideal slot_get_pair token0 token1 slot_all_pairs))

  array_slot-ne-slot_key : (i : ℕ) → array_slot hash slot_all_pairs i ≢ slot_key slot_all_pairs
  unfolding array_slot slot_key
  array_slot-ne-slot_key i e = hash-ne-slot_key hash ideal _ slot_all_pairs e

  pushed :
      all_pairs_length entered
      ≡ add256
          (all_pairs_length
            (set_pair hash token1 token0 pair (set_pair hash token0 token1 pair st)))
          1
  unfolding all_pairs_length all_pairs_push
  pushed =
      storage_get_u256-storage_set_u256 slot_all_pairs slot_all_pairs _ _ (omega arith)
        (omega arith)
      ∙ omega arith

  pub entered-Entered : Entered hash token0 token1 pair (all_pairs_length st) entered
  unfolding get_pair_internal all_pairs_get
  entered-Entered = record {
    one_way = read_back _ entered (
        at_key _ (mapping_key_2-ne-slot_key hash ideal slot_get_pair token0 token1 slot_all_pairs) (
          write_again _ _ value _
            (set_pair-same token1 token0 _ _ (set_pair-here token0 token1 st))));
    other_way = read_back _ entered (
        at_key _ (mapping_key_2-ne-slot_key hash ideal slot_get_pair token1 token0 slot_all_pairs)
          (write_again _ _ value _ (set_pair-here token1 token0 _)));
    last =
        read_back _ entered
          (at_key _ (array_slot-ne-slot_key _) (rw length_kept (write_here _ value _)));
    longer = pushed ∙ ap (λ n. add256 n 1) length_kept;
  }
