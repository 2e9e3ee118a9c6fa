-- ===== src/Uniswap/Pair/State/Balances.antt =====
-- The pair's storage as independent variables: each read after each write.
use risc_v_rust.Base.{ℕ, ◌%◌, ◌^◌, ◌≡◌, sym, ◌&&◌, arith, length, if◌then◌else◌}
use risc_v_rust.Base.Bytes.{Bytes, bytes_eq, bytes_eq_iff, to_be_bytes}
use risc_v_rust.Uniswap.Host.{Storage}
use risc_v_rust.Uniswap.Slots.{storage_get_u256, storage_set_u256, mapping_key_1, mapping_key_2}
use risc_v_rust.Uniswap.Slots.Keys.{
  NoCollision, mapping_key_1-injective, mapping_key_2-injective, mapping_key_1-ne-mapping_key_2,
  mapping_key_1-ne-slot_key, mapping_key_2-ne-slot_key,
}
use risc_v_rust.Uniswap.Slots.Laws.{read-write, read-write_ne}
use risc_v_rust.Uniswap.Pair.State.{
  slot_balance_of, slot_allowance, get_balance, set_balance, get_allowance, set_allowance,
}

abbrev pub IsAddress : Bytes → Type 0
IsAddress a = length a ≡ 20

module _ (hash : Bytes → Bytes) (ideal : NoCollision hash) where
  -- A balance and a slot do not overlap.
  pub slot-set_balance :
      (i : ℕ) (a : Bytes) (v : ℕ) (st : Storage)
      → storage_get_u256 i (set_balance hash a v st) ≡ storage_get_u256 i st
  unfolding storage_get_u256 set_balance
  slot-set_balance i a v st = rw (
      read-write_ne _ _ (to_be_bytes 32 v) st
        (mapping_key_1-ne-slot_key hash ideal slot_balance_of a i))

  pub slot-set_allowance :
      (i : ℕ) (a b : Bytes) (v : ℕ) (st : Storage)
      → storage_get_u256 i (set_allowance hash a b v st) ≡ storage_get_u256 i st
  unfolding storage_get_u256 set_allowance
  slot-set_allowance i a b v st = rw (
      read-write_ne _ _ (to_be_bytes 32 v) st
        (mapping_key_2-ne-slot_key hash ideal slot_allowance a b i))

  pub get_balance-set_slot :
      (i : ℕ) (a : Bytes) (v : ℕ) (st : Storage)
      → get_balance hash a (storage_set_u256 i v st) ≡ get_balance hash a st
  unfolding get_balance storage_set_u256
  get_balance-set_slot i a v st = rw (
      read-write_ne _ _ (to_be_bytes 32 v) st
        λ e. mapping_key_1-ne-slot_key hash ideal slot_balance_of a i (sym e))

  pub get_allowance-set_slot :
      (i : ℕ) (a b : Bytes) (v : ℕ) (st : Storage)
      → get_allowance hash a b (storage_set_u256 i v st) ≡ get_allowance hash a b st
  unfolding get_allowance storage_set_u256
  get_allowance-set_slot i a b v st = rw (
      read-write_ne _ _ (to_be_bytes 32 v) st
        λ e. mapping_key_2-ne-slot_key hash ideal slot_allowance a b i (sym e))

  module _ (a b : Bytes) (ha : IsAddress a) (hb : IsAddress b) where
    -- Each account has a balance of its own.
    pub get_balance-set_balance :
        (v : ℕ) (st : Storage)
        → get_balance hash a (set_balance hash b v st)
          ≡ (if bytes_eq b a then v % 2 ^ 256 else get_balance hash a st)
    unfolding get_balance set_balance
    get_balance-set_balance v st =
        let kb = mapping_key_1 hash slot_balance_of b in
        let ka = mapping_key_1 hash slot_balance_of a in
        rw (read-write kb ka v st) (
          ground (
            arith,
            bytes_eq_iff kb ka,
            bytes_eq_iff b a,
            mapping_key_1-injective hash ideal slot_balance_of b a hb ha,
          ))

    pub get_balance-set_allowance :
        (c : Bytes) (v : ℕ) (st : Storage)
        → get_balance hash a (set_allowance hash b c v st) ≡ get_balance hash a st
    unfolding get_balance set_allowance
    get_balance-set_allowance c v st = rw (
        read-write_ne _ _ (to_be_bytes 32 v) st λ e.
          mapping_key_1-ne-mapping_key_2 hash ideal slot_balance_of slot_allowance a b c ha hb
            (sym e))

    pub get_allowance-set_balance :
        (c : Bytes) (v : ℕ) (st : Storage)
        → get_allowance hash b c (set_balance hash a v st) ≡ get_allowance hash b c st
    unfolding get_allowance set_balance
    get_allowance-set_balance c v st = rw (
        read-write_ne _ _ (to_be_bytes 32 v) st
          (mapping_key_1-ne-mapping_key_2 hash ideal slot_balance_of slot_allowance a b c ha hb))

  pub get_allowance-set_allowance :
      (a b c d : Bytes) (v : ℕ) (st : Storage)
      → IsAddress a
      → IsAddress b
      → IsAddress c
      → IsAddress d
      → get_allowance hash a b (set_allowance hash c d v st)
        ≡ (if bytes_eq c a && bytes_eq d b then v % 2 ^ 256 else get_allowance hash a b st)
  unfolding get_allowance set_allowance
  get_allowance-set_allowance a b c d v st ha hb hc hd =
      let kc = mapping_key_2 hash slot_allowance c d in
      let ka = mapping_key_2 hash slot_allowance a b in
      rw (read-write kc ka v st) (
        ground (
          arith,
          bytes_eq_iff kc ka,
          bytes_eq_iff c a,
          bytes_eq_iff d b,
          mapping_key_2-injective hash ideal slot_allowance c d a b hc hd ha hb,
        ))
