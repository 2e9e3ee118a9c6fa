-- ===== src/Uniswap/Factory.antt =====
-- uniswap-rust/src/factory.rs: the registry of pairs and who may set the fee.
pub mod Reaches
pub mod Registry
pub mod Entered
pub mod Created
use risc_v_rust.Base.{ℕ, ◌+◌, ◌^◌, Bool, Option, [], ◌∷◌, length, take, ltb, not, if◌then◌else◌}
use risc_v_rust.Base.Bytes.{
  Bytes, bytes_eq, bytes_lt, zeros, slice, copy_from_slice, to_be_bytes, codes,
}
use risc_v_rust.Base.Word.{add256}
use risc_v_rust.Uniswap.Host.{
  Storage, M, Host, get_storage_or_zero, set_storage_or_clear, pure, gets, modify, revert,
  revert_if, return_value, unwrap_or_revert, external, ◌>>=◌, ◌>>◌,
}
use risc_v_rust.Uniswap.Slots.{slot_key, storage_get_u256, storage_set_u256, mapping_key_2}
use risc_v_rust.Uniswap.Pair.State.{address_word}
use risc_v_rust.Uniswap.Pair.Calls.{is_err, return_u256}

abbrev pub slot_fee_to : ℕ
slot_fee_to = 0

abbrev pub slot_fee_to_setter : ℕ
slot_fee_to_setter = 1

abbrev pub slot_get_pair : ℕ
slot_get_pair = 2

abbrev pub slot_all_pairs : ℕ
slot_all_pairs = 3

abbrev pub slot_pair_code_hash : ℕ
slot_pair_code_hash = 4

-- What `sol!("IUniswapV2Factory.sol")` generates.
pub record FactorySelectors : Type 0 where
  pub fee_to : Bytes
  pub fee_to_setter : Bytes
  pub get_pair : Bytes
  pub all_pairs : Bytes
  pub all_pairs_length : Bytes
  pub create_pair : Bytes
  pub set_fee_to : Bytes
  pub set_fee_to_setter : Bytes

pub record FactoryDecoders : Type 0 where
  pub get_pair : Bytes → Option (Bytes × Bytes)
  pub all_pairs : Bytes → Option ℕ
  pub create_pair : Bytes → Option (Bytes × Bytes)
  pub set_fee_to : Bytes → Option Bytes
  pub set_fee_to_setter : Bytes → Option Bytes

-- An address at the right end of 32 bytes, and back.
abbrev pub address_bytes : Bytes → Bytes
address_bytes a = copy_from_slice (zeros 32) 12 a

abbrev pub return_address : {E : Type 0} → Bytes → M E (Unit {0})
return_address a = return_value (address_bytes a)

unfoldable pub sort_tokens : Bytes → Bytes → Bytes × Bytes
sort_tokens a b = if bytes_lt a b then (a, b) else (b, a)

unfoldable pub get_setter : Storage → Bytes
get_setter st = slice 12 32 (to_be_bytes 32 (storage_get_u256 slot_fee_to_setter st))

unfoldable pub all_pairs_length : Storage → ℕ
all_pairs_length st = storage_get_u256 slot_all_pairs st

module _ (hash : Bytes → Bytes) where
  unfoldable pub get_pair_internal : Bytes → Bytes → Storage → Bytes
  get_pair_internal token0 token1 st =
      slice 12 32 (get_storage_or_zero (mapping_key_2 hash slot_get_pair token0 token1) st)

  unfoldable pub set_pair : Bytes → Bytes → Bytes → Storage → Storage
  set_pair token0 token1 pair =
      set_storage_or_clear (mapping_key_2 hash slot_get_pair token0 token1) (address_bytes pair)

  unfoldable pub array_slot : ℕ → ℕ → Bytes
  array_slot base index =
      let base_bytes = copy_from_slice (zeros 32) 28 (to_be_bytes 4 base) in
      hash (copy_from_slice (copy_from_slice (zeros 64) 0 base_bytes) 32 (to_be_bytes 32 index))

  unfoldable pub all_pairs_get : ℕ → Storage → Bytes
  all_pairs_get index st = slice 12 32 (get_storage_or_zero (array_slot slot_all_pairs index) st)

  unfoldable pub all_pairs_push : Bytes → Storage → Storage
  all_pairs_push pair st =
      let len = all_pairs_length st in
      storage_set_u256 slot_all_pairs (add256 len 1)
        (set_storage_or_clear (array_slot slot_all_pairs len) (address_bytes pair) st)

  unfoldable pub encode_initialize : Bytes → Bytes → Bytes
  encode_initialize token0 token1 =
      let selector = take 4 (hash (codes "initialize(address,address)")) in
      copy_from_slice (copy_from_slice (copy_from_slice (zeros 68) 0 selector) 16 token0) 48 token1

module _ {E : Type 0} (host : Host E) where
  open host use {hash_keccak_256, caller}

  -- The constructor: too short an input leaves the factory as it is.
  unfoldable pub deploy : Bytes → M E (Unit {0})
  deploy call_data = if ltb (length call_data) 64 then pure tt else (do
    modify (storage_set_u256 slot_fee_to_setter (address_word (slice 12 32 call_data)))
    modify (set_storage_or_clear (slot_key slot_pair_code_hash) (slice 32 64 call_data)))

  module _ (abi : FactoryDecoders) where
    unfoldable pub return_pair : Bytes → M E (Unit {0})
    return_pair call_data = do
      decoded ← unwrap_or_revert (abi.get_pair call_data)
      let sorted = sort_tokens decoded.0 decoded.1
      pair ← gets (get_pair_internal hash_keccak_256 sorted.0 sorted.1)
      return_address pair

    unfoldable pub return_all_pairs : Bytes → M E (Unit {0})
    return_all_pairs call_data = do
      index ← unwrap_or_revert (abi.all_pairs call_data)
      pair ← gets (all_pairs_get hash_keccak_256 index)
      return_address pair

    unfoldable pub create_pair : Bytes → M E (Unit {0})
    create_pair call_data = do
      decoded ← unwrap_or_revert (abi.create_pair call_data)
      let token_a = decoded.0
      let token_b = decoded.1
      revert_if (bytes_eq token_a token_b)
      let sorted = sort_tokens token_a token_b
      let token0 = sorted.0
      let token1 = sorted.1
      revert_if (bytes_eq token0 (zeros 20))
      known ← gets (get_pair_internal hash_keccak_256 token0 token1)
      revert_if (not (bytes_eq known (zeros 20)))
      code_hash ← gets (get_storage_or_zero (slot_key slot_pair_code_hash))
      revert_if (bytes_eq code_hash (zeros 32))
      created ← external (host.instantiate code_hash)
      pair_addr ← unwrap_or_revert created
      call_res ← external (host.call pair_addr (encode_initialize hash_keccak_256 token0 token1))
      revert_if (is_err call_res)
      modify (set_pair hash_keccak_256 token0 token1 pair_addr)
      modify (set_pair hash_keccak_256 token1 token0 pair_addr)
      modify (all_pairs_push hash_keccak_256 pair_addr)
      return_address pair_addr

    unfoldable pub set_fee_to : Bytes → M E (Unit {0})
    set_fee_to call_data = do
      setter ← gets get_setter
      revert_if (not (bytes_eq caller setter))
      new_fee_to ← unwrap_or_revert (abi.set_fee_to call_data)
      modify (storage_set_u256 slot_fee_to (address_word new_fee_to))
      return_value []

    unfoldable pub set_fee_to_setter : Bytes → M E (Unit {0})
    set_fee_to_setter call_data = do
      setter ← gets get_setter
      revert_if (not (bytes_eq caller setter))
      new_setter ← unwrap_or_revert (abi.set_fee_to_setter call_data)
      modify (storage_set_u256 slot_fee_to_setter (address_word new_setter))
      return_value []

    module _ (sel : FactorySelectors) where
      unfoldable pub call_selected : Bytes → Bytes → M E (Unit {0})
      call_selected selector call_data =
          if bytes_eq selector sel.fee_to
          then (do return_u256 (← gets (storage_get_u256 slot_fee_to)))
          else if bytes_eq selector sel.fee_to_setter
          then (do return_u256 (← gets (storage_get_u256 slot_fee_to_setter)))
          else if bytes_eq selector sel.get_pair
          then return_pair call_data
          else if bytes_eq selector sel.all_pairs
          then return_all_pairs call_data
          else if bytes_eq selector sel.all_pairs_length
          then (do return_u256 (← gets all_pairs_length))
          else if bytes_eq selector sel.create_pair
          then create_pair call_data
          else if bytes_eq selector sel.set_fee_to
          then set_fee_to call_data
          else if bytes_eq selector sel.set_fee_to_setter
          then set_fee_to_setter call_data
          else revert

      unfoldable pub call : Bytes → M E (Unit {0})
      call call_data = do
        revert_if (ltb (length call_data) 4)
        call_selected (take 4 call_data) call_data
