-- ===== src/Uniswap/Host.antt =====
-- What the contracts have of their host (`HostFnImpl` of pallet_revive_uapi): storage, and a call
-- that ends by `return_value`, by a revert or by a trap.
pub mod Ensures
pub mod Goes
pub mod Keeps
use risc_v_rust.Base.{ℕ, Bool, true, false, Option, none, some, ◌/◌, ◌==◌, if◌then◌else◌}
use risc_v_rust.Base.Bytes.{Bytes, bytes_eq, from_be_slice}

-- How a piece of code ends: it goes on with a value, or the contract's call is over. `revert()` is
-- `return_value` with the REVERT flag, and `trapped` is a panic.
pub data Exit (A : Type 0) : Type 0 where
  next : A → Exit A
  returned : Bytes → Exit A
  reverted trapped : Exit A

-- A contract's own storage: the 32 bytes under each 32-byte key, all zero where nothing is stored.
abbrev pub Storage : Type 0
Storage = Bytes → Bytes

-- `api::get_storage_or_zero`
abbrev pub get_storage_or_zero : Bytes → Storage → Bytes
get_storage_or_zero key st = st key

-- `api::set_storage_or_clear`: a value of zeros is the same as none.
unfoldable pub set_storage_or_clear : Bytes → Bytes → Storage → Storage
set_storage_or_clear key value st k = if bytes_eq key k then value else st k

-- The contract's storage, and the rest of the chain: other contracts and their storage.
pub record World (E : Type 0) : Type 0 where
  pub storage : Storage
  pub rest : E

abbrev pub M : Type 0 → Type 0 → Type 0
M E A = World E → Exit A × World E

-- The host functions that are not storage. An external call may change the whole world, the
-- caller's storage included, since the callee may call back; `none` is an `Err`. `call_evm` is given
-- the output buffer, and its `some` holds that buffer afterwards (`[]` for no buffer).
pub record Host (E : Type 0) : Type 0 where
  pub hash_keccak_256 : Bytes → Bytes
  pub caller : Bytes
  pub address : Bytes
  pub now : E → Bytes
  pub call_evm : Bytes → Bytes → Bytes → World E → Option Bytes × World E
  pub call : Bytes → Bytes → World E → Option Bytes × World E
  pub instantiate : Bytes → World E → Option Bytes × World E

module _ {E : Type 0} where
  unfoldable pub pure : {A : Type 0} → A → M E A
  pure a w = (next a, w)

  -- Reading and writing the contract's storage.
  unfoldable pub gets : {A : Type 0} → (Storage → A) → M E A
  gets f w = (next (f w.storage), w)

  unfoldable pub modify : (Storage → Storage) → M E (Unit {0})
  modify f w = (next tt, record w { storage = f w.storage })

  unfoldable pub revert : {A : Type 0} → M E A
  revert w = (reverted, w)

  unfoldable pub panic : {A : Type 0} → M E A
  panic w = (trapped, w)

  unfoldable pub return_value : {A : Type 0} → Bytes → M E A
  return_value d w = (returned d, w)

  -- `if test { revert(); }`
  unfoldable pub revert_if : Bool → M E (Unit {0})
  revert_if test w = (if test then reverted else next tt, w)

  -- `if test { m }`
  unfoldable pub when : Bool → M E (Unit {0}) → M E (Unit {0})
  when test m w = if test then m w else (next tt, w)

  -- `e.unwrap_or_else(|_| revert())`
  unfoldable pub unwrap_or_revert : {A : Type 0} → Option A → M E A
  unwrap_or_revert none w = (reverted, w)
  unwrap_or_revert (some a) w = (next a, w)

  -- `unwrap()`, and every other panic on a missing value.
  unfoldable pub unwrap : {A : Type 0} → Option A → M E A
  unwrap none w = (trapped, w)
  unwrap (some a) w = (next a, w)

  -- `a / b` on `U256` panics at zero.
  unfoldable pub checked_div : ℕ → ℕ → M E ℕ
  checked_div a b w = (if b == 0 then trapped else next (a / b), w)

  -- An external call of the program: an `Err` is an `Option` for the program to look at.
  unfoldable pub external : (World E → Option Bytes × World E) → M E (Option Bytes)
  external f w = let (r, w') = f w in (next r, w')

  infixl 5 ◌>>=◌ ◌>>◌
  unfoldable pub ◌>>=◌ : {A B : Type 0} → M E A → (A → M E B) → M E B
  unfolding pure when gets modify revert panic return_value revert_if unwrap_or_revert unwrap
      checked_div external
  ◌>>=◌ m f w =
      let (r, w') = m w in
      elim r [
        | next a ↦ f a w'
        | returned d ↦ (returned d, w')
        | reverted ↦ (reverted, w')
        | trapped ↦ (trapped, w')
      ]

  abbrev pub ◌>>◌ : {B : Type 0} → M E (Unit {0}) → M E B → M E B
  m >> k = m >>= λ _. k
