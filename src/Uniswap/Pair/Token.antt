-- ===== src/Uniswap/Pair/Token.antt =====
-- The liquidity token: `approve`, `transfer` and `transferFrom` (lines 490 to 531).
pub mod Approves
pub mod Ledger
pub mod Moves
pub mod Spends
use risc_v_rust.Base.{◌==◌, ◌&&◌, ltb, not, true}
use risc_v_rust.Base.Bytes.{Bytes}
use risc_v_rust.Base.Word.{u256_max, add256, sub256}
use risc_v_rust.Uniswap.Host.{M, Host, when, gets, modify, revert_if, unwrap_or_revert, ◌>>=◌, ◌>>◌}
use risc_v_rust.Uniswap.Pair.Abi.{Decoders}
use risc_v_rust.Uniswap.Pair.State.{get_balance, set_balance, get_allowance, set_allowance}
use risc_v_rust.Uniswap.Pair.Calls.{return_bool}

module _ {E : Type 0} (abi : Decoders) (host : Host E) where
  open host use {hash_keccak_256, caller}

  unfoldable pub approve : Bytes → M E (Unit {0})
  approve call_data = do
    decoded ← unwrap_or_revert (abi.approve call_data)
    modify (set_allowance hash_keccak_256 caller decoded.0 decoded.1)
    return_bool true

  unfoldable pub transfer : Bytes → M E (Unit {0})
  transfer call_data = do
    decoded ← unwrap_or_revert (abi.transfer call_data)
    let to = decoded.0
    let value = decoded.1
    bal ← gets (get_balance hash_keccak_256 caller)
    revert_if (ltb bal value)
    modify (set_balance hash_keccak_256 caller (sub256 bal value))
    held ← gets (get_balance hash_keccak_256 to)
    modify (set_balance hash_keccak_256 to (add256 held value))
    return_bool true

  unfoldable pub transfer_from : Bytes → M E (Unit {0})
  transfer_from call_data = do
    decoded ← unwrap_or_revert (abi.transfer_from call_data)
    let from = decoded.0
    let to = decoded.1
    let value = decoded.2
    allow ← gets (get_allowance hash_keccak_256 from caller)
    revert_if (not (allow == u256_max) && ltb allow value)
    bal ← gets (get_balance hash_keccak_256 from)
    revert_if (ltb bal value)
    when (not (allow == u256_max))
        (modify (set_allowance hash_keccak_256 from caller (sub256 allow value)))
    modify (set_balance hash_keccak_256 from (sub256 bal value))
    held ← gets (get_balance hash_keccak_256 to)
    modify (set_balance hash_keccak_256 to (add256 held value))
    return_bool true
