-- ===== src/Uniswap/LiquidityExamples.antt =====
-- The theorems about a deposit and a burn that go through, at concrete inputs.
use risc_v_rust.Base.{ℕ, ◌-◌, ◌*◌, ◌≤◌, ◌≡◌, refl, [], arith}
use risc_v_rust.Base.Bytes.{bytes_eq, be_from, to_be_bytes, copy_from_slice, zeros}
use risc_v_rust.Uniswap.Host.{World, returned, set_storage_or_clear}
use risc_v_rust.Uniswap.Slots.{slot_key, mapping_key_1, storage_get_u256, storage_set_u256}
use risc_v_rust.Uniswap.Pair.State.{
  get_reserves, get_balance, set_balance, set_reserves, slot_unlocked, slot_total_supply,
}
use risc_v_rust.Uniswap.Pair.Liquidity.{mint, burn}
use risc_v_rust.Uniswap.Pair.Life.Mint.{mint-returns, credited}
use risc_v_rust.Uniswap.Pair.Life.Burn.{burn-returns, burned}
use risc_v_rust.Base.Word.{add256}
use risc_v_rust.Uniswap.Math.Sqrt.{IsRoot}
use risc_v_rust.Uniswap.Pair.Life.First.{mint_first-returns, founded}
use risc_v_rust.Uniswap.Sample.{hash, alice, host, decoders, unlocked, tokens}

-- A supply of 1000, of which the pair holds 10 itself.
abbrev supplied : World (Unit {0})
supplied = record unlocked {
  storage =
      set_balance hash host.address 10 (storage_set_u256 slot_total_supply 1000 unlocked.storage);
}

mint-returns_example :
    (mint (decoders 0) host [] supplied ≡ (
      returned (to_be_bytes 32 68),
      record supplied {
        storage = storage_set_u256 slot_unlocked 1 (
            set_reserves 70000 70000 1700000000
              (credited (decoders 0) host tokens supplied [] alice 70000 70000 1700000000 refl));
      },
    ))
    × (68 * 65536 ≤ 4464 * 1000)
    × (68 * 65536 ≤ 4464 * 1000)
unfolding storage_get_u256 storage_set_u256 set_storage_or_clear set_balance be_from bytes_eq
    slot_key to_be_bytes get_reserves mapping_key_1
mint-returns_example =
    mint-returns (decoders 0) host tokens supplied [] alice 70000 70000 1700000000 refl refl refl
      refl (omega arith) (omega arith) (omega arith) (omega arith) (omega arith) (omega arith)
      (omega arith) (omega arith) (omega arith) (omega arith) refl (omega arith)

mint_first-returns_example :
    (root : ℕ) × IsRoot (4464 * 4464) root
    × (mint (decoders 0) host [] unlocked ≡ (
      returned (to_be_bytes 32 (root - 1000)),
      record unlocked {
        storage = storage_set_u256 slot_unlocked 1 (
            set_reserves 70000 70000 1700000000 (
              set_balance hash alice
                (add256
                  (get_balance hash alice (
                    founded (decoders 0) host tokens unlocked [] alice 70000 70000 1700000000 refl))
                  (root - 1000))
                (founded (decoders 0) host tokens unlocked [] alice 70000 70000 1700000000 refl)));
      },
    ))
unfolding storage_get_u256 storage_set_u256 set_storage_or_clear be_from bytes_eq slot_key
    to_be_bytes get_reserves
mint_first-returns_example =
    mint_first-returns (decoders 0) host tokens unlocked [] alice 70000 70000 1700000000 refl refl
      refl refl (omega arith) (omega arith) (omega arith) (omega arith) refl (omega arith)
      (omega arith) refl (omega arith)

burn-returns_example :
    (burn (decoders 0) host [] supplied ≡ (
      returned (
          copy_from_slice
            (copy_from_slice (zeros 64) 0 (to_be_bytes 32 700))
            32
            (to_be_bytes 32 700)),
      record supplied {
        storage = storage_set_u256 slot_unlocked 1 (
            set_reserves 70000 70000 1700000000 (
              burned
                (decoders 0)
                host
                tokens
                supplied
                []
                alice
                70000
                70000
                70000
                70000
                1700000000
                refl));
      },
    ))
    × (700 ≤ 70000)
    × (700 ≤ 70000)
unfolding storage_get_u256 storage_set_u256 set_storage_or_clear get_balance set_balance be_from
    bytes_eq slot_key mapping_key_1 to_be_bytes
burn-returns_example =
    burn-returns (decoders 0) host tokens supplied [] alice 70000 70000 70000 70000 1700000000 refl
      refl refl refl refl (omega arith) (omega arith) (omega arith) (omega arith) refl (omega arith)
      (omega arith) refl refl (omega arith) (omega arith) refl (omega arith)
