-- ===== src/Uniswap/Sample.antt =====
-- A small chain for the examples: a stand-in for the hash, a host whose tokens hold a fixed balance, and
-- decoders that give fixed arguments.
use risc_v_rust.Base.{
  ◌≤◌, length, ◌∷◌, ℕ, ◌+◌, ◌*◌, ◌^◌, ◌≡◌, refl, ap, some, [], ◌++◌, arith, length-append, drop,
  replicate, if◌then◌else◌,
}
use risc_v_rust.Base.Bytes.{Bytes, bytes_eq, zeros, to_be_bytes}
use risc_v_rust.Uniswap.Host.{Host, World}
use risc_v_rust.Uniswap.Slots.{slot_key}
use risc_v_rust.Uniswap.Slots.Keys.{NoCollision}
use risc_v_rust.Uniswap.Pair.Life.Tokens.{Answers, balance_call, transfer_call}
use risc_v_rust.Uniswap.Pair.State.Balances.{IsAddress}
use risc_v_rust.Uniswap.Pair.Abi.{Selectors, Decoders}

abbrev pub hash : Bytes → Bytes
hash xs = replicate 32 1 ++ xs

pub hash-NoCollision : NoCollision hash
hash-NoCollision = record {
  long = λ x. rw (length-append (replicate 32 1) x) (omega arith);
  injective = λ x y e. ap (drop 32) e;
  not_small = λ x e. cc;
}

abbrev pub alice : Bytes
alice = replicate 20 0xa1

abbrev pub bob : Bytes
bob = replicate 20 0xb0

abbrev pub host : Host (Unit {0})
host = record {
  hash_keccak_256 = hash;
  caller = alice;
  address = replicate 20 0xcc;
  now = λ _. to_be_bytes 32 1700000000;
  call_evm = λ token input output w.
      (if bytes_eq output [] then some [] else some (to_be_bytes 32 70000), w);
  call = λ callee input w. (some [], w);
  instantiate = λ input w. (some [], w);
}

abbrev pub decoders : ℕ → Decoders
decoders value = record {
  balance_of = λ _. some alice;
  allowance = λ _. some (alice, bob);
  initialize = λ _. some (alice, bob);
  mint = λ _. some alice;
  burn = λ _. some alice;
  swap = λ _. some (value, 0, bob, []);
  skim = λ _. some bob;
  approve = λ _. some (bob, value);
  transfer = λ _. some (bob, value);
  transfer_from = λ _. some (alice, bob, value);
}

-- Slot 7, the lock, and slot 3, the reserves 65536 and 65536.
abbrev pub unlocked : World (Unit {0})
unlocked = record {
  storage = λ key.
      if bytes_eq key (slot_key 7)
      then to_be_bytes 32 1
      else if bytes_eq key (slot_key 3)
      then to_be_bytes 32 (65536 * 2 ^ 144 + 65536 * 2 ^ 32)
      else zeros 32;
  rest = tt;
}

abbrev pub locked : World (Unit {0})
locked = record { storage = λ key. zeros 32; rest = tt }

-- Selectors that differ in their last byte, but for that of initialize, which is what the hash gives.
abbrev pub selectors : Selectors
selectors = record {
  factory = 0 ∷ 0 ∷ 0 ∷ 1 ∷ [];
  token0 = 0 ∷ 0 ∷ 0 ∷ 2 ∷ [];
  token1 = 0 ∷ 0 ∷ 0 ∷ 3 ∷ [];
  get_reserves = 0 ∷ 0 ∷ 0 ∷ 4 ∷ [];
  total_supply = 0 ∷ 0 ∷ 0 ∷ 5 ∷ [];
  balance_of = 0 ∷ 0 ∷ 0 ∷ 6 ∷ [];
  allowance = 0 ∷ 0 ∷ 0 ∷ 7 ∷ [];
  minimum_liquidity = 0 ∷ 0 ∷ 0 ∷ 8 ∷ [];
  price0_cumulative_last = 0 ∷ 0 ∷ 0 ∷ 9 ∷ [];
  price1_cumulative_last = 0 ∷ 0 ∷ 0 ∷ 10 ∷ [];
  k_last = 0 ∷ 0 ∷ 0 ∷ 11 ∷ [];
  initialize = 1 ∷ 1 ∷ 1 ∷ 1 ∷ [];
  mint = 0 ∷ 0 ∷ 0 ∷ 13 ∷ [];
  burn = 0 ∷ 0 ∷ 0 ∷ 14 ∷ [];
  swap = 0 ∷ 0 ∷ 0 ∷ 15 ∷ [];
  skim = 0 ∷ 0 ∷ 0 ∷ 16 ∷ [];
  sync = 0 ∷ 0 ∷ 0 ∷ 17 ∷ [];
  approve = 0 ∷ 0 ∷ 0 ∷ 18 ∷ [];
  transfer = 0 ∷ 0 ∷ 0 ∷ 19 ∷ [];
  transfer_from = 0 ∷ 0 ∷ 0 ∷ 20 ∷ [];
}

pub asked :
    (token account : Bytes) (w : World (Unit {0}))
    → IsAddress account
    → host.call_evm token (balance_call hash account) (zeros 32) w
      ≡ (some (to_be_bytes 32 70000), w)
unfolding bytes_eq
asked token account w a = refl

pub paid :
    (token to : Bytes) (value : ℕ) (w : World (Unit {0}))
    → IsAddress to
    → host.call_evm token (transfer_call hash to value) [] w ≡ (some [], w)
unfolding bytes_eq
paid token to value w a = refl

pub long : (x : Bytes) → 4 ≤ length (hash x)
long x = rw (length-append (replicate 32 1) x) (omega arith)

abbrev pub tokens : Answers host
tokens = record {
  balance = λ token account e. 70000;
  transferred = λ token to value e. e;
  long = long;
  here = refl;
  asked = asked;
  paid = paid;
}
