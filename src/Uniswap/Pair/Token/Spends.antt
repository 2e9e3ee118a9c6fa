-- ===== src/Uniswap/Pair/Token/Spends.antt =====
-- `transferFrom` spends an allowance and moves on the ledger of balances; `approve` sets one.
use risc_v_rust.Base.{
  ℕ, ◌-◌, ◌^◌, ◌≤◌, ◌<◌, ◌≡◌, ◌≢◌, ◌⊎◌, ◌∙◌, refl, sym, some, List, arith, not, ◌==◌, ◌&&◌,
  if◌then◌else◌,
}
use risc_v_rust.Base.Bytes.{Bytes, bytes_eq, to_be_bytes}
use risc_v_rust.Base.Word.{u256_max, sub256}
use risc_v_rust.Uniswap.Host.{Storage, World, Host, returned, reverted, ◌>>=◌}
use risc_v_rust.Uniswap.Slots.Keys.{NoCollision}
use risc_v_rust.Uniswap.Pair.Abi.{Decoders}
use risc_v_rust.Uniswap.Pair.State.{get_allowance, set_allowance}
use risc_v_rust.Uniswap.Pair.State.Balances.{
  IsAddress, get_balance-set_allowance, get_allowance-set_balance, get_allowance-set_allowance,
}
use risc_v_rust.Uniswap.Pair.Token.{transfer_from}
use risc_v_rust.Uniswap.Pair.Token.Ledger.{Ledger, moved, sum, times}
use risc_v_rust.Uniswap.Pair.Token.Moves.{
  balances, credited, sum-congr, AreAddresses, balances-credited, sum-credited,
}

-- What is written to the allowance: nothing where it is unlimited.
spent : (Bytes → Bytes) → Bytes → Bytes → ℕ → ℕ → Storage → Storage
spent hash from spender value allow st =
    if not (allow == u256_max) then set_allowance hash from spender (sub256 allow value) st else st

module _ {E : Type 0} (abi : Decoders) (host : Host E) (w : World E) where
  open host use {hash_keccak_256, caller}

  abbrev before : Ledger
  before = balances hash_keccak_256 w.storage

  abbrev allowed : Bytes → ℕ
  allowed from = get_allowance hash_keccak_256 from caller w.storage

  transfer_from-eq :
      (call_data from to : Bytes) (value : ℕ)
      → abi.transfer_from call_data ≡ some (from, to, value)
      → value ≤ allowed from
      → value ≤ before from
      → transfer_from abi host call_data w ≡ (
        returned (to_be_bytes 32 1),
        record w {
          storage =
              credited hash_keccak_256 from to value
                (before from)
                (spent hash_keccak_256 from caller value (allowed from) w.storage);
        },
      )
  unfolding transfer_from ◌>>=◌ credited spent
  transfer_from-eq call_data from to value e ha hb = ground arith

  -- Without a large enough allowance, unless that is unlimited, or without a large enough balance,
  -- transferFrom reverts and changes nothing.
  pub transfer_from_short :
      (call_data from to : Bytes) (value : ℕ)
      → abi.transfer_from call_data ≡ some (from, to, value)
      → ((allowed from ≢ u256_max) × (allowed from < value)) ⊎ (before from < value)
      → transfer_from abi host call_data w ≡ (reverted, w)
  unfolding transfer_from ◌>>=◌
  transfer_from_short call_data from to value e h = ground arith

  module _ (ideal : NoCollision host.hash_keccak_256) (from : Bytes) (hs : IsAddress caller)
      (hf : IsAddress from) where
    balances-spent :
        (value allow : ℕ) (a : Bytes)
        → IsAddress a
        → balances hash_keccak_256 (spent hash_keccak_256 from caller value allow w.storage) a
          ≡ before a
    unfolding spent
    balances-spent value allow a ha = ground (
      arith,
      get_balance-set_allowance hash_keccak_256 ideal a from ha hf caller (sub256 allow value)
          w.storage,
    )

    allowance-credited :
        (to : Bytes) (value bal : ℕ) (st : Storage) (x y : Bytes)
        → IsAddress to
        → IsAddress x
        → get_allowance hash_keccak_256 x y (credited hash_keccak_256 from to value bal st)
          ≡ get_allowance hash_keccak_256 x y st
    unfolding credited
    allowance-credited to value bal st x y ht hx =
        get_allowance-set_balance hash_keccak_256 ideal to x ht hx y _ _
        ∙ get_allowance-set_balance hash_keccak_256 ideal from x hf hx y _ st

    allowance-spent :
        (value : ℕ) (x y : Bytes)
        → IsAddress x
        → IsAddress y
        → value ≤ allowed from
        → allowed from < 2 ^ 256
        → get_allowance hash_keccak_256 x y
            (spent hash_keccak_256 from caller value (allowed from) w.storage)
          ≡ (if not (allowed from == u256_max) && (bytes_eq from x && bytes_eq caller y)
              then allowed from - value
              else get_allowance hash_keccak_256 x y w.storage)
    unfolding spent
    allowance-spent value x y hx hy le word = ground (
      arith,
      get_allowance-set_allowance hash_keccak_256 ideal x y from caller
          (sub256 (allowed from) value) w.storage hx hy hf hs,
    )

    -- Where hashes do not collide, the accounts have addresses of twenty bytes, the allowance is a
    -- 256-bit number, and the balances of a list that has the giver and the receiver once each sum to
    -- less than 2 ^ 256: a transferFrom that balance and allowance cover returns true, moves the value on
    -- the ledger of balances with the sum over the list unchanged, and takes it off the one allowance,
    -- unless that is unlimited; every other allowance stays.
    pub transfer_from-moves :
        (call_data to : Bytes) (value : ℕ) (others : List Bytes)
        → abi.transfer_from call_data ≡ some (from, to, value)
        → IsAddress to
        → AreAddresses others
        → times from others ≡ 1
        → times to others ≡ 1
        → sum before others < 2 ^ 256
        → value ≤ before from
        → value ≤ allowed from
        → allowed from < 2 ^ 256
        → (a : Bytes) → IsAddress a
        → (x y : Bytes) → IsAddress x
        → IsAddress y
        → let (r, w') = transfer_from abi host call_data w in
          (r ≡ returned (to_be_bytes 32 1))
          × (balances hash_keccak_256 w'.storage a ≡ moved from to value before a)
          × (sum (balances hash_keccak_256 w'.storage) others ≡ sum before others)
          × (get_allowance hash_keccak_256 x y w'.storage ≡ (
              if not (allowed from == u256_max) && (bytes_eq from x && bytes_eq caller y)
              then allowed from - value
              else get_allowance hash_keccak_256 x y w.storage))
    transfer_from-moves call_data to value others e ht listed of ot fits hb ha word a h x y hx hy =
        let st = spent hash_keccak_256 from caller value (allowed from) w.storage in
        let same = balances-spent value (allowed from) in
        let total : sum (balances hash_keccak_256 st) others ≡ sum before others =
          sum-congr _ _ others listed same in
        let cover : value ≤ balances hash_keccak_256 st from = rw (same from hf) hb in
        let small : sum (balances hash_keccak_256 st) others < 2 ^ 256 = rw total fits in
        rw (transfer_from-eq call_data from to value e ha hb) (
          refl,
          ground (
            arith,
            balances-credited hash_keccak_256 ideal from to value st hf ht others listed of ot small
                cover (before from) (sym (same from hf)) a h,
            same from hf,
            same to ht,
            same a h,
          ),
          sum-credited hash_keccak_256 ideal from to value st hf ht others listed of ot small cover
                (before from) (sym (same from hf))
              ∙ total,
          allowance-credited to value (before from) st x y ht hx
              ∙ allowance-spent value x y hx hy ha word,
        )
