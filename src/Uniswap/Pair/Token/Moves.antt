-- ===== src/Uniswap/Pair/Token/Moves.antt =====
-- `transfer` and `transferFrom` as moves on the ledger of balances.
use risc_v_rust.Base.{ℕ, ◌^◌, ◌≤◌, ◌<◌, ◌≡◌, ◌∙◌, refl, some, List, [], ◌∷◌, arith}
use risc_v_rust.Base.Bytes.{Bytes, to_be_bytes}
use risc_v_rust.Base.Word.{add256, sub256}
use risc_v_rust.Uniswap.Host.{Storage, World, Host, returned, reverted, ◌>>=◌}
use risc_v_rust.Uniswap.Slots.Keys.{NoCollision}
use risc_v_rust.Uniswap.Pair.Abi.{Decoders}
use risc_v_rust.Uniswap.Pair.State.{get_balance, set_balance}
use risc_v_rust.Uniswap.Pair.State.Balances.{IsAddress, get_balance-set_balance}
use risc_v_rust.Uniswap.Pair.Token.{transfer}
use risc_v_rust.Uniswap.Pair.Token.Ledger.{Ledger, moved, sum, times, sum-moved, moved-le-sum}

abbrev pub balances : (Bytes → Bytes) → Storage → Ledger
balances hash st a = get_balance hash a st

module _ (hash : Bytes → Bytes) where
  -- The two writes of a transfer out of a balance of `bal`.
  unfoldable pub credited : Bytes → Bytes → ℕ → ℕ → Storage → Storage
  credited from to value bal st =
      let st' = set_balance hash from (sub256 bal value) st in
      set_balance hash to (add256 (get_balance hash to st') value) st'

module _ {E : Type 0} (abi : Decoders) (host : Host E) where
  open host use {hash_keccak_256, caller}

  transfer-eq :
      (call_data to : Bytes) (value : ℕ) (w : World E)
      → abi.transfer call_data ≡ some (to, value)
      → value ≤ balances hash_keccak_256 w.storage caller
      → transfer abi host call_data w ≡ (
        returned (to_be_bytes 32 1),
        record w {
          storage =
              credited hash_keccak_256 caller to value
                (get_balance hash_keccak_256 caller w.storage)
                w.storage;
        },
      )
  unfolding transfer ◌>>=◌ credited
  transfer-eq call_data to value w e h = ground arith

  -- A transfer of more than the balance reverts and changes nothing.
  pub transfer_short :
      (call_data to : Bytes) (value : ℕ) (w : World E)
      → abi.transfer call_data ≡ some (to, value)
      → balances hash_keccak_256 w.storage caller < value
      → transfer abi host call_data w ≡ (reverted, w)
  unfolding transfer ◌>>=◌
  transfer_short call_data to value w e h = ground arith

-- Every account of a list is an address of twenty bytes.
abbrev pub AreAddresses : List Bytes → Type 0
AreAddresses [] = Unit {0}
AreAddresses (a ∷ rest) = IsAddress a × AreAddresses rest

pub sum-congr :
    (f g : Ledger) (others : List Bytes)
    → AreAddresses others
    → ((a : Bytes) → IsAddress a → f a ≡ g a)
    → sum f others ≡ sum g others
unfolding sum
sum-congr f g [] h e = refl
sum-congr f g (a ∷ rest) h e = omega (arith, sum-congr f g rest h.1 e, e a h.0)

module _ (hash : Bytes → Bytes) (ideal : NoCollision hash) (from to : Bytes) (value : ℕ)
    (st : Storage) (hf : IsAddress from) (ht : IsAddress to) (others : List Bytes)
    (listed : AreAddresses others) (once_from : times from others ≡ 1)
    (once_to : times to others ≡ 1) (fits : sum (balances hash st) others < 2 ^ 256)
    (enough : value ≤ balances hash st from) where
  pub balances-credited :
      (bal : ℕ)
      → bal ≡ balances hash st from
      → (a : Bytes) → IsAddress a
      → balances hash (credited hash from to value bal st) a
        ≡ moved from to value (balances hash st) a
  unfolding credited
  balances-credited bal same a ha =
      let b = sub256 bal value in
      let st' = set_balance hash from b st in
      let v = add256 (get_balance hash to st') value in
      ground (
        arith,
        get_balance-set_balance hash ideal a to ha ht v st',
        get_balance-set_balance hash ideal a from ha hf b st,
        get_balance-set_balance hash ideal to from ht hf b st,
        moved-le-sum from to value (balances hash st) others enough once_from once_to,
      )

  pub sum-credited :
      (bal : ℕ)
      → bal ≡ balances hash st from
      → sum (balances hash (credited hash from to value bal st)) others
        ≡ sum (balances hash st) others
  sum-credited bal same =
      sum-congr _ _ others listed (balances-credited bal same)
      ∙ sum-moved from to value (balances hash st) others enough once_from once_to

module _ {E : Type 0} (abi : Decoders) (host : Host E) (ideal : NoCollision host.hash_keccak_256)
    (w : World E) where
  open host use {hash_keccak_256, caller}

  abbrev before : Ledger
  before = balances hash_keccak_256 w.storage

  -- Where hashes do not collide, the accounts have addresses of twenty bytes, and the balances of a list
  -- that has the caller and the receiver once each sum to less than 2 ^ 256: a transfer that the
  -- caller's balance covers returns true and moves the value on the ledger of balances, and the sum over
  -- the list stays the same.
  pub transfer-moves :
      (call_data to : Bytes) (value : ℕ) (others : List Bytes)
      → abi.transfer call_data ≡ some (to, value)
      → IsAddress caller
      → IsAddress to
      → AreAddresses others
      → times caller others ≡ 1
      → times to others ≡ 1
      → sum before others < 2 ^ 256
      → value ≤ before caller
      → (a : Bytes) → IsAddress a
      → let (r, w') = transfer abi host call_data w in
        (r ≡ returned (to_be_bytes 32 1))
        × (balances hash_keccak_256 w'.storage a ≡ moved caller to value before a)
        × (sum (balances hash_keccak_256 w'.storage) others ≡ sum before others)
  transfer-moves call_data to value others e hc ht listed oc ot fits enough a ha =
      rw (transfer-eq abi host call_data to value w e enough) (
        refl,
        balances-credited hash_keccak_256 ideal caller to value w.storage hc ht others listed oc ot
            fits enough _ refl a ha,
        sum-credited hash_keccak_256 ideal caller to value w.storage hc ht others listed oc ot fits
            enough _ refl,
      )
