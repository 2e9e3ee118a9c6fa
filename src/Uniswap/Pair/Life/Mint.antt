-- ===== src/Uniswap/Pair/Life/Mint.antt =====
-- A later deposit goes through, and credits no more than its share.
use native.Mathlib.Nat.{mul-div-le}
use risc_v_rust.Base.{
  ℕ, ◌-◌, ◌*◌, ◌/◌, ◌^◌, ◌≤◌, ◌<◌, ◌≡◌, refl, ◌∙◌, false, some, arith, ◌==◌, ltb, if◌then◌else◌,
}
use risc_v_rust.Base.Bytes.{Bytes, to_be_bytes, from_be_slice}
use risc_v_rust.Base.Word.{sub256, add256, mul_mono}
use risc_v_rust.Uniswap.Host.{next, returned, Storage, World, Host, modify, pure, ◌>>=◌, ◌>>◌}
use risc_v_rust.Uniswap.Host.Ensures.{bind-next}
use risc_v_rust.Uniswap.Slots.{storage_get_u256, storage_set_u256}
use risc_v_rust.Uniswap.Pair.Abi.{Decoders}
use risc_v_rust.Uniswap.Pair.State.{
  slot_unlocked, slot_total_supply, get_token0, get_token1, get_reserves, get_balance, set_balance,
  set_reserves,
}
use risc_v_rust.Uniswap.Pair.Calls.{set_unlocked, return_u256}
use risc_v_rust.Uniswap.Pair.Calls.Ensures.{locked_world}
use risc_v_rust.Uniswap.Pair.Liquidity.{first_liquidity, later_liquidity, mint}
use risc_v_rust.Uniswap.Pair.Lock.{lock}
use risc_v_rust.Uniswap.Pair.Life.Tokens.{Answers}
use risc_v_rust.Uniswap.Pair.Life.Live.{
  require_unlocked-next, passes, decodes, to_u128-next, gets-next, balance-next, now-next,
}
use risc_v_rust.Uniswap.Pair.Life.Burn.{modify-next, share-next}

-- The smaller of the two shares of a deposit.
abbrev pub smaller : ℕ → ℕ → ℕ
smaller l0 l1 = if ltb l0 l1 then l0 else l1

smaller-le : (l0 l1 : ℕ) → (smaller l0 l1 ≤ l0) × (smaller l0 l1 ≤ l1)
smaller-le l0 l1 = ground arith

share_le : (x l r : ℕ) → l ≤ x / r → l * r ≤ x
share_le x l r h = omega (arith, mul_mono r l (x / r) h, mul-div-le x r)

module _ {E : Type 0} (abi : Decoders) (host : Host E) (tokens : Answers host) (w : World E)
    (call_data to : Bytes) (b0 b1 now : ℕ) (decoded : abi.mint call_data ≡ some to) where
  open host use {address, hash_keccak_256}
  open tokens use {balance}

  -- What the pair reads once the lock is taken.
  abbrev w1 : World E
  w1 = locked_world w

  abbrev st : Storage
  st = w1.storage

  abbrev r0 : ℕ
  r0 = (get_reserves st).0

  abbrev r1 : ℕ
  r1 = (get_reserves st).1

  abbrev total : ℕ
  total = storage_get_u256 slot_total_supply st

  abbrev liquidity : ℕ
  liquidity = smaller ((b0 - r0) * total / r0) ((b1 - r1) * total / r1)

  -- The storage with the supply raised, and then with the receiver credited.
  abbrev raised : Storage
  raised = storage_set_u256 slot_total_supply (add256 total liquidity) st

  abbrev pub credited : Storage
  credited =
      set_balance hash_keccak_256 to (add256 (get_balance hash_keccak_256 to raised) liquidity)
        raised

  shares-next :
      0 < total
      → 0 < r0
      → 0 < r1
      → (b0 - r0) * total < 2 ^ 256
      → (b1 - r1) * total < 2 ^ 256
      → 0 < liquidity
      → (if total == 0
            then first_liquidity abi host (b0 - r0) (b1 - r1) total
            else later_liquidity abi host (b0 - r0) (b1 - r1) r0 r1 total)
          w1
        ≡ (next liquidity, record w1 { storage = raised })
  unfolding later_liquidity pure
  shares-next some_supply some0 some1 small0 small1 pays =
      let old : (total == 0) ≡ false = ground arith in
      rw old (
        bind-next _ _ w1 (share-next (b0 - r0) total r0 w1 some0 small0)
        ∙ bind-next _ _ w1 (share-next (b1 - r1) total r1 w1 some1 small1)
        ∙ bind-next _ _ w1 (passes (liquidity == 0) w1 (ground arith))
        ∙ bind-next _ _ w1 (modify-next _ w1))

  settles_u256 :
      (liq : ℕ) (f : Storage → Storage) (v : World E)
      → (modify f >> (set_unlocked >> return_u256 liq)) v ≡ (
        returned (to_be_bytes 32 liq),
        record v { storage = storage_set_u256 slot_unlocked 1 (f v.storage) },
      )
  unfolding set_unlocked ◌>>=◌
  settles_u256 liq f v = refl

  -- A mint whose shares are computed goes through: it credits the receiver with them, on the storage that they leave.
  pub mint_of_shares :
      (liq : ℕ) (left : Storage)
      → lock w ≡ 1
      → balance (get_token0 st) address w.rest ≡ b0
      → balance (get_token1 st) address w.rest ≡ b1
      → b0 < 2 ^ 128
      → b1 < 2 ^ 128
      → r0 ≤ b0
      → r1 ≤ b1
      → (if total == 0
            then first_liquidity abi host (b0 - r0) (b1 - r1) total
            else later_liquidity abi host (b0 - r0) (b1 - r1) r0 r1 total)
          w1
        ≡ (next liq, record w1 { storage = left })
      → from_be_slice (host.now w.rest) ≡ now
      → now < 2 ^ 32
      → mint abi host call_data w ≡ (
        returned (to_be_bytes 32 liq),
        record w {
          storage = storage_set_u256 slot_unlocked 1 (
              set_reserves b0 b1 now (
                set_balance hash_keccak_256 to
                  (add256 (get_balance hash_keccak_256 to left) liq)
                  left));
        },
      )
  unfolding mint
  mint_of_shares liq left free e0 e1 h0 h1 in0 in1 shares time early =
      let w2 : World E = record w1 { storage = left } in
      let w3 : World E = record w1 {
        storage =
            set_balance hash_keccak_256 to (add256 (get_balance hash_keccak_256 to left) liq) left;
      } in
      let plain0 : sub256 b0 r0 ≡ b0 - r0 = omega arith in
      let plain1 : sub256 b1 r1 ≡ b1 - r1 = omega arith in
      bind-next _ _ w (require_unlocked-next w free)
      ∙ bind-next _ _ w1 (decodes _ to w1 decoded)
      ∙ bind-next _ _ w1 (gets-next get_reserves w1)
      ∙ bind-next _ _ w1 (gets-next get_token0 w1)
      ∙ bind-next _ _ w1 (gets-next get_token1 w1)
      ∙ bind-next _ _ w1 (balance-next abi host tokens _ w1 b0 e0 h0)
      ∙ bind-next _ _ w1 (balance-next abi host tokens _ w1 b1 e1 h1)
      ∙ bind-next _ _ w1 (gets-next (storage_get_u256 slot_total_supply) w1)
      ∙ bind-next _ _ w1 (rw (plain0, plain1) shares)
      ∙ bind-next _ _ w2 (gets-next (get_balance hash_keccak_256 to) w2)
      ∙ bind-next _ _ w2 (modify-next _ w2)
      ∙ bind-next _ _ w3 (to_u128-next b0 w3 h0)
      ∙ bind-next _ _ w3 (to_u128-next b1 w3 h1)
      ∙ bind-next _ _ w3 (now-next abi host tokens w3 now time early)
      ∙ settles_u256 liq (set_reserves b0 b1 now) w3

  -- An unlocked pair with liquidity serves a deposit: tokens that answer, with balances below 2 ^ 128 and at least the reserves,
  -- which are not zero; a supply that is not zero; products that do not overflow; a share that is not zero; and a clock
  -- below 2 ^ 32. Such a mint returns the smaller share of the supply, credits the receiver with it and raises
  -- the supply by it; against either reserve, the share of the supply is at most that of the deposit.
  pub mint-returns :
      lock w ≡ 1
      → balance (get_token0 st) address w.rest ≡ b0
      → balance (get_token1 st) address w.rest ≡ b1
      → b0 < 2 ^ 128
      → b1 < 2 ^ 128
      → r0 ≤ b0
      → r1 ≤ b1
      → 0 < total
      → 0 < r0
      → 0 < r1
      → (b0 - r0) * total < 2 ^ 256
      → (b1 - r1) * total < 2 ^ 256
      → 0 < liquidity
      → from_be_slice (host.now w.rest) ≡ now
      → now < 2 ^ 32
      → (mint abi host call_data w ≡ (
        returned (to_be_bytes 32 liquidity),
        record w { storage = storage_set_u256 slot_unlocked 1 (set_reserves b0 b1 now credited) },
      ))
        × (liquidity * r0 ≤ (b0 - r0) * total)
        × (liquidity * r1 ≤ (b1 - r1) * total)
  mint-returns free e0 e1 h0 h1 in0 in1 some_supply some0 some1 small0 small1 pays time early =
      let (least0, least1) = smaller-le ((b0 - r0) * total / r0) ((b1 - r1) * total / r1) in
      (
        mint_of_shares liquidity raised free e0 e1 h0 h1 in0 in1
            (shares-next some_supply some0 some1 small0 small1 pays) time early,
        share_le _ liquidity r0 least0,
        share_le _ liquidity r1 least1,
      )
