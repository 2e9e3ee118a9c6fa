-- ===== src/Uniswap/Pair/Life/Free.antt =====
-- Between calls a pair is unlocked.
use risc_v_rust.Base.{ℕ, ◌≡◌, sym, ap, subst, ◌∙◌, Bool, true, false, Option, arith, if◌then◌else◌}
use risc_v_rust.Base.Bytes.{Bytes}
use risc_v_rust.Uniswap.Host.{
  Exit, next, returned, reverted, trapped, Storage, World, M, Host, gets, revert, return_value,
  unwrap_or_revert, revert_if, ◌>>=◌, ◌>>◌,
}
use risc_v_rust.Uniswap.Host.Goes.{Returns, ReturnedIn}
use risc_v_rust.Uniswap.Host.Keeps.{Keeps, Kept, Keeps-revert, Keeps-return_value, keeps_rules}
use risc_v_rust.Uniswap.Slots.{storage_get_u256}
use risc_v_rust.Uniswap.Slots.Keys.{NoCollision}
use risc_v_rust.Uniswap.Slots.Laws.{storage_get_u256-storage_set_u256}
use risc_v_rust.Uniswap.Pair.Abi.{Selectors, Decoders}
use risc_v_rust.Uniswap.Pair.State.{slot_unlocked, set_balance, set_allowance}
use risc_v_rust.Uniswap.Pair.State.Balances.{slot-set_balance, slot-set_allowance}
use risc_v_rust.Uniswap.Pair.Calls.{deploy}
use risc_v_rust.Uniswap.Pair.Lock.{Guarded, guarded, lock}
use risc_v_rust.Uniswap.Pair.Lock.Release.{IsFree, guarded-Returns}
use risc_v_rust.Uniswap.Pair.Token.{approve, transfer, transfer_from}
use risc_v_rust.Uniswap.Pair.Dispatch.{call_mutating, call_selected, call}
use risc_v_rust.Uniswap.Pair.Life.{Reach, deployed, called, elsewhere}

-- The lock, as a fact about the storage.
abbrev IsOpen : Storage → Type 0
IsOpen st = storage_get_u256 slot_unlocked st ≡ 1

module _ {E : Type 0} where
  -- Called on a free pair, `m` leaves it free where it returns.
  record Frees (m : M E (Unit {0})) : Type 0 where
    pub at : (w : World E) → IsFree w → ReturnedIn IsFree (m w)

  Frees-Returns : (m : M E (Unit {0})) → Returns IsFree m → Frees m
  Frees-Returns m r = record { at = λ w h. r.at w }

  ReturnedIn-Kept : (out : Exit (Unit {0}) × World E) → Kept IsOpen out → ReturnedIn IsFree out
  ReturnedIn-Kept (next a, w) h = tt
  ReturnedIn-Kept (returned d, w) h = h
  ReturnedIn-Kept (reverted, w) h = tt
  ReturnedIn-Kept (trapped, w) h = tt

  Frees-Keeps : (m : M E (Unit {0})) → Keeps IsOpen m → Frees m
  Frees-Keeps m k = record { at = λ w h. ReturnedIn-Kept (m w) (k.at w h) }

  Frees-revert : Frees (revert {A = Unit {0}})
  Frees-revert = Frees-Keeps revert Keeps-revert

  -- The functions that only read.
  Frees-return_value : (d : Bytes) → Frees (return_value d)
  Frees-return_value d = Frees-Keeps (return_value d) (Keeps-return_value d)

  Frees-gets :
      {A : Type 0} (f : Storage → A) (k : A → Bytes) → Frees (gets f >>= λ a. return_value (k a))
  Frees-gets f k = Frees-Keeps (gets f >>= λ a. return_value (k a)) (search keeps_rules depth 10)

  Frees-asked :
      {A B : Type 0} (o : Option A) (f : A → Storage → B) (k : A → B → Bytes)
      → Frees (unwrap_or_revert o >>= λ a. (gets (f a) >>= λ b. return_value (k a b)))
  Frees-asked o f k =
      Frees-Keeps (unwrap_or_revert o >>= λ a. (gets (f a) >>= λ b. return_value (k a b)))
        (search keeps_rules depth 10)

  Frees-if : (b : Bool) (m n : M E (Unit {0})) → Frees m → Frees n → Frees (if b then m else n)
  Frees-if true m n f g = f
  Frees-if false m n f g = g

  Frees-guard : (b : Bool) (m : M E (Unit {0})) → Frees m → Frees (revert_if b >> m)
  unfolding ◌>>=◌
  Frees-guard true m f = record { at = λ w h. tt }
  Frees-guard false m f = record { at = f.at }

module _ {E : Type 0} (sel : Selectors) (abi : Decoders) (host : Host E)
    (ideal : NoCollision host.hash_keccak_256) where
  open host use {hash_keccak_256}

  balance-IsOpen :
      (who : Bytes) (v : ℕ) (st : Storage)
      → IsOpen st
      → IsOpen (set_balance hash_keccak_256 who v st)
  balance-IsOpen who v st h = slot-set_balance hash_keccak_256 ideal slot_unlocked who v st ∙ h

  allowance-IsOpen :
      (who to : Bytes) (v : ℕ) (st : Storage)
      → IsOpen st
      → IsOpen (set_allowance hash_keccak_256 who to v st)
  allowance-IsOpen who to v st h =
      slot-set_allowance hash_keccak_256 ideal slot_unlocked who to v st ∙ h

  ruleset open_rules = (keeps_rules, balance-IsOpen, allowance-IsOpen)

  approve-Keeps : (call_data : Bytes) → Keeps IsOpen (approve abi host call_data)
  unfolding approve
  approve-Keeps call_data = search open_rules depth 40

  transfer-Keeps : (call_data : Bytes) → Keeps IsOpen (transfer abi host call_data)
  unfolding transfer
  transfer-Keeps call_data = search open_rules depth 40

  transfer_from-Keeps : (call_data : Bytes) → Keeps IsOpen (transfer_from abi host call_data)
  unfolding transfer_from
  transfer_from-Keeps call_data = search open_rules depth 40

  guarded-Frees : (f : Guarded) (call_data : Bytes) → Frees (guarded abi host f call_data)
  guarded-Frees f call_data = Frees-Returns _ (guarded-Returns abi host call_data f)

  call_mutating-Frees :
      (selector call_data : Bytes) → Frees (call_mutating sel abi host selector call_data)
  unfolding call_mutating guarded
  call_mutating-Frees selector call_data =
      Frees-if _ _ _ (guarded-Frees Guarded.initialize call_data) (
        Frees-if _ _ _ (guarded-Frees Guarded.mint call_data) (
          Frees-if _ _ _ (guarded-Frees Guarded.burn call_data) (
            Frees-if _ _ _ (guarded-Frees Guarded.swap call_data) (
              Frees-if _ _ _ (guarded-Frees Guarded.skim call_data) (
                Frees-if _ _ _ (guarded-Frees Guarded.sync call_data) (
                  Frees-if _ _ _ (Frees-Keeps _ (approve-Keeps call_data)) (
                    Frees-if _ _ _ (Frees-Keeps _ (transfer-Keeps call_data)) (
                      Frees-if _ _ _ (Frees-Keeps _ (transfer_from-Keeps call_data))
                        Frees-revert))))))))

  call_selected-Frees :
      (selector call_data : Bytes) → Frees (call_selected sel abi host selector call_data)
  unfolding call_selected
  call_selected-Frees selector call_data =
      search (Frees-if, Frees-return_value, Frees-gets, Frees-asked, call_mutating-Frees) depth 60

  call-Frees : (call_data : Bytes) → Frees (call sel abi host call_data)
  unfolding call
  call-Frees call_data = Frees-guard _ _ (call_selected-Frees _ call_data)

deploy-IsFree :
    {E : Type 0} (host : Host E) (w w' : World E) → deploy host w ≡ (next tt, w') → lock w' ≡ 1
unfolding deploy ◌>>=◌
deploy-IsFree host w w' e =
    ap (λ out. lock out.1) (sym e)
    ∙ storage_get_u256-storage_set_u256 slot_unlocked slot_unlocked 1 _ (omega arith) (omega arith)

module _ {E : Type 0} (sel : Selectors) (abi : Decoders) (hash : Bytes → Bytes)
    (ideal : NoCollision hash) where
  -- Where hashes do not collide: between two calls a pair is unlocked, whatever it was called with, by
  -- whom, and whatever the other contracts did.
  pub Reach-IsFree : (u : World E) → Reach sel abi hash u → lock u ≡ 1
  Reach-IsFree u (deployed host w w' same e) = deploy-IsFree host w w' e
  Reach-IsFree u (called {w} host call_data d w' r same e) = subst (ReturnedIn IsFree) e (
      (call-Frees sel abi host (subst NoCollision (sym same) ideal) call_data).at w
        (Reach-IsFree w r))
  Reach-IsFree u (elsewhere {w} e w' r same) = rw same (Reach-IsFree w r)
