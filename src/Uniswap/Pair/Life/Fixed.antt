-- ===== src/Uniswap/Pair/Life/Fixed.antt =====
-- Once a pair has its tokens, it keeps them and its factory.
use risc_v_rust.Base.{ℕ, ◌≡◌, ◌≢◌, sym, subst}
use risc_v_rust.Base.Bytes.{Bytes}
use risc_v_rust.Uniswap.Host.{returned, World, Host}
use risc_v_rust.Uniswap.Host.Keeps.{Kept, CalleesKeep}
use risc_v_rust.Uniswap.Slots.Keys.{NoCollision}
use risc_v_rust.Uniswap.Pair.Abi.{Selectors, Decoders}
use risc_v_rust.Uniswap.Pair.Dispatch.{call}
use risc_v_rust.Uniswap.Pair.Identity.{Identity}
use risc_v_rust.Uniswap.Pair.Identity.Kept.{call-Keeps}

-- Any number of calls from one world to another, in which other contracts, should they come back into
-- this one, keep its factory and tokens as well.
pub data Calls {E : Type 0} (sel : Selectors) (abi : Decoders) (hash : Bytes → Bytes) (f a b : ℕ)
    (w : World E) : World E → Type 0 where
  here : Calls sel abi hash f a b w w
  called_next :
      {v : World E} (host : Host E) (call_data d : Bytes) (u : World E)
      → Calls sel abi hash f a b w v
      → host.hash_keccak_256 ≡ hash
      → CalleesKeep (Identity f a b) host
      → call sel abi host call_data v ≡ (returned d, u)
      → Calls sel abi hash f a b w u

module _ {E : Type 0} (sel : Selectors) (abi : Decoders) (hash : Bytes → Bytes)
    (ideal : NoCollision hash) (f a b : ℕ) (set : a ≢ 0) (w : World E) where
  -- Where hashes do not collide: a pair that has a first token other than zero has the same factory and
  -- the same two tokens after any number of calls, `initialize` among them, where calls of other contracts
  -- keep the three as well.
  pub Calls-Identity :
      (u : World E)
      → Calls sel abi hash f a b w u
      → Identity f a b w.storage
      → Identity f a b u.storage
  Calls-Identity u here h = h
  Calls-Identity u (called_next {v} host call_data d u' r same callees e) h =
      subst (Kept (Identity f a b)) e (
        (call-Keeps sel abi host (subst NoCollision (sym same) ideal) f a b set callees
            call_data).at
          v (Calls-Identity v r h))
