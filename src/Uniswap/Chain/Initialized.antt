-- ===== src/Uniswap/Chain/Initialized.antt =====
-- How the factory's call sets up a pair that its constructor has just left.
use risc_v_rust.Base.{
  ℕ, ◌%◌, ◌^◌, ◌≤◌, ◌<◌, ◌≡◌, ◌∙◌, refl, sym, ap, subst, false, some, [], ◌∷◌, arith, length, take,
  ◌==◌,
}
use risc_v_rust.Base.Bytes.{Bytes, be_from, copy_from_slice, zeros, codes}
use risc_v_rust.Uniswap.Host.{
  Storage, World, Host, Exit, returned, modify, return_value, ◌>>=◌, ◌>>◌,
}
use risc_v_rust.Uniswap.Host.Ensures.{bind-next}
use risc_v_rust.Uniswap.Slots.{storage_get_u256, storage_set_u256}
use risc_v_rust.Uniswap.Slots.Laws.{storage_get_u256-storage_set_u256}
use risc_v_rust.Uniswap.Pair.Abi.{Selectors, Decoders}
use risc_v_rust.Uniswap.Pair.State.{
  slot_factory, slot_token0, slot_token1, slot_unlocked, address_word,
}
use risc_v_rust.Uniswap.Pair.Calls.{set_unlocked}
use risc_v_rust.Uniswap.Pair.Calls.Ensures.{locked_world}
use risc_v_rust.Uniswap.Pair.Lock.{lock}
use risc_v_rust.Uniswap.Pair.Identity.{Identity}
use risc_v_rust.Uniswap.Pair.Liquidity.{initialize}
use risc_v_rust.Uniswap.Pair.Dispatch.{call}
use risc_v_rust.Uniswap.Pair.Dispatch.Reaches.{Entry, selector_of, run, call-run}
use risc_v_rust.Uniswap.Pair.Life.Live.{require_unlocked-next, passes, decodes, gets-next}
use risc_v_rust.Uniswap.Factory.{encode_initialize}

-- What alloy generates for `initialize`: its selector, and the reading of what the factory encodes for two tokens.
pub record Agrees (hash : Bytes → Bytes) (sel : Selectors) (abi : Decoders) (t0 t1 : Bytes)
    : Type 0 where
  pub long : (x : Bytes) → 4 ≤ length (hash x)
  pub selector : sel.initialize ≡ take 4 (hash (codes "initialize(address,address)"))
  pub distinct : (f g : Entry) → selector_of sel f ≡ selector_of sel g → f ≡ g
  pub decoded : abi.initialize (encode_initialize hash t0 t1) ≡ some (t0, t1)

-- The selector stands in front of the encoded call.
encoded_selector :
    (digest a b : Bytes)
    → 4 ≤ length digest
    → let input =
        copy_from_slice
          (copy_from_slice (copy_from_slice (zeros 68) 0 (take 4 digest)) 16 a)
          48
          b in
      (4 ≤ length input) × (take 4 input ≡ take 4 digest)
encoded_selector (x ∷ y ∷ z ∷ u ∷ rest) a b h = (omega arith, refl)
encoded_selector (x ∷ y ∷ z ∷ []) a b h = absurd (omega arith)
encoded_selector (x ∷ y ∷ []) a b h = absurd (omega arith)
encoded_selector (x ∷ []) a b h = absurd (omega arith)
encoded_selector [] a b h = absurd (omega arith)

-- The storage after the constructor, and after `initialize`.
abbrev constructed : ℕ → Storage → Storage
constructed factory st = storage_set_u256 slot_unlocked 1 (storage_set_u256 slot_factory factory st)

abbrev initialized : ℕ → ℕ → Storage → Storage
initialized t0 t1 st = storage_set_u256 slot_unlocked 1 (
    storage_set_u256 slot_token1 t1
      (storage_set_u256 slot_token0 t0 (storage_set_u256 slot_unlocked 0 st)))

module _ {F : Type 0} (abi : Decoders) (host : Host F) where
  initialize-ends :
      (f g : Storage → Storage) (w : World F)
      → (modify f >> (modify g >> (set_unlocked >> return_value {A = Unit {0}} []))) w
        ≡ (returned [], record w { storage = storage_set_u256 slot_unlocked 1 (g (f w.storage)) })
  unfolding set_unlocked ◌>>=◌
  initialize-ends f g w = refl

  initialize-next :
      (input a b : Bytes) (w : World F)
      → abi.initialize input ≡ some (a, b)
      → lock w ≡ 1
      → storage_get_u256 slot_token0 (locked_world w).storage ≡ 0
      → initialize abi host input w ≡ (
        returned [],
        record w { storage = initialized (address_word a) (address_word b) w.storage },
      )
  unfolding initialize
  initialize-next input a b w e free unset =
      let w1 = locked_world w in
      bind-next _ _ w (require_unlocked-next w free)
      ∙ bind-next _ _ w1 (decodes _ (a, b) w1 e)
      ∙ bind-next _ _ w1 (gets-next (storage_get_u256 slot_token0) w1)
      ∙ bind-next _ _ w1 (passes _ w1 (rw unset refl))
      ∙ initialize-ends _ _ w1

abbrev fresh : ℕ → Storage
fresh factory = constructed factory (λ _. zeros 32)

read :
    (i j v : ℕ) (st : Storage)
    → i < 2 ^ 32
    → j < 2 ^ 32
    → (j == i) ≡ false
    → storage_get_u256 i (storage_set_u256 j v st) ≡ storage_get_u256 i st
read i j v st hi hj ne = storage_get_u256-storage_set_u256 i j v st hi hj ∙ rw ne refl

fresh-unset :
    (factory : ℕ)
    → storage_get_u256 slot_token0 (storage_set_u256 slot_unlocked 0 (fresh factory)) ≡ 0
unfolding storage_get_u256 be_from
fresh-unset factory =
    read slot_token0 slot_unlocked 0 _ (omega arith) (omega arith) refl
    ∙ read slot_token0 slot_unlocked 1 _ (omega arith) (omega arith) refl
    ∙ read slot_token0 slot_factory factory _ (omega arith) (omega arith) refl

fresh-IsFree : (factory : ℕ) → storage_get_u256 slot_unlocked (fresh factory) ≡ 1
fresh-IsFree factory =
    storage_get_u256-storage_set_u256 slot_unlocked slot_unlocked 1 _ (omega arith) (omega arith)

initialized-Identity :
    (factory t0 t1 : ℕ)
    → Identity (factory % 2 ^ 256) (t0 % 2 ^ 256) (t1 % 2 ^ 256) (initialized t0 t1 (fresh factory))
initialized-Identity factory t0 t1 = (
  read slot_factory slot_unlocked 1 _ (omega arith) (omega arith) refl
      ∙ read slot_factory slot_token1 t1 _ (omega arith) (omega arith) refl
      ∙ read slot_factory slot_token0 t0 _ (omega arith) (omega arith) refl
      ∙ read slot_factory slot_unlocked 0 _ (omega arith) (omega arith) refl
      ∙ read slot_factory slot_unlocked 1 _ (omega arith) (omega arith) refl
      ∙ storage_get_u256-storage_set_u256 slot_factory slot_factory factory _ (omega arith)
          (omega arith),
  read slot_token0 slot_unlocked 1 _ (omega arith) (omega arith) refl
      ∙ read slot_token0 slot_token1 t1 _ (omega arith) (omega arith) refl
      ∙ storage_get_u256-storage_set_u256 slot_token0 slot_token0 t0 _ (omega arith) (omega arith),
  read slot_token1 slot_unlocked 1 _ (omega arith) (omega arith) refl
      ∙ storage_get_u256-storage_set_u256 slot_token1 slot_token1 t1 _ (omega arith) (omega arith),
)

-- A pair that is set up: it knows the factory and its tokens, and is unlocked.
pub record SetUp {F : Type 0} (factory t0 t1 : Bytes) (w : World F) : Type 0 where
  pub identity :
      Identity
        (address_word factory % 2 ^ 256)
        (address_word t0 % 2 ^ 256)
        (address_word t1 % 2 ^ 256)
        w.storage
  pub free : lock w ≡ 1

module _ {F : Type 0} (sel : Selectors) (abi : Decoders) (host : Host F) (hash : Bytes → Bytes)
    (a b : Bytes) (agrees : Agrees hash sel abi a b) where
  -- The call that the factory makes sets up a pair that its constructor has just left.
  pub encode_initialize-SetUp :
      (out : Bytes) (w v : World F)
      → w.storage ≡ fresh (address_word host.caller)
      → call sel abi host (encode_initialize hash a b) w ≡ (returned out, v)
      → SetUp host.caller a b v
  unfolding run encode_initialize
  encode_initialize-SetUp out w v built e =
      let input = encode_initialize hash a b in
      let (long, front) =
        encoded_selector (hash (codes "initialize(address,address)")) a b (agrees.long _) in
      let served : call sel abi host input w ≡ initialize abi host input w =
        call-run sel abi host agrees.distinct Entry.initialize input w long
          (front ∙ sym agrees.selector) in
      let done =
        initialize-next abi host input a b w agrees.decoded
          (ap (storage_get_u256 slot_unlocked) built ∙ fresh-IsFree _)
          (ap (λ st. storage_get_u256 slot_token0 (storage_set_u256 slot_unlocked 0 st)) built
            ∙ fresh-unset _) in
      let same : v.storage
          ≡ initialized (address_word a) (address_word b) (fresh (address_word host.caller)) =
        ap (λ (r : Exit (Unit {0}) × World F). r.1.storage) (sym e ∙ served ∙ done)
        ∙ ap (initialized (address_word a) (address_word b)) built in
      record {
        identity =
            subst
              (Identity (address_word host.caller % 2 ^ 256) (address_word a % 2 ^ 256)
                (address_word b % 2 ^ 256))
              (sym same)
              (initialized-Identity (address_word host.caller) (address_word a) (address_word b));
        free =
            ap (storage_get_u256 slot_unlocked) same
            ∙ storage_get_u256-storage_set_u256 slot_unlocked slot_unlocked 1 _ (omega arith)
                (omega arith);
      }
