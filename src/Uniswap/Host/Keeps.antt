-- ===== src/Uniswap/Host/Keeps.antt =====
-- Invariants of the contract's storage: what a piece of code keeps where it goes on or returns. A
-- call of another contract may come back into this one, so what such calls keep is a premise.
use risc_v_rust.Base.{ℕ, Bool, true, false, Option, none, some, ◌≡◌, ◌==◌, ◌/◌, if◌then◌else◌}
use risc_v_rust.Base.Bytes.{Bytes}
use risc_v_rust.Uniswap.Host.{
  Exit, next, returned, reverted, trapped, Storage, World, M, Host, pure, gets, modify, revert,
  return_value, revert_if, when, unwrap_or_revert, unwrap, checked_div, external, ◌>>=◌,
}

module _ {E : Type 0} (P : Storage → Type 0) where
  abbrev pub Kept : {A : Type 0} → Exit A × World E → Type 0
  Kept (next a, w) = P w.storage
  Kept (returned d, w) = P w.storage
  Kept (reverted, w) = Unit {0}
  Kept (trapped, w) = Unit {0}

  -- `m` keeps `P` where it goes on or returns; a call that reverts or traps is rolled back.
  pub record Keeps {A : Type 0} (m : M E A) : Type 0 where
    pub at : (w : World E) → P w.storage → Kept (m w)

  -- The calls of other contracts keep `P`.
  pub record CalleesKeep (host : Host E) : Type 0 where
    pub call_evm : (a b c : Bytes) (w : World E) → P w.storage → P (host.call_evm a b c w).1.storage
    pub call : (a b : Bytes) (w : World E) → P w.storage → P (host.call a b w).1.storage
    pub instantiate : (a : Bytes) (w : World E) → P w.storage → P (host.instantiate a w).1.storage

module _ {E : Type 0} (P : Storage → Type 0) where
  Kept-if :
      {A : Type 0} (b : Bool) (x y : Exit A) (w : World E)
      → Kept P (x, w)
      → Kept P (y, w)
      → Kept P (if b then x else y, w)
  Kept-if true x y w h k = h
  Kept-if false x y w h k = k

  Kept-returned :
      {A : Type 0} (out : Exit A × World E) {d : Bytes}
      → out.0 ≡ returned d
      → Kept P out
      → P out.1.storage
  Kept-returned (next a, w) e h = h
  Kept-returned (returned d, w) e h = h
  Kept-returned (reverted, w) e h = cc
  Kept-returned (trapped, w) e h = cc

module _ {E : Type 0} {P : Storage → Type 0} where
  module _ {A : Type 0} where
    pub Keeps-pure : (a : A) → Keeps P (pure {E = E} a)
    unfolding pure
    Keeps-pure a = record { at = λ w h. h }

    pub Keeps-gets : (f : Storage → A) → Keeps P (gets {E = E} f)
    unfolding gets
    Keeps-gets f = record { at = λ w h. h }

    pub Keeps-revert : Keeps P (revert {E = E} {A = A})
    unfolding revert
    Keeps-revert = record { at = λ w h. tt }

    pub Keeps-return_value : (d : Bytes) → Keeps P (return_value {E = E} {A = A} d)
    unfolding return_value
    Keeps-return_value d = record { at = λ w h. h }

    pub Keeps-unwrap_or_revert : (o : Option A) → Keeps P (unwrap_or_revert {E = E} o)
    unfolding unwrap_or_revert
    Keeps-unwrap_or_revert none = record { at = λ w h. tt }
    Keeps-unwrap_or_revert (some a) = record { at = λ w h. h }

    pub Keeps-unwrap : (o : Option A) → Keeps P (unwrap {E = E} o)
    unfolding unwrap
    Keeps-unwrap none = record { at = λ w h. tt }
    Keeps-unwrap (some a) = record { at = λ w h. h }

    pub Keeps-if : (b : Bool) (m n : M E A) → Keeps P m → Keeps P n → Keeps P (if b then m else n)
    Keeps-if true m n km kn = km
    Keeps-if false m n km kn = kn

    pub Keeps-test :
        (b : World E → Bool) (a : World E → A)
        → Keeps P (λ w. (if b w then next (a w) else trapped, w))
    Keeps-test b a = record { at = λ w h. Kept-if P (b w) (next (a w)) trapped w h tt }

  pub Keeps-modify :
      (f : Storage → Storage) → ((st : Storage) → P st → P (f st)) → Keeps P (modify {E = E} f)
  unfolding modify
  Keeps-modify f keep = record { at = λ w h. keep w.storage h }

  pub Keeps-when : (b : Bool) (m : M E (Unit {0})) → Keeps P m → Keeps P (when b m)
  unfolding when
  Keeps-when true m k = record { at = k.at }
  Keeps-when false m k = record { at = λ w h. h }

  pub Keeps-revert_if : (b : Bool) → Keeps P (revert_if {E = E} b)
  unfolding revert_if
  Keeps-revert_if b = record { at = λ w h. Kept-if P b reverted (next tt) w tt h }

  pub Keeps-checked_div : (a b : ℕ) → Keeps P (checked_div {E = E} a b)
  unfolding checked_div
  Keeps-checked_div a b = record { at = λ w h. Kept-if P (b == 0) trapped (next (a / b)) w tt h }

  pub Keeps-external :
      (f : World E → Option Bytes × World E)
      → ((w : World E) → P w.storage → P (f w).1.storage)
      → Keeps P (external f)
  unfolding external
  Keeps-external f keep = record { at = keep }

  module _ {A B : Type 0} where
    Keeps-out :
        (f : A → M E B) (out : Exit A × World E)
        → Kept P out
        → ((a : A) → Keeps P (f a))
        → Kept P (◌>>=◌ (λ _. out) f out.1)
    unfolding ◌>>=◌
    Keeps-out f (next a, w) h kf = (kf a).at w h
    Keeps-out f (returned d, w) h kf = h
    Keeps-out f (reverted, w) h kf = tt
    Keeps-out f (trapped, w) h kf = tt

    pub Keeps-bind :
        (m : M E A) (f : A → M E B) → Keeps P m → ((a : A) → Keeps P (f a)) → Keeps P (m >>= f)
    unfolding ◌>>=◌
    Keeps-bind m f km kf = record { at = λ w h. Keeps-out f (m w) (km.at w h) kf }

  -- What it says of a call that returned.
  pub Keeps-returned :
      {A : Type 0} (m : M E A) (w : World E) {d : Bytes}
      → Keeps P m
      → (m w).0 ≡ returned d
      → P w.storage
      → P (m w).1.storage
  Keeps-returned m w k e h = Kept-returned P (m w) e (k.at w h)

pub ruleset keeps_rules = (
  Keeps-pure, Keeps-gets, Keeps-revert, Keeps-return_value, Keeps-unwrap_or_revert, Keeps-unwrap,
  Keeps-if, Keeps-modify, Keeps-when, Keeps-revert_if, Keeps-checked_div, Keeps-external,
  Keeps-bind,
)
