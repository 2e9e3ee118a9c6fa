-- ===== src/Uniswap/Host/Goes.antt =====
-- Steps that never return from the contract by themselves, and code that, when it returns, leaves
-- the world as some predicate says.
use risc_v_rust.Base.{ℕ, Bool, true, false, Option, none, some, ◌/◌, ◌≡◌, ◌==◌, if◌then◌else◌}
use risc_v_rust.Base.Bytes.{Bytes}
use risc_v_rust.Uniswap.Host.{
  Exit, next, returned, reverted, trapped, Storage, World, M, pure, gets, modify, revert, revert_if,
  when, unwrap, unwrap_or_revert, checked_div, external, ◌>>=◌,
}

abbrev pub IsOpen : {A : Type 0} → Exit A → Type 0
IsOpen (next a) = Unit {0}
IsOpen (returned d) = ⊥
IsOpen reverted = Unit {0}
IsOpen trapped = Unit {0}

IsOpen-if :
    {A : Type 0} (b : Bool) (x y : Exit A) → IsOpen x → IsOpen y → IsOpen (if b then x else y)
IsOpen-if true x y hx hy = hx
IsOpen-if false x y hx hy = hy

module _ {E : Type 0} where
  -- `m` goes on, reverts or traps.
  pub record GoesOn {A : Type 0} (m : M E A) : Type 0 where
    pub at : (w : World E) → IsOpen (m w).0

  module _ {A : Type 0} where
    pub GoesOn-pure : (a : A) → GoesOn (pure a)
    unfolding pure
    GoesOn-pure a = record { at = λ w. tt }

    pub GoesOn-gets : (f : Storage → A) → GoesOn (gets f)
    unfolding gets
    GoesOn-gets f = record { at = λ w. tt }

    pub GoesOn-if : (b : Bool) (m n : M E A) → GoesOn m → GoesOn n → GoesOn (if b then m else n)
    GoesOn-if true m n hm hn = hm
    GoesOn-if false m n hm hn = hn

    pub GoesOn-unwrap_or_revert : (o : Option A) → GoesOn (unwrap_or_revert o)
    unfolding unwrap_or_revert
    GoesOn-unwrap_or_revert none = record { at = λ w. tt }
    GoesOn-unwrap_or_revert (some a) = record { at = λ w. tt }

    pub GoesOn-unwrap : (o : Option A) → GoesOn (unwrap o)
    unfolding unwrap
    GoesOn-unwrap none = record { at = λ w. tt }
    GoesOn-unwrap (some a) = record { at = λ w. tt }

    pub GoesOn-revert : GoesOn (revert {A = A})
    unfolding revert
    GoesOn-revert = record { at = λ w. tt }

    pub GoesOn-test :
        (b : World E → Bool) (a : World E → A)
        → GoesOn (λ w. (if b w then next (a w) else trapped, w))
    GoesOn-test b a = record { at = λ w. IsOpen-if (b w) (next (a w)) trapped tt tt }

  pub GoesOn-modify : (f : Storage → Storage) → GoesOn (modify f)
  unfolding modify
  GoesOn-modify f = record { at = λ w. tt }

  pub GoesOn-when : (b : Bool) (m : M E (Unit {0})) → GoesOn m → GoesOn (when b m)
  unfolding when
  GoesOn-when true m hm = record { at = hm.at }
  GoesOn-when false m hm = record { at = λ w. tt }

  pub GoesOn-revert_if : (b : Bool) → GoesOn (revert_if b)
  unfolding revert_if
  GoesOn-revert_if b = record { at = λ w. IsOpen-if b reverted (next tt) tt tt }

  pub GoesOn-external : (f : World E → Option Bytes × World E) → GoesOn (external f)
  unfolding external
  GoesOn-external f = record { at = λ w. tt }

  pub GoesOn-checked_div : (a b : ℕ) → GoesOn (checked_div a b)
  unfolding checked_div
  GoesOn-checked_div a b = record { at = λ w. IsOpen-if (b == 0) trapped (next (a / b)) tt tt }

  module _ {A B : Type 0} where
    GoesOn-out :
        (f : A → M E B) (out : Exit A × World E)
        → IsOpen out.0
        → ((a : A) → GoesOn (f a))
        → IsOpen (◌>>=◌ (λ _. out) f out.1).0
    unfolding ◌>>=◌
    GoesOn-out f (next a, w) h hf = (hf a).at w
    GoesOn-out f (returned d, w) h hf = h
    GoesOn-out f (reverted, w) h hf = tt
    GoesOn-out f (trapped, w) h hf = tt

    pub GoesOn-bind :
        (m : M E A) (f : A → M E B) → GoesOn m → ((a : A) → GoesOn (f a)) → GoesOn (m >>= f)
    unfolding ◌>>=◌
    GoesOn-bind m f hm hf = record { at = λ w. GoesOn-out f (m w) (hm.at w) hf }

  abbrev pub ReturnedIn : {A : Type 0} → (World E → Type 0) → Exit A × World E → Type 0
  ReturnedIn P (next a, w) = Unit {0}
  ReturnedIn P (returned d, w) = P w
  ReturnedIn P (reverted, w) = Unit {0}
  ReturnedIn P (trapped, w) = Unit {0}

  -- Where `m` returns from the contract, it does so in a world with `P`.
  pub record Returns (P : World E → Type 0) (m : M E (Unit {0})) : Type 0 where
    pub at : (w : World E) → ReturnedIn P (m w)

  module _ {A : Type 0} (P : World E → Type 0) where
    Returns-out :
        (f : A → M E (Unit {0})) (out : Exit A × World E)
        → IsOpen out.0
        → ((a : A) → Returns P (f a))
        → ReturnedIn P (◌>>=◌ (λ _. out) f out.1)
    unfolding ◌>>=◌
    Returns-out f (next a, w) h hf = (hf a).at w
    Returns-out f (returned d, w) h hf = elim h [ ]
    Returns-out f (reverted, w) h hf = tt
    Returns-out f (trapped, w) h hf = tt

    pub Returns-bind :
        (m : M E A) (f : A → M E (Unit {0}))
        → GoesOn m
        → ((a : A) → Returns P (f a))
        → Returns P (m >>= f)
    unfolding ◌>>=◌
    Returns-bind m f hm hf = record { at = λ w. Returns-out f (m w) (hm.at w) hf }

  pub ReturnedIn-eq :
      {A : Type 0} (P : World E → Type 0) (out : Exit A × World E) {d : Bytes}
      → out.0 ≡ returned d
      → ReturnedIn P out
      → P out.1
  ReturnedIn-eq P (next a, w) e h = cc
  ReturnedIn-eq P (returned d, w) e h = h
  ReturnedIn-eq P (reverted, w) e h = cc
  ReturnedIn-eq P (trapped, w) e h = cc

  -- What it says of a call that returned.
  pub Returns-returned :
      (P : World E → Type 0) (m : M E (Unit {0})) (w : World E) {d : Bytes}
      → Returns P m
      → (m w).0 ≡ returned d
      → P (m w).1
  Returns-returned P m w h e = ReturnedIn-eq P (m w) e (h.at w)

pub ruleset goes_on = (
  GoesOn-pure, GoesOn-gets, GoesOn-if, GoesOn-unwrap_or_revert, GoesOn-unwrap, GoesOn-revert,
  GoesOn-modify, GoesOn-when, GoesOn-revert_if, GoesOn-external, GoesOn-checked_div, GoesOn-bind,
)
