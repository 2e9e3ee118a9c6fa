-- ===== src/Uniswap/Host/Ensures.antt =====
-- Sequences of steps: where the first step's end is known, and what holds when a piece of code goes
-- on and when the call returns normally. A call that reverts or traps is rolled back by the host, so
-- nothing is asked of it.
use risc_v_rust.Base.{◌≡◌, refl, ap, Option, none, some}
use risc_v_rust.Base.Bytes.{Bytes}
use risc_v_rust.Uniswap.Host.{
  Exit, next, returned, reverted, trapped, Storage, World, M, gets, unwrap_or_revert, ◌>>=◌,
}
use risc_v_rust.Uniswap.Host.Goes.{GoesOn, IsOpen}

module _ {E : Type 0} where
  module _ {A B : Type 0} (m : M E A) (f : A → M E B) (w : World E) where
    -- A first step that reverts ends the call.
    pub bind-reverted : {w' : World E} → m w ≡ (reverted, w') → (m >>= f) w ≡ (reverted, w')
    unfolding ◌>>=◌
    bind-reverted e = ap (λ out. ◌>>=◌ (λ _. out) f w) e

    -- After a first step that goes on, the rest runs.
    pub bind-next : {a : A} {w' : World E} → m w ≡ (next a, w') → (m >>= f) w ≡ f a w'
    unfolding ◌>>=◌
    bind-next e = ap (λ out. ◌>>=◌ (λ _. out) f w) e

  abbrev Holds :
      {A : Type 0} → (A → World E → Type 0) → (Bytes → World E → Type 0) → Exit A × World E → Type 0
  Holds q r (next a, w) = q a w
  Holds q r (returned d, w) = r d w
  Holds q r (reverted, w) = Unit {0}
  Holds q r (trapped, w) = Unit {0}

  -- The end `out` meets `q` if it goes on, and `r` if the call returns.
  pub record Ensures {A : Type 0} (q : A → World E → Type 0) (r : Bytes → World E → Type 0)
      (out : Exit A × World E) : Type 0 where
    pub holds : Holds q r out

  module _ {A B : Type 0} (q : B → World E → Type 0) (r : Bytes → World E → Type 0) where
    Ensures-out :
        (f : A → M E B) (p : A → World E → Type 0) (out : Exit A × World E)
        → Holds p r out
        → ((a : A) (w : World E) → p a w → Ensures q r (f a w))
        → Holds q r (◌>>=◌ (λ _. out) f out.1)
    unfolding ◌>>=◌
    Ensures-out f p (next a, w) h k = (k a w h).holds
    Ensures-out f p (returned d, w) h k = h
    Ensures-out f p (reverted, w) h k = tt
    Ensures-out f p (trapped, w) h k = tt

    -- The rule of sequence, with what holds in between.
    pub Ensures-bind :
        (p : A → World E → Type 0) (m : M E A) (f : A → M E B) (w : World E)
        → Ensures p r (m w)
        → ((a : A) (w' : World E) → p a w' → Ensures q r (f a w'))
        → Ensures q r ((m >>= f) w)
    unfolding ◌>>=◌
    Ensures-bind p m f w h k = record { holds = Ensures-out f p (m w) h.holds k }

  open-Holds :
      {A : Type 0} (r : Bytes → World E → Type 0) (out : Exit A × World E)
      → IsOpen out.0
      → Holds (λ _ _. Unit {0}) r out
  open-Holds r (next a, w) h = tt
  open-Holds r (returned d, w) h = elim h [ ]
  open-Holds r (reverted, w) h = tt
  open-Holds r (trapped, w) h = tt

  module _ {A B : Type 0} (q : B → World E → Type 0) (r : Bytes → World E → Type 0) where
    -- The rule for a first step of which nothing need be known.
    pub Ensures-goes :
        (m : M E A) (f : A → M E B) (w : World E)
        → GoesOn m
        → ((a : A) (w' : World E) → Ensures q r (f a w'))
        → Ensures q r ((m >>= f) w)
    Ensures-goes m f w h k =
        Ensures-bind q r (λ _ _. Unit {0}) m f w (record { holds = open-Holds r (m w) (h.at w) })
          (λ a w' _. k a w')

  open-runs :
      {A : Type 0} (r : Bytes → World E → Type 0) (out : Exit A × World E)
      → IsOpen out.0
      → Holds (λ a w'. out ≡ (next a, w')) r out
  open-runs r (next a, w) h = refl
  open-runs r (returned d, w) h = elim h [ ]
  open-runs r (reverted, w) h = tt
  open-runs r (trapped, w) h = tt

  module _ {A B : Type 0} (q : B → World E → Type 0) (r : Bytes → World E → Type 0) where
    -- The rule for a first step of which it is kept how it ran.
    pub Ensures-runs :
        (m : M E A) (f : A → M E B) (w : World E)
        → GoesOn m
        → ((a : A) (w' : World E) → m w ≡ (next a, w') → Ensures q r (f a w'))
        → Ensures q r ((m >>= f) w)
    Ensures-runs m f w h k =
        Ensures-bind q r (λ a w'. m w ≡ (next a, w')) m f w
          (record { holds = open-runs r (m w) (h.at w) }) k

  Holds-eq :
      {A : Type 0} (q : A → World E → Type 0) (r : Bytes → World E → Type 0)
      (out : Exit A × World E) {d : Bytes}
      → out.0 ≡ returned d
      → Holds q r out
      → (d' : Bytes) × (d' ≡ d) × r d' out.1
  Holds-eq q r (next a, w) e h = cc
  Holds-eq q r (returned d', w) e h = (d', cc, h)
  Holds-eq q r (reverted, w) e h = cc
  Holds-eq q r (trapped, w) e h = cc

  -- What it says of a call that returned.
  pub Ensures-returned :
      {A : Type 0} (q : A → World E → Type 0) (r : Bytes → World E → Type 0)
      (out : Exit A × World E) {d : Bytes}
      → Ensures q r out
      → out.0 ≡ returned d
      → (d' : Bytes) × (d' ≡ d) × r d' out.1
  Ensures-returned q r out h e = Holds-eq q r out e h.holds

  module _ {A : Type 0} (r : Bytes → World E → Type 0) (w : World E) where
    pub Ensures-gets :
        (f : Storage → A) → Ensures (λ a w'. (a ≡ f w.storage) × (w' ≡ w)) r (gets f w)
    unfolding gets
    Ensures-gets f = record { holds = (refl, refl) }

    pub Ensures-unwrap_or_revert :
        (o : Option A) → Ensures (λ a w'. (o ≡ some a) × (w' ≡ w)) r (unwrap_or_revert o w)
    unfolding unwrap_or_revert
    Ensures-unwrap_or_revert none = record { holds = tt }
    Ensures-unwrap_or_revert (some a) = record { holds = (refl, refl) }
