-- ===== src/Uniswap/FirstMatch.antt =====
-- A chain of `if selector == .. { .. }` as a table: the first entry with the key is taken.
use risc_v_rust.Base.{
  ℕ, zero, suc, ◌≡◌, ◌≢◌, refl, sym, ap, some, List, [], ◌∷◌, get_elem?, Bool-cases, inl, inr,
  if◌then◌else◌,
}
use risc_v_rust.Base.Bytes.{Bytes, bytes_eq, bytes_eq_iff, bytes_eq_refl, bytes_eq_ne}

abbrev pub first_match : {A : Type 0} → Bytes → List (Bytes × A) → A → A
first_match key [] other = other
first_match key ((k, a) ∷ rest) other = if bytes_eq key k then a else first_match key rest other

module _ {F A : Type 0} (key_of : F → Bytes) (value_of : F → A) (other : A) where
  abbrev pub table : List F → List (Bytes × A)
  table [] = []
  table (f ∷ fs) = (key_of f, value_of f) ∷ table fs

  -- Where keys differ, the table gives each listed entry its value.
  pub first_match-table :
      ((f g : F) → key_of f ≡ key_of g → f ≡ g)
      → (fs : List F) (n : ℕ) (f : F) → get_elem? fs n ≡ some f
      → first_match (key_of f) (table fs) other ≡ value_of f
  first_match-table distinct [] n f e = cc
  first_match-table distinct (g ∷ fs) zero f e =
      let same : g ≡ f = cc in rw (same, bytes_eq_refl (key_of f))
  first_match-table distinct (g ∷ fs) (suc n) f e =
      elim (Bool-cases (bytes_eq (key_of f) (key_of g))) [
        | inl h ↦ rw h (ap value_of (sym (distinct f g ((bytes_eq_iff _ _).0 h))))
        | inr h ↦ rw h (first_match-table distinct fs n f e)
      ]

  -- A key that no entry has.
  pub first_match-absent :
      (key : Bytes) (fs : List F)
      → ((f : F) → key ≢ key_of f)
      → first_match key (table fs) other ≡ other
  first_match-absent key [] absent = refl
  first_match-absent key (f ∷ fs) absent =
      rw (bytes_eq_ne key (key_of f) (absent f)) (first_match-absent key fs absent)
