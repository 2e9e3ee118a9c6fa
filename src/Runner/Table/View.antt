-- ===== src/Runner/Table/View.antt =====
-- The table as the storage that contracts see: a map that is total, with zeros where nothing is held.
use risc_v_rust.Base.{
  ℕ, zero, suc, ◌≡◌, refl, true, false, none, some, [], ◌∷◌, length, arith, if◌then◌else◌,
}
use risc_v_rust.Base.Bytes.{Bytes, bytes_eq, bytes_eq_iff, zeros}
use risc_v_rust.Uniswap.Host.{Storage, set_storage_or_clear}
use risc_v_rust.Runner.Table.{Table, lookup, remove, insert, get_or_zero, all_zero, set_or_clear}

abbrev pub view : Table → Storage
view t k = get_or_zero k t

lookup-remove :
    (k j : Bytes) (t : Table) → lookup j (remove k t) ≡ (if bytes_eq k j then none else lookup j t)
unfolding lookup remove
lookup-remove k j [] = ground arith
lookup-remove k j ((i, v) ∷ t) =
    ground (arith, lookup-remove k j t, bytes_eq_iff i k, bytes_eq_iff i j, bytes_eq_iff k j)

lookup-insert :
    (k j v : Bytes) (t : Table)
    → lookup j (insert k v t) ≡ (if bytes_eq k j then some v else lookup j t)
unfolding lookup insert
lookup-insert k j v t = ground (arith, lookup-remove k j t)

all_zero-eq : (n : ℕ) (v : Bytes) → length v ≡ n → all_zero v ≡ true → v ≡ zeros n
unfolding all_zero
all_zero-eq zero [] e h = refl
all_zero-eq zero (x ∷ v) e h = absurd (omega arith)
all_zero-eq (suc n) [] e h = absurd (omega arith)
all_zero-eq (suc n) (x ∷ v) e h = ground (arith, all_zero-eq n v)

-- The table refines the storage of the contracts: a write of 32 bytes is seen at its key, and nowhere
-- else, and clearing is writing zeros.
pub view-set_or_clear :
    (k j v : Bytes) (t : Table)
    → length v ≡ 32
    → view (set_or_clear k v t) j ≡ set_storage_or_clear k v (view t) j
unfolding set_or_clear get_or_zero set_storage_or_clear
view-set_or_clear k j v t e =
    ground (arith, lookup-remove k j t, lookup-insert k j v t, all_zero-eq 32 v e)

-- No zero value is held, and no key twice.
abbrev pub IsSparse : Table → Type 0
IsSparse [] = Unit {0}
IsSparse ((k, v) ∷ t) = (all_zero v ≡ false) × (lookup k t ≡ none) × IsSparse t

remove-IsSparse : (k : Bytes) (t : Table) → IsSparse t → IsSparse (remove k t)
unfolding remove
remove-IsSparse k [] h = tt
remove-IsSparse k ((j, v) ∷ t) h = ground (arith, remove-IsSparse k t h.2, lookup-remove k j t)

-- A write or a clearing keeps a table without zero values and without a key twice.
pub set_or_clear-IsSparse : (k v : Bytes) (t : Table) → IsSparse t → IsSparse (set_or_clear k v t)
unfolding set_or_clear insert
set_or_clear-IsSparse k v t h =
    ground (arith, remove-IsSparse k t h, lookup-remove k k t, bytes_eq_iff k k)

pub lookup-IsSparse :
    (k v : Bytes) (t : Table) → IsSparse t → lookup k t ≡ some v → all_zero v ≡ false
unfolding lookup
lookup-IsSparse k v [] h e = cc
lookup-IsSparse k v ((j, w) ∷ t) h e = ground (arith, lookup-IsSparse k v t h.2)
