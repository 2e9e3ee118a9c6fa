-- ===== src/Runner/Table.antt =====
-- The runner's persistent storage, a `HashMap` from 32-byte keys to 32-byte values (line 101).
pub mod View
use risc_v_rust.Base.{
  ℕ, Bool, true, false, Option, none, some, List, [], ◌∷◌, ◌&&◌, ◌==◌, if◌then◌else◌,
}
use risc_v_rust.Base.Bytes.{Bytes, bytes_eq, zeros}

abbrev pub Table : Type 0
Table = List (Bytes × Bytes)

-- `HashMap::get`, `remove`, `insert` and `contains_key`.
unfoldable pub lookup : Bytes → Table → Option Bytes
lookup k [] = none
lookup k ((j, v) ∷ t) = if bytes_eq j k then some v else lookup k t

unfoldable pub remove : Bytes → Table → Table
remove k [] = []
remove k ((j, v) ∷ t) = let rest = remove k t in if bytes_eq j k then rest else (j, v) ∷ rest

unfoldable pub insert : Bytes → Bytes → Table → Table
unfolding remove
insert k v t = (k, v) ∷ remove k t

unfoldable pub contains_key : Bytes → Table → Bool
contains_key k t = elim (lookup k t) [ none ↦ false | some _ ↦ true ]

-- `self.storage.get(&key).copied().unwrap_or([0u8; 32])`
unfoldable pub get_or_zero : Bytes → Table → Bytes
get_or_zero k t = elim (lookup k t) [ none ↦ zeros 32 | some v ↦ v ]

-- `value.iter().all(|&b| b == 0)`
unfoldable pub all_zero : Bytes → Bool
all_zero [] = true
all_zero (b ∷ bs) = b == 0 && all_zero bs

-- The two branches of `set_storage_or_clear`.
unfoldable pub set_or_clear : Bytes → Bytes → Table → Table
set_or_clear k v t = if all_zero v then remove k t else insert k v t
