-- ===== src/Runner/Loader.antt =====
-- The loaders of bytecode (pvm/src/main.rs, lines 17 to 59).
pub mod Cut
pub mod Hex
use risc_v_rust.Base.{
  ℕ, suc, ◌+◌, Bool, true, false, ◌&&◌, ◌||◌, Option, none, some, List, [], ◌∷◌, reverse, length,
  take, drop, get_elem?, ◌==◌, ltb, if◌then◌else◌, String,
}
use risc_v_rust.Base.Bytes.{Bytes}
use risc_v_rust.Runner.Engine.{Result, ok, err}

-- `std::fs` and the hex decoder of alloy, with the errors they print. A text is the list of its code points.
pub record Files : Type 0 where
  pub read : String → Result Bytes String
  pub read_to_string : String → Result (List ℕ) String
  pub hex_decode : List ℕ → Result Bytes String

pub data LoadError : Type 0 where
  read_failed invalid_hex : String → LoadError

-- The white space of Unicode, which `trim` takes off.
unfoldable pub is_whitespace : ℕ → Bool
is_whitespace c =
    (ltb 8 c && ltb c 14)
    || c == 0x20
    || c == 0x85
    || c == 0xa0
    || c == 0x1680
    || (ltb 0x1fff c && ltb c 0x200b)
    || c == 0x2028
    || c == 0x2029
    || c == 0x202f
    || c == 0x205f
    || c == 0x3000

unfoldable pub trim_start : List ℕ → List ℕ
trim_start [] = []
trim_start (c ∷ s) = if is_whitespace c then trim_start s else c ∷ s

unfoldable pub trim : List ℕ → List ℕ
trim s = reverse (trim_start (reverse (trim_start s)))

-- `strip_prefix("0x")` with its `unwrap_or`.
unfoldable pub strip_0x : List ℕ → List ℕ
strip_0x (a ∷ b ∷ s) = if a == 0x30 && b == 0x78 then s else a ∷ b ∷ s
strip_0x s = s

-- `iter().position(|&b| b == 0xf3)`
unfoldable pub position_of_return : Bytes → Option ℕ
position_of_return [] = none
position_of_return (b ∷ bs) =
    if b == 0xf3
    then some 0
    else elim (position_of_return bs) [ none ↦ none | some i ↦ some (suc i) ]

-- The two computations of `init_len`, and the split. `full[init_len]` is in range where it is read.
unfoldable pub after_return : Bytes → ℕ
after_return full = elim (position_of_return full) [ none ↦ 0 | some i ↦ i + 1 ]

unfoldable pub alternate_offset : ℕ → Option ℕ → ℕ
alternate_offset init_len none = init_len
alternate_offset init_len (some first) =
    if first == 0xf3 || first == 0x90 then init_len + 1 else init_len

unfoldable pub init_len : Bytes → ℕ
init_len full =
    let n = after_return full in
    if ltb 0 n && ltb n (length full) then alternate_offset n (get_elem? full n) else n

unfoldable pub split_code : Bytes → Bytes × Bytes
split_code full =
    let n = init_len full in
    if ltb n (length full) && ltb 0 n then (take n full, drop n full) else (full, [])

module _ (files : Files) where
  unfoldable pub load_evm_bytecode : Result (Bytes × Bytes) LoadError
  load_evm_bytecode = elim (files.read_to_string "bytecode/evm/arithmetic.bin") [
    | err e ↦ err (read_failed e)
    | ok hex_str ↦ elim (files.hex_decode (strip_0x (trim hex_str))) [
      | err e ↦ err (invalid_hex e)
      | ok full ↦ ok (split_code full)
    ]
  ]

  unfoldable pub load_raw_bytecode : String → Result Bytes LoadError
  load_raw_bytecode path = elim (files.read path) [
    | err e ↦ err (read_failed e)
    | ok bytes ↦ ok bytes
  ]

  unfoldable pub load_polkavm_bytecode : Result Bytes LoadError
  load_polkavm_bytecode = load_raw_bytecode "bytecode/polkavm/arithmetic.polkavm"
