-- ===== src/Gguf/Types.antt =====
-- GGUF value and tensor types of `src/core.c`: the enum of value types, the table `gguf_types`, and
-- sizes in bytes.
use tinyllama_c.Prelude.{
  ℕ, ◌+◌, ◌-◌, ◌*◌, ◌/◌, ◌%◌, ◌^◌, List, [], ◌∷◌, Option, none, some, ltb, ◌==◌, if◌then◌else◌,
  get_elem?, get_or,
}

pub data GgufValueType : Type 0 where
  uint8 int8 uint16 int16 uint32 int32 float32 bool string array uint64 int64 float64 :
      GgufValueType

-- The constructors in the order of their numbers, from 0.
abbrev pub value_types : List GgufValueType
value_types =
    uint8 ∷ int8 ∷ uint16 ∷ int16 ∷ uint32 ∷ int32 ∷ float32 ∷ bool ∷ string ∷ array ∷ uint64
    ∷ int64 ∷ float64 ∷ []

-- A number read from the file as the enum; `none` is the `default` of every switch.
unfoldable pub value_type : ℕ → Option GgufValueType
value_type n = get_elem? value_types n

-- `GGUFTypeInfo`, less the name, which is only printed.
pub record GgufTypeInfo : Type 0 where
  pub block_elems : ℕ
  pub block_bytes : ℕ

abbrev block : ℕ → ℕ → Option GgufTypeInfo
block elems bytes = some (record { block_elems = elems; block_bytes = bytes })

-- By type number; a gap in the designated initialisers has no name, hence `none`.
unfoldable pub gguf_types : List (Option GgufTypeInfo)
gguf_types =
    block 1 4
    ∷ block 1 2
    ∷ block 32 18
    ∷ block 32 20
    ∷ none
    ∷ none
    ∷ block 32 22
    ∷ block 32 24
    ∷ block 32 34
    ∷ block 32 40
    ∷ block 256 84
    ∷ block 256 110
    ∷ block 256 144
    ∷ block 256 176
    ∷ block 256 210
    ∷ block 256 292
    ∷ block 256 66
    ∷ block 256 74
    ∷ block 256 98
    ∷ block 256 110
    ∷ block 32 18
    ∷ block 256 110
    ∷ block 256 82
    ∷ block 256 136
    ∷ block 1 1
    ∷ block 1 2
    ∷ block 1 4
    ∷ block 1 8
    ∷ block 1 8
    ∷ block 256 56
    ∷ block 1 2
    ∷ []

-- NULL for an unknown type.
unfoldable pub tensor_type : ℕ → Option GgufTypeInfo
unfolding gguf_types
tensor_type type = get_or gguf_types type none

-- The size of whole blocks, in wrapping `u64` arithmetic; `none` for `false`.
bytes_of : GgufTypeInfo → ℕ → Option ℕ
bytes_of info n_element =
    let blocks = (n_element + info.block_elems + 2 ^ 64 - 1) % 2 ^ 64 / info.block_elems in
    if info.block_elems == 0
    then none
    else if ltb ((2 ^ 64 - 1) / info.block_bytes) blocks
    then none
    else some (blocks * info.block_bytes)

unfoldable pub tensor_bytes : ℕ → ℕ → Option ℕ
unfolding bytes_of
tensor_bytes type n_element = elim (tensor_type type) [
  | none ↦ none
  | some info ↦ bytes_of info n_element
]
