-- ===== src/Gguf/Model.antt =====
-- Metadata of a model, `src/core.c`: the entries, the reads by key, and what is derived from names.
-- `slog(ERROR, ...)` ends the process: in the loaders that is the `none` of a reader.
pub mod Metadata
use mathlib.Core.Option
use tinyllama_c.Prelude.{
  ℕ, zero, suc, ◌+◌, ◌-◌, ◌*◌, ◌%◌, ◌^◌, Bool, true, false, ◌&&◌, List, [], ◌∷◌, ◌++◌, Option, none,
  some, ltb, leb, ◌==◌, if◌then◌else◌, length, get_or, take, drop, codes, min,
}
use tinyllama_c.Vocab.Key.{Key, key_eq}
use tinyllama_c.Gguf.Types.{GgufTypeInfo}
use tinyllama_c.Gguf.Cursor.{
  Cursor, Reader, ◌>>=◌, return, cursor_at, cursor_u32, cursor_u64, cursor_key, cursor_skip_value,
}

pub record Kv : Type 0 where
  pub key : Key
  pub type : ℕ
  pub value_pos : ℕ

pub record ArrayRef : Type 0 where
  pub type : ℕ
  pub len : ℕ
  pub data_pos : ℕ

-- `dim` has `ndim` entries; `data` is `map + offset`.
pub record TensorInfo : Type 0 where
  pub key : Key
  pub dim : List ℕ
  pub type : ℕ
  pub offset : ℕ
  pub n_element : ℕ
  pub bytes : ℕ
  pub padded_dim : ℕ

pub data ModelArch : Type 0 where
  arch_unknown llama qwen2 qwen3 deepseek falcon falcon_h1 gemma3 : ModelArch

pub record Model : Type 0 where
  pub map : List ℕ
  pub size : ℕ
  pub version : ℕ
  pub n_kv : ℕ
  pub n_tensor : ℕ
  pub alignment : ℕ
  pub arch : ModelArch
  pub arch_name : List ℕ
  pub kv : List Kv
  pub tensor : List TensorInfo

-- `key_streq`, for a string without NUL bytes.
unfoldable pub key_streq : Key → List ℕ → Bool
key_streq k s = key_eq k s

unfoldable pub find_kv : List Kv → List ℕ → Option Kv
find_kv [] s = none
find_kv (e ∷ es) s = if key_streq e.key s then some e else find_kv es s

unfoldable pub model_find_kv : Model → List ℕ → Option Kv
model_find_kv m s = find_kv m.kv s

-- The result of a reader at a position of the file.
unfoldable pub read_at : {A : Type 0} → Model → ℕ → Reader A → Option A
read_at m pos reader = (reader (cursor_at m.map m.size pos)).0

-- A value of one type.
unfoldable pub get_typed : {A : Type 0} → Model → List ℕ → ℕ → Reader A → Option A
get_typed m s type reader =
    Option.bind (model_find_kv m s)
      (λ e. if e.type == type then read_at m e.value_pos reader else none)

unfoldable pub model_get_key : Model → List ℕ → Option Key
model_get_key m s = get_typed m s 8 cursor_key

-- `c.post`
unfoldable pub position : Reader ℕ
position c = (some c.post, c)

unfoldable pub array_header : Reader ArrayRef
array_header = do
  type ← cursor_u32
  len ← cursor_u64
  pos ← position
  return (record { type = type; len = len; data_pos = pos })

unfoldable pub model_get_array : Model → List ℕ → Option ArrayRef
model_get_array m s = get_typed m s 9 array_header

-- The bit pattern of the `i32`; likewise of the `float`.
unfoldable pub model_get_i32 : Model → List ℕ → Option ℕ
model_get_i32 m s = get_typed m s 4 cursor_u32

unfoldable pub model_get_f32 : Model → List ℕ → Option ℕ
model_get_f32 m s = get_typed m s 6 cursor_u32

-- The architecture of a name, `none` where the process ends.
unfoldable pub arch_of : Key → Option ModelArch
arch_of name =
    if key_streq name (codes "llama")
    then some llama
    else if key_streq name (codes "qwen2")
    then some qwen2
    else if key_streq name (codes "qwen35")
    then some qwen3
    else if key_streq name (codes "deepseek2")
    then some deepseek
    else if key_streq name (codes "falcon")
    then some falcon
    else if key_streq name (codes "falcon-h1")
    then some falcon_h1
    else if key_streq name (codes "gemma3")
    then some gemma3
    else none

-- The architecture and `arch_name`, which holds 31 bytes of the name.
unfoldable pub model_detect_arch : Model → Option (ModelArch × List ℕ)
model_detect_arch m = elim (model_get_key m (codes "general.architecture")) [
  | none ↦ some (arch_unknown, m.arch_name)
  | some name ↦ Option.map (λ a. (a, take (min (length name) 31) name)) (arch_of name)
]

unfoldable pub find_tensor : List TensorInfo → List ℕ → Option TensorInfo
find_tensor [] name = none
find_tensor (t ∷ ts) name = if key_streq t.key name then some t else find_tensor ts name

unfoldable pub model_find_tensor : Model → List ℕ → Option TensorInfo
model_find_tensor m name = find_tensor m.tensor name

-- The number that a text begins with, in `u32`, how many digits it has, and the rest.
unfoldable pub scan_number : ℕ → ℕ → List ℕ → ℕ × ℕ × List ℕ
scan_number n digits [] = (n, digits, [])
scan_number n digits (c ∷ cs) =
    let rest = scan_number ((n * 10 + (c - b'0')) % 2 ^ 32) (digits + 1) cs in
    if leb b'0' c && leb c b'9' then rest else (n, digits, c ∷ cs)

-- The layer of a name "blk.{N}....".
unfoldable pub layer_of_name : Key → Option ℕ
layer_of_name k =
    let (n, digits, rest) = scan_number 0 0 (drop 4 k) in
    if ltb (length k) 5
    then none
    else if key_eq (take 4 k) (codes "blk.")
    then (if ltb 0 digits && get_or rest 0 0 == b'.' then some n else none)
    else none

unfoldable pub max_layer : ℕ → List TensorInfo → ℕ
max_layer max_n [] = max_n
max_layer max_n (t ∷ ts) =
    max_layer
      (elim (layer_of_name t.key) [ none ↦ max_n | some n ↦ if leb max_n n then n else max_n ]) ts

unfoldable pub model_count_layers : Model → ℕ
model_count_layers m = (max_layer 0 m.tensor + 1) % 2 ^ 32

-- `general.alignment`, read at `pos`; it stays when it cannot be read, or is 0.
unfoldable pub alignment_or : Option ℕ → ℕ → ℕ
alignment_or none alignment = alignment
alignment_or (some a) alignment = if a == 0 then alignment else a

unfoldable pub alignment_at : Cursor → ℕ → ℕ → ℕ
alignment_at c pos alignment = alignment_or ((cursor_u32 (cursor_at c.base c.size pos)).0) alignment

-- `kv->value_pos`, the position of the first entry's value.
unfoldable pub first_pos : List Kv → ℕ → ℕ
first_pos [] pos = pos
first_pos (e ∷ es) pos = e.value_pos

-- A reader that looks at the cursor.
unfoldable pub looking : {A : Type 0} → (Cursor → A) → Reader A
looking f c = (some (f c), c)

-- One entry: the entries before it and the alignment, with the new ones.
unfoldable pub kv_entry : List Kv × ℕ → Reader (List Kv × ℕ)
kv_entry (kv, alignment) = do
  key ← cursor_key
  type ← cursor_u32
  pos ← position
  alignment' ← looking (λ c.
      if key_streq key (codes "general.alignment") && type == 4
      then alignment_at c (first_pos kv pos) alignment
      else alignment)
  done ← cursor_skip_value type 0
  return (kv ++ (record { key = key; type = type; value_pos = pos }) ∷ [], alignment')

unfoldable pub kv_loop : ℕ → List Kv × ℕ → Reader (List Kv × ℕ)
kv_loop zero st = return st
kv_loop (suc n) st = kv_entry st >>= λ st'. kv_loop n st'

-- `GGUF_DEFAULT_ALIGNMENT`
abbrev pub default_alignment : ℕ
default_alignment = 32

unfoldable pub kv_load : ℕ → Reader (List Kv × ℕ)
kv_load n_kv = kv_loop n_kv ([], default_alignment)
