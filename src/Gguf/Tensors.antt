-- ===== src/Gguf/Tensors.antt =====
-- The tensor section of a model and the header, `src/core.c`: `tensor_load`, `model_load` up to the
-- architecture, and the payload bounds of `model_completeness_check`.
pub mod Elements
use mathlib.Core.Option
use tinyllama_c.Prelude.{
  ℕ, zero, suc, ◌+◌, ◌-◌, ◌*◌, ◌/◌, ◌%◌, ◌^◌, Bool, true, false, not, ◌&&◌, ◌||◌, List, [], ◌∷◌,
  ◌++◌, Option, none, some, ltb, ◌==◌, if◌then◌else◌, length, get_or, map,
}
use tinyllama_c.Gguf.Types.{GgufTypeInfo, tensor_type, tensor_bytes}
use tinyllama_c.Gguf.Cursor.{
  Cursor, Reader, ◌>>=◌, ◌>>◌, return, cursor_at, cursor_u32, cursor_u64, cursor_key, gguf_max_dims,
}
use tinyllama_c.Gguf.Model.{
  Kv, TensorInfo, Model, ModelArch, arch_unknown, position, kv_load, model_detect_arch,
}

-- `slog(ERROR, ...)` with another message than the cursor's.
unfoldable pub exit : {A : Type 0} → Reader A
exit c = (none, c)

unfoldable pub expect : Bool → Reader (Unit {0})
expect b = if b then return tt else exit

-- `t->n_element > UINT64_MAX / t->dim[d]`
unfoldable pub element_overflow : ℕ → ℕ → Bool
element_overflow n_element dim = not (dim == 0) && ltb ((2 ^ 64 - 1) / dim) n_element

-- The loop over the dimensions, with the element count so far.
unfoldable pub read_dims : ℕ → ℕ → Reader (List ℕ × ℕ)
read_dims zero n_element = return ([], n_element)
read_dims (suc k) n_element = do
  dim ← cursor_u64
  expect (not (element_overflow n_element dim))
  (dims, total) ← read_dims k (n_element * dim % 2 ^ 64)
  return (dim ∷ dims, total)

-- `if (t->ndim == 2)` swap the two.
unfoldable pub swap_two : List ℕ → List ℕ
swap_two [] = []
swap_two (a ∷ []) = a ∷ []
swap_two (a ∷ b ∷ []) = b ∷ a ∷ []
swap_two (a ∷ b ∷ c ∷ ds) = a ∷ b ∷ c ∷ ds

-- The padded last dimension of a quantised tensor, 0 where there is none.
unfoldable pub padded_dim : ℕ → List ℕ → ℕ
padded_dim type dims =
    let last = get_or dims (length dims - 1) 0 in
    if ltb (length dims) 2 then 0 else elim (tensor_type type) [
      | none ↦ 0
      | some ti ↦
          let pad =
            (last + ti.block_elems + 2 ^ 64 - 1)
            % 2 ^ 64
            / ti.block_elems
            * ti.block_elems
            % 2 ^ 64 in
          if ltb 1 ti.block_elems && not (pad == last) then pad else 0
    ]

-- An unsupported type is only a warning, and leaves the size 0.
unfoldable pub tensor_entry : Reader TensorInfo
tensor_entry = do
  key ← cursor_key
  ndim ← cursor_u32
  expect (not (ndim == 0 || ltb gguf_max_dims ndim))
  (dims, n_element) ← read_dims ndim 1
  type ← cursor_u32
  offset ← cursor_u64
  return (record {
    key = key;
    dim = swap_two dims;
    type = type;
    offset = offset;
    n_element = n_element;
    bytes = Option.get_or (tensor_bytes type n_element) 0;
    padded_dim = padded_dim type (swap_two dims);
  })

unfoldable pub tensor_load : ℕ → Reader (List TensorInfo)
tensor_load zero = return []
tensor_load (suc n) = do t ← tensor_entry; ts ← tensor_load n; return (t ∷ ts)

-- The start of the tensor data: the next multiple of the alignment.
unfoldable pub align_up : ℕ → ℕ → ℕ
align_up post alignment =
    if post % alignment == 0 then post else (post + (alignment - post % alignment)) % 2 ^ 64

unfoldable pub place : ℕ → TensorInfo → TensorInfo
place data_base t = record t { offset = (t.offset + data_base) % 2 ^ 64 }

-- `GGUF_MAGIC` and `GGUF_VALID_VERSION`
abbrev pub gguf_magic : ℕ
gguf_magic = 0x46554747

abbrev pub gguf_valid_version : ℕ
gguf_valid_version = 3

-- The sections of a file in order.
unfoldable pub read_model : List ℕ → ℕ → Reader Model
read_model map_bytes size = do
  magic ← cursor_u32
  expect (magic == gguf_magic)
  version ← cursor_u32
  expect (version == gguf_valid_version)
  n_tensor ← cursor_u64
  n_kv ← cursor_u64
  (kv, alignment) ← kv_load n_kv
  tensor ← tensor_load n_tensor
  post ← position
  return (record {
    map = map_bytes;
    size = size;
    version = version;
    n_kv = n_kv;
    n_tensor = n_tensor;
    alignment = alignment;
    arch = arch_unknown;
    arch_name = [];
    kv = kv;
    tensor = map (place (align_up post alignment)) tensor;
  })

-- `model_load` of a mapped file, without the completeness check; `none` ends the process.
unfoldable pub model_load : List ℕ → ℕ → Option Model
model_load map_bytes size =
    if ltb size 32
    then none
    else Option.bind ((read_model map_bytes size (cursor_at map_bytes size 0)).0)
        (λ m. Option.map (λ a. record m { arch = a.0; arch_name = a.1 }) (model_detect_arch m))

-- A tensor that does not lie in the file.
unfoldable pub out_of_file : ℕ → TensorInfo → Bool
out_of_file size t = ltb size t.offset || ltb (size - t.offset) t.bytes

-- The third part of `model_completeness_check`; `false` ends the process.
unfoldable pub payloads_inside : ℕ → List TensorInfo → Bool
payloads_inside size [] = true
payloads_inside size (t ∷ ts) = if out_of_file size t then false else payloads_inside size ts
