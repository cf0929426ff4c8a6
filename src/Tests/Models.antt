-- ===== src/Tests/Models.antt =====
-- A file with one metadata entry, the alignment, and a tensor entry of 2 by 3 floats.
use tinyllama_c.Prelude.{
  ℕ, ◌^◌, ◌≤◌, ◌<◌, ◌≡◌, refl, List, [], ◌∷◌, ◌++◌, none, some, arith, codes, length, replicate,
}
use tinyllama_c.Vocab.Key.{key_eq}
use tinyllama_c.Gguf.Types.{value_type, tensor_type, tensor_bytes, gguf_types}
use tinyllama_c.Gguf.Cursor.{
  Cursor, cursor_at, cursor_skip_value, cursor_u32, cursor_u64, cursor_read, cursor_has, cursor_key,
  cursor_skip, move, bytes_at, skip_nested, skip_any, skip_typed, le_value, fixed_size,
  gguf_max_dims,
}
use tinyllama_c.Gguf.Cursor.Bounds.{IsInside}
use tinyllama_c.Gguf.Model.{
  Kv, TensorInfo, key_streq, position, looking, first_pos, alignment_at, alignment_or, kv_entry,
  kv_loop, kv_load, scan_number, layer_of_name,
}
use tinyllama_c.Gguf.Model.Metadata.{Known, Reads, kv_load-Known}
use tinyllama_c.Gguf.Tensors.{
  exit, expect, element_overflow, read_dims, swap_two, padded_dim, tensor_entry,
}
use tinyllama_c.Gguf.Tensors.Elements.{product, tensor_entry-product}

abbrev u64_bytes : ℕ → List ℕ
u64_bytes n = n ∷ replicate 7 0

abbrev u32_bytes : ℕ → List ℕ
u32_bytes n = n ∷ replicate 3 0

abbrev metadata : List ℕ
metadata = u64_bytes 17 ++ (codes "general.alignment" ++ (u32_bytes 4 ++ u32_bytes 64))

abbrev kv_start : Cursor
kv_start = record { base = metadata; size = 33; post = 0; error = none }

kv_start-IsInside : IsInside kv_start
kv_start-IsInside = record { inside = omega arith; small = omega arith }

abbrev loaded_kv : List Kv × ℕ
loaded_kv = ((record { key = codes "general.alignment"; type = 4; value_pos = 29 }) ∷ [], 64)

kv_run : kv_load 1 kv_start ≡ (some loaded_kv, record kv_start { post = 33 })
unfolding cursor_skip_value cursor_u32 cursor_u64 cursor_read cursor_has cursor_skip cursor_key move
    bytes_at skip_nested skip_any skip_typed le_value fixed_size value_type kv_load kv_loop kv_entry
    position looking first_pos alignment_at alignment_or cursor_at key_streq key_eq
kv_run = refl

kv_load_example : Known kv_start 1 loaded_kv × Reads kv_start (record kv_start { post = 33 })
kv_load_example =
    kv_load-Known 1 kv_start (record kv_start { post = 33 }) loaded_kv kv_start-IsInside kv_run

abbrev tensor_bytes_read : List ℕ
tensor_bytes_read =
    u64_bytes 1
    ++ (b't' ∷ (u32_bytes 2 ++ (u64_bytes 3 ++ (u64_bytes 2 ++ (u32_bytes 0 ++ u64_bytes 0)))))

abbrev tensor_start : Cursor
tensor_start = record { base = tensor_bytes_read; size = 41; post = 0; error = none }

abbrev loaded_tensor : TensorInfo
loaded_tensor = record {
  key = b't' ∷ [];
  dim = 2 ∷ 3 ∷ [];
  type = 0;
  offset = 0;
  n_element = 6;
  bytes = 24;
  padded_dim = 0;
}

tensor_run : tensor_entry tensor_start ≡ (some loaded_tensor, record tensor_start { post = 41 })
unfolding cursor_u32 cursor_u64 cursor_read cursor_has cursor_key move bytes_at le_value
    tensor_entry expect exit read_dims element_overflow swap_two padded_dim tensor_bytes tensor_type
    gguf_types
tensor_run = refl

tensor_example :
    (1 ≤ length loaded_tensor.dim)
    × (length loaded_tensor.dim ≤ gguf_max_dims)
    × (loaded_tensor.n_element ≡ product loaded_tensor.dim)
    × (product loaded_tensor.dim < 2 ^ 64)
tensor_example =
    tensor_entry-product tensor_start (record tensor_start { post = 41 }) loaded_tensor tensor_run

layer_run : layer_of_name (codes "blk.12.attn_q.weight") ≡ some 12
unfolding layer_of_name scan_number key_eq
layer_run = refl
