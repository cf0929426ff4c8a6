-- ===== src/Tests/Cursors.antt =====
-- The cursor over a few bytes.
use tinyllama_c.Prelude.{ℕ, ◌≡◌, refl, List, [], ◌∷◌, none, arith}
use tinyllama_c.Gguf.Cursor.{
  Cursor, cursor_skip_value, cursor_u32, cursor_u64, cursor_read, cursor_has, cursor_skip, move,
  bytes_at, repeat, skip_nested, skip_any, skip_typed, skip_items, le_value, fixed_size,
}
use tinyllama_c.Gguf.Types.{value_type}
use tinyllama_c.Gguf.Cursor.Bounds.{IsInside, Moves, cursor_skip_value-Moves}

-- An array of two `u16`, and a byte more.
abbrev pair_array : List ℕ
pair_array = 2 ∷ 0 ∷ 0 ∷ 0 ∷ 2 ∷ 0 ∷ 0 ∷ 0 ∷ 0 ∷ 0 ∷ 0 ∷ 0 ∷ 1 ∷ 0 ∷ 2 ∷ 0 ∷ 9 ∷ []

abbrev array_start : Cursor
array_start = record { base = pair_array; size = 17; post = 0; error = none }

array_start-IsInside : IsInside array_start
array_start-IsInside = record { inside = omega arith; small = omega arith }

skip_run : (cursor_skip_value 9 0 array_start).1.post ≡ 16
unfolding cursor_skip_value cursor_u32 cursor_u64 cursor_read cursor_has cursor_skip move bytes_at
    repeat skip_nested skip_any skip_typed skip_items le_value fixed_size value_type
skip_run = refl

skip_example :
    Moves array_start
      ((cursor_skip_value 9 0 array_start).0)
      ((cursor_skip_value 9 0 array_start).1)
skip_example = cursor_skip_value-Moves 9 0 array_start array_start-IsInside
