-- ===== src/Gguf/Cursor.antt =====
-- The bounds-checked reader of `src/core.c` over the mapped file. A reader takes the cursor and
-- returns it moved, with its result; `none` is the `bool` false.
pub mod Bounds
use tinyllama_c.Prelude.{
  ℕ, zero, suc, ◌+◌, ◌-◌, ◌*◌, ◌%◌, ◌^◌, Bool, true, false, ◌||◌, List, [], ◌∷◌, Option, none, some,
  ltb, if◌then◌else◌, take, drop,
}
use tinyllama_c.Gguf.Types.{
  GgufValueType, uint8, int8, uint16, int16, uint32, int32, float32, bool, string, array, uint64,
  int64, float64, value_type,
}

pub data Message : Type 0 where
  truncated_file too_deep unknown_type : Message

-- The error text is the message and the offset "at byte"; an empty buffer is `none`.
pub record Cursor : Type 0 where
  pub base : List ℕ
  pub size : ℕ
  pub post : ℕ
  pub error : Option (Message × ℕ)

abbrev pub Reader : Type 0 → Type 0
Reader A = Cursor → Option A × Cursor

abbrev pub resume : {A B : Type 0} → (A → Reader B) → Option A → Cursor → Option B × Cursor
resume f none c = (none, c)
resume f (some a) c = f a c

infixl 5 ◌>>=◌ ◌>>◌
abbrev pub ◌>>=◌ : {A B : Type 0} → Reader A → (A → Reader B) → Reader B
◌>>=◌ m f c = resume f (m c).0 (m c).1

abbrev pub ◌>>◌ : {B : Type 0} → Reader (Unit {0}) → Reader B → Reader B
m >> k = m >>= λ _. k

abbrev pub return : {A : Type 0} → A → Reader A
return a c = (some a, c)

unfoldable pub cursor_at : List ℕ → ℕ → ℕ → Cursor
cursor_at base size post = record { base = base; size = size; post = post; error = none }

-- The first error stays.
unfoldable pub cursor_error : Message → Cursor → Cursor
cursor_error msg c = record c {
  error = elim c.error [ none ↦ some (msg, c.post) | some e ↦ some e ];
}

abbrev pub fail : {A : Type 0} → Message → Reader A
fail msg c = (none, cursor_error msg c)

-- `c->post + n` wraps.
unfoldable pub cursor_has : ℕ → Reader (Unit {0})
cursor_has n c =
    if ltb c.size n || ltb c.size ((c.post + n) % 2 ^ 64)
    then fail truncated_file c
    else (some tt, c)

unfoldable pub move : ℕ → Reader (Unit {0})
move n c = (some tt, record c { post = (c.post + n) % 2 ^ 64 })

unfoldable pub cursor_skip : ℕ → Reader (Unit {0})
unfolding move
cursor_skip n = cursor_has n >> move n

unfoldable pub bytes_at : ℕ → Reader (List ℕ)
bytes_at n c = (some (take n (drop c.post c.base)), c)

unfoldable pub cursor_read : ℕ → Reader (List ℕ)
unfolding move bytes_at
cursor_read n = do cursor_has n; bs ← bytes_at n; move n; return bs

-- Little-endian.
unfoldable pub le_value : List ℕ → ℕ
le_value [] = 0
le_value (b ∷ bs) = b + 256 * le_value bs

-- `cursor_i32` and `cursor_float` too: they move four bytes into a variable of another type.
unfoldable pub cursor_u32 : Reader ℕ
cursor_u32 = do bs ← cursor_read 4; return (le_value bs)

unfoldable pub cursor_u64 : Reader ℕ
cursor_u64 = do bs ← cursor_read 8; return (le_value bs)

-- A length-prefixed string. The key's length is a `u8`: it keeps the low eight bits of the length
-- read, while the cursor moves by all of it.
unfoldable pub cursor_key : Reader (List ℕ)
unfolding move bytes_at
cursor_key = do
  len ← cursor_u64
  cursor_has len
  content ← bytes_at (len % 2 ^ 8)
  move len
  return content

unfoldable pub repeat : ℕ → Reader (Unit {0}) → Reader (Unit {0})
repeat zero m = return tt
repeat (suc n) m = m >> repeat n m

-- The size of a value of a fixed size.
unfoldable pub fixed_size : GgufValueType → Option ℕ
fixed_size uint8 = some 1
fixed_size int8 = some 1
fixed_size bool = some 1
fixed_size uint16 = some 2
fixed_size int16 = some 2
fixed_size uint32 = some 4
fixed_size int32 = some 4
fixed_size float32 = some 4
fixed_size uint64 = some 8
fixed_size int64 = some 8
fixed_size float64 = some 8
fixed_size string = none
fixed_size array = none

-- The loop over the items of an array: their type, their number, then `item` for each.
unfoldable pub skip_items : (ℕ → Reader (Unit {0})) → Reader (Unit {0})
unfolding cursor_u32 cursor_u64
skip_items item = do item_type ← cursor_u32; len ← cursor_u64; repeat len (item item_type)

unfoldable pub skip_key : Reader (Unit {0})
skip_key = cursor_key >>= λ ignore. return tt

unfoldable pub skip_typed : (ℕ → Reader (Unit {0})) → GgufValueType → Reader (Unit {0})
unfolding skip_items skip_key
skip_typed item string = skip_key
skip_typed item array = skip_items item
skip_typed item type = elim (fixed_size type) [ none ↦ return tt | some n ↦ cursor_skip n ]

-- The `switch`.
unfoldable pub skip_any : (ℕ → Reader (Unit {0})) → Option GgufValueType → Reader (Unit {0})
skip_any item none = fail unknown_type
skip_any item (some type) = skip_typed item type

-- `GGUF_MAX_DIMS`, which also bounds the nesting.
abbrev pub gguf_max_dims : ℕ
gguf_max_dims = 8

-- With the levels of nesting still allowed; none is left when `depth > GGUF_MAX_DIMS`.
unfoldable pub skip_nested : ℕ → ℕ → Reader (Unit {0})
skip_nested zero type = fail too_deep
skip_nested (suc levels) type = skip_any (skip_nested levels) (value_type type)

unfoldable pub cursor_skip_value : ℕ → ℕ → Reader (Unit {0})
unfolding skip_nested
cursor_skip_value type depth = skip_nested (gguf_max_dims + 1 - depth) type
