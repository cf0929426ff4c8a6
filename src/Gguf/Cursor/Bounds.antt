-- ===== src/Gguf/Cursor/Bounds.antt =====
-- Reading stays inside the mapped file, whatever the bytes say.
use native.Mathlib.Decide.{dec_lt}
use tinyllama_c.Prelude.{
  ℕ, zero, suc, ◌+◌, ◌%◌, ◌^◌, ◌≤◌, ◌<◌, ◌≡◌, refl, Option, none, some, arith, ◌⊎◌, inl, inr, ◌∙◌,
}
use tinyllama_c.Gguf.Types.{
  GgufValueType, uint8, int8, uint16, int16, uint32, int32, float32, bool, string, array, uint64,
  int64, float64, value_type,
}
use tinyllama_c.Gguf.Cursor.{
  Message, Cursor, Reader, resume, ◌>>=◌, ◌>>◌, return, fail, cursor_error, cursor_has, move,
  cursor_skip, bytes_at, cursor_read, le_value, cursor_u32, cursor_u64, cursor_key, repeat,
  fixed_size, skip_items, skip_key, skip_typed, skip_any, skip_nested, cursor_skip_value, too_deep,
  unknown_type, truncated_file,
}

-- A cursor inside its file.
pub record IsInside (c : Cursor) : Type 0 where
  pub inside : c.post ≤ c.size
  pub small : c.size < 2 ^ 63

-- What a reader does to the cursor: it moves forward inside the same file, a success reports no
-- error, a failure leaves one, and the first error stays.
pub record Moves {A : Type 0} (c : Cursor) (r : Option A) (c' : Cursor) : Type 0 where
  pub base : c'.base ≡ c.base
  pub size : c'.size ≡ c.size
  pub forward : c.post ≤ c'.post
  pub inside : c'.post ≤ c'.size
  pub success : (a : A) → r ≡ some a → c'.error ≡ c.error
  pub failure : r ≡ none → (e : Message × ℕ) × (c'.error ≡ some e)
  pub first : (e : Message × ℕ) → c.error ≡ some e → c'.error ≡ some e

abbrev pub Safe : {A : Type 0} → Reader A → Type 0
Safe m = (c : Cursor) → IsInside c → Moves c ((m c).0) ((m c).1)

pub return-Safe : {A : Type 0} (a : A) → Safe (return a)
return-Safe a c h = record {
  base = refl;
  size = refl;
  forward = omega arith;
  inside = h.inside;
  success = λ b e. refl;
  failure = λ e. cc;
  first = λ e p. p;
}

pub fail-Safe : {A : Type 0} (msg : Message) → Safe (fail {A = A} msg)
unfolding cursor_error
fail-Safe {A} msg c h = record {
  base = refl;
  size = refl;
  forward = omega arith;
  inside = h.inside;
  success = λ b e. cc;
  failure = λ e. fails (c.error);
  first = λ e p. ground arith;
}
  where
    fails :
        (o : Option (Message × ℕ))
        → (e : Message × ℕ) × (elim o [ none ↦ some (msg, c.post) | some e ↦ some e ] ≡ some e)
    fails none = ((msg, c.post), refl)
    fails (some e) = (e, refl)

pub >>=-Safe :
    {A B : Type 0} (m : Reader A) (f : A → Reader B)
    → Safe m
    → ((a : A) → Safe (f a))
    → Safe (m >>= f)
>>=-Safe {A} {B} m f safe next c h = go ((m c).0) ((m c).1) (safe c h)
  where
    go : (r : Option A) (c' : Cursor) → Moves c r c' → Moves c (resume f r c').0 (resume f r c').1
    go none c' w = record {
      base = w.base;
      size = w.size;
      forward = w.forward;
      inside = w.inside;
      success = λ b e. cc;
      failure = λ e. w.failure refl;
      first = w.first;
    }
    go (some a) c' w =
        let h' : IsInside c' = record {
          inside = w.inside;
          small = omega (arith, w.size, h.small);
        } in
        let w' = next a c' h' in
        record {
          base = w'.base ∙ w.base;
          size = w'.size ∙ w.size;
          forward = omega (arith, w.forward, w'.forward);
          inside = w'.inside;
          success = λ b e. w'.success b e ∙ w.success a refl;
          failure = w'.failure;
          first = λ e p. w'.first e (w.first e p);
        }

-- The check, by its two outcomes.
cursor_has-cases :
    (n : ℕ) (c : Cursor)
    → IsInside c
    → (cursor_has n c ≡ fail truncated_file c)
      ⊎ ((cursor_has n c ≡ (some tt, c)) × (c.post + n ≤ c.size))
unfolding cursor_has
cursor_has-cases n c h = elim (dec_lt c.size (c.post + n)) [
  | yes over ↦ inl (ground (arith, h.small, h.inside))
  | no fits ↦ inr (ground (arith, h.small, h.inside), omega arith)
]

cursor_has-Safe : (n : ℕ) → Safe (cursor_has n)
cursor_has-Safe n c h = elim (cursor_has-cases n c h) [
  | inl e ↦ rw e (fail-Safe truncated_file c h)
  | inr (e, _) ↦ rw e (return-Safe tt c h)
]

move-Moves :
    (n : ℕ) (c : Cursor) → IsInside c → c.post + n ≤ c.size → Moves c ((move n c).0) ((move n c).1)
unfolding move
move-Moves n c h fits = record {
  base = refl;
  size = refl;
  forward = omega (arith, h.small);
  inside = omega (arith, h.small);
  success = λ b p. refl;
  failure = λ p. cc;
  first = λ e p. p;
}

-- After a check the cursor may move by what was checked.
checked-Safe :
    {A : Type 0} (n : ℕ) (m : Reader A)
    → ((c : Cursor) → IsInside c → c.post + n ≤ c.size → Moves c ((m c).0) ((m c).1))
    → Safe (cursor_has n >> m)
checked-Safe {A} n m safe c h = elim (cursor_has-cases n c h) [
  | inl e ↦ rw e (fail-Safe truncated_file c h)
  | inr (e, fits) ↦ rw e (safe c h fits)
]

cursor_skip-Safe : (n : ℕ) → Safe (cursor_skip n)
unfolding cursor_skip
cursor_skip-Safe n = checked-Safe n (move n) (move-Moves n)

-- A read of `n` bytes, of which `k` are kept.
read-Safe : (n k : ℕ) → Safe (cursor_has n >> (bytes_at k >>= λ bs. move n >> return bs))
unfolding bytes_at move
read-Safe n k = checked-Safe n _ (λ c h fits. record {
  base = refl;
  size = refl;
  forward = omega (arith, h.small);
  inside = omega (arith, h.small);
  success = λ b p. refl;
  failure = λ p. cc;
  first = λ e p. p;
})

cursor_read-Safe : (n : ℕ) → Safe (cursor_read n)
unfolding cursor_read
cursor_read-Safe n = read-Safe n n

pub cursor_u32-Safe : Safe cursor_u32
unfolding cursor_u32
cursor_u32-Safe = >>=-Safe (cursor_read 4) _ (cursor_read-Safe 4) (λ bs. return-Safe (le_value bs))

pub cursor_u64-Safe : Safe cursor_u64
unfolding cursor_u64
cursor_u64-Safe = >>=-Safe (cursor_read 8) _ (cursor_read-Safe 8) (λ bs. return-Safe (le_value bs))

pub cursor_key-Safe : Safe cursor_key
unfolding cursor_key
cursor_key-Safe = >>=-Safe cursor_u64 _ cursor_u64-Safe (λ len. read-Safe len (len % 2 ^ 8))

repeat-Safe : (n : ℕ) (m : Reader (Unit {0})) → Safe m → Safe (repeat n m)
unfolding repeat
repeat-Safe zero m safe = return-Safe tt
repeat-Safe (suc n) m safe = >>=-Safe m _ safe (λ u. repeat-Safe n m safe)

skip_items-Safe :
    (item : ℕ → Reader (Unit {0})) → ((t : ℕ) → Safe (item t)) → Safe (skip_items item)
unfolding skip_items
skip_items-Safe item safe =
    >>=-Safe cursor_u32 _ cursor_u32-Safe
      (λ t. >>=-Safe cursor_u64 _ cursor_u64-Safe (λ len. repeat-Safe len (item t) (safe t)))

skip_key-Safe : Safe skip_key
unfolding skip_key
skip_key-Safe = >>=-Safe cursor_key _ cursor_key-Safe (λ k. return-Safe tt)

skip_typed-Safe :
    (item : ℕ → Reader (Unit {0}))
    → ((t : ℕ) → Safe (item t))
    → (type : GgufValueType) → Safe (skip_typed item type)
unfolding skip_typed fixed_size
skip_typed-Safe item safe string = skip_key-Safe
skip_typed-Safe item safe array = skip_items-Safe item safe
skip_typed-Safe item safe uint8 = cursor_skip-Safe 1
skip_typed-Safe item safe int8 = cursor_skip-Safe 1
skip_typed-Safe item safe bool = cursor_skip-Safe 1
skip_typed-Safe item safe uint16 = cursor_skip-Safe 2
skip_typed-Safe item safe int16 = cursor_skip-Safe 2
skip_typed-Safe item safe uint32 = cursor_skip-Safe 4
skip_typed-Safe item safe int32 = cursor_skip-Safe 4
skip_typed-Safe item safe float32 = cursor_skip-Safe 4
skip_typed-Safe item safe uint64 = cursor_skip-Safe 8
skip_typed-Safe item safe int64 = cursor_skip-Safe 8
skip_typed-Safe item safe float64 = cursor_skip-Safe 8

skip_any-Safe :
    (item : ℕ → Reader (Unit {0}))
    → ((t : ℕ) → Safe (item t))
    → (type : Option GgufValueType) → Safe (skip_any item type)
unfolding skip_any
skip_any-Safe item safe none = fail-Safe unknown_type
skip_any-Safe item safe (some type) = skip_typed-Safe item safe type

skip_nested-Safe : (levels type : ℕ) → Safe (skip_nested levels type)
unfolding skip_nested
skip_nested-Safe zero type = fail-Safe too_deep
skip_nested-Safe (suc levels) type =
    skip_any-Safe (skip_nested levels) (skip_nested-Safe levels) (value_type type)

-- Skipping a metadata value, of any type, known or not, over any bytes: the cursor moves forward
-- inside the file; a failure leaves an error, a success none, and the first error stays.
pub cursor_skip_value-Moves :
    (type depth : ℕ) (c : Cursor)
    → IsInside c
    → Moves c ((cursor_skip_value type depth c).0) ((cursor_skip_value type depth c).1)
unfolding cursor_skip_value
cursor_skip_value-Moves type depth = skip_nested-Safe _ type
