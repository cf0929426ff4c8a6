-- ===== src/Memory.antt =====
-- The wrappers of the allocator, `src/mm.c`: one context for the process, made on the first call. 0 is
-- the null pointer, and `none` is an exit. The lock is held for the whole of a call.
pub mod Sizes
use mathlib.Core.Option
use tinyllama_c.Prelude.{
  ℕ, ◌+◌, ◌-◌, ◌*◌, ◌/◌, ◌%◌, ◌^◌, Bool, true, false, not, ◌&&◌, Option, none, some, ltb, ◌==◌,
  if◌then◌else◌,
}
use tinyllama_c.Alloc.{
  AllocSet, Allocated, u64, alloc_set_memory_context_create, alloc_set_alloc, alloc_set_realloc,
  alloc_set_free,
}

-- Of the context, or of a new one at `home`.
unfoldable pub mm_get_ctx : ℕ → Option AllocSet → AllocSet
mm_get_ctx home none = alloc_set_memory_context_create home (8 * 1024)
mm_get_ctx home (some s) = s

abbrev pub or_one : ℕ → ℕ
or_one n = if n == 0 then 1 else n

unfoldable pub smalloc : ℕ → ℕ → Option AllocSet → ℕ → Option Allocated
smalloc home addr m n = alloc_set_alloc addr (mm_get_ctx home m) (or_one n)

-- The check of `scalloc`.
unfoldable pub too_many : ℕ → ℕ → Bool
too_many n s = not (n == 0) && not (s == 0) && ltb ((2 ^ 64 - 1) / s) n

abbrev pub scalloc_total : ℕ → ℕ → ℕ
scalloc_total n s = u64 (or_one n * or_one s)

unfoldable pub scalloc : ℕ → ℕ → Option AllocSet → ℕ → ℕ → Option Allocated
scalloc home addr m n s =
    if too_many n s then none else alloc_set_alloc addr (mm_get_ctx home m) (scalloc_total n s)

-- The context is there once a pointer was given out.
unfoldable pub srealloc : ℕ → ℕ → Option AllocSet → ℕ → ℕ → Option Allocated
srealloc home addr m p n =
    if p == 0 then smalloc home addr m n else Option.bind m (λ s. alloc_set_realloc addr s p n)

unfoldable pub sfree : Option AllocSet → ℕ → Option (Option AllocSet)
sfree m p =
    if p == 0 then some m else Option.bind m (λ s. Option.map (λ s'. some s') (alloc_set_free s p))
