-- ===== src/Gguf/Tensors/Elements.antt =====
-- The element count of a tensor is the product of its dimensions, and its data begin aligned.
use native.Mathlib.Nat.{
  le-div_iff_mul-le, mod-add-div, mul_assoc, mul_comm, mul-suc, mul-mod_right, mod-lt,
}
use tinyllama_c.Prelude.{
  ℕ, zero, suc, ◌+◌, ◌-◌, ◌*◌, ◌/◌, ◌%◌, ◌^◌, ◌≤◌, ◌<◌, ◌≡◌, ◌≢◌, ◌↔◌, inl, inr, refl, ◌∙◌, ap, sym,
  Bool, true, false, not, ◌||◌, List, [], ◌∷◌, some, arith, ltb, ◌==◌, length, get_elem?,
  Bool-cases,
}
use mathlib.Core.Option
use mathlib.Core.Path.{subst}
use tinyllama_c.Gguf.Cursor.{Cursor, cursor_u32, cursor_u64, cursor_key, gguf_max_dims}
use tinyllama_c.Gguf.Model.Metadata.{>>=-inv}
use tinyllama_c.Gguf.Model.{TensorInfo}
use tinyllama_c.Gguf.Tensors.{
  exit, expect, element_overflow, read_dims, swap_two, tensor_entry, align_up, out_of_file,
  payloads_inside,
}

-- The number of elements, in numbers without bound.
unfoldable pub product : List ℕ → ℕ
product [] = 1
product (d ∷ ds) = d * product ds

expect-true : (b : Bool) (c c' : Cursor) (u : Unit {0}) → expect b c ≡ (some u, c') → b ≡ true
unfolding expect exit
expect-true true c c' u e = refl
expect-true false c c' u e = absurd (cc)

no_overflow : (n d : ℕ) → not (element_overflow n d) ≡ true → n * d < 2 ^ 64
unfolding element_overflow
no_overflow n zero h = ground arith
no_overflow n (suc d) h =
    let fits : n ≤ (2 ^ 64 - 1) / suc d = ground arith in
    let bound : n * suc d ≤ 2 ^ 64 - 1 = (le-div_iff_mul-le (omega arith)).0 fits in
    omega (arith, bound)

read_dims-product :
    (k n : ℕ) (c c' : Cursor) (dims : List ℕ) (total : ℕ)
    → n < 2 ^ 64
    → read_dims k n c ≡ (some (dims, total), c')
    → (length dims ≡ k) × (total ≡ n * product dims) × (total < 2 ^ 64)
unfolding read_dims product
read_dims-product zero n c c' dims total small e =
    let pair : ([], n) ≡ (dims, total) = Option.some-injective _ _ (ap (λ p. p.0) e) in
    let none_read : [] ≡ dims = ap (λ p. p.0) pair in
    let kept : n ≡ total = ap (λ p. p.1) pair in
    rw (← none_read) (refl, omega (arith, kept), omega (arith, kept))
read_dims-product (suc k) n c c' dims total small e =
    let (d, c₁, e₁, r₁) = >>=-inv cursor_u64 _ c c' (dims, total) e in
    let (u, c₂, e₂, r₂) = >>=-inv (expect (not (element_overflow n d))) _ c₁ c' (dims, total) r₁ in
    let bound = no_overflow n d (expect-true _ c₁ c₂ u e₂) in
    let exact : n * d % 2 ^ 64 ≡ n * d = omega (arith, bound) in
    let ((ds, rest), c₃, e₃, r₃) =
      >>=-inv (read_dims k (n * d % 2 ^ 64)) _ c₂ c' (dims, total) r₂ in
    let (len, is, fits) = read_dims-product k (n * d % 2 ^ 64) c₂ c₃ ds rest (omega arith) e₃ in
    let pair : (d ∷ ds, rest) ≡ (dims, total) = Option.some-injective _ _ (ap (λ p. p.0) r₃) in
    let all : d ∷ ds ≡ dims = ap (λ p. p.0) pair in
    let kept : rest ≡ total = ap (λ p. p.1) pair in
    (
      ap length (sym all) ∙ ap suc len,
      sym kept
          ∙ is
          ∙ ap (λ x. x * product ds) exact
          ∙ mul_assoc n d (product ds)
          ∙ ap (λ x. n * product x) all,
      omega (arith, kept, fits),
    )

swap_two-product :
    (ds : List ℕ) → (product (swap_two ds) ≡ product ds) × (length (swap_two ds) ≡ length ds)
unfolding swap_two product
swap_two-product [] = (refl, refl)
swap_two-product (a ∷ []) = (refl, refl)
swap_two-product (a ∷ b ∷ []) = (omega (arith, mul_comm a b), refl)
swap_two-product (a ∷ b ∷ c ∷ ds) = (refl, refl)

-- A tensor entry that loads has 1 to 8 dimensions, and its element count is their product, which
-- does not wrap.
pub tensor_entry-product :
    (c c' : Cursor) (t : TensorInfo)
    → tensor_entry c ≡ (some t, c')
    → (1 ≤ length t.dim)
      × (length t.dim ≤ gguf_max_dims)
      × (t.n_element ≡ product t.dim)
      × (product t.dim < 2 ^ 64)
unfolding tensor_entry
tensor_entry-product c c' t e =
    let (key, c₁, e₁, r₁) = >>=-inv cursor_key _ c c' t e in
    let (ndim, c₂, e₂, r₂) = >>=-inv cursor_u32 _ c₁ c' t r₁ in
    let (u, c₃, e₃, r₃) =
      >>=-inv (expect (not (ndim == 0 || ltb gguf_max_dims ndim))) _ c₂ c' t r₂ in
    let bounds : (1 ≤ ndim) × (ndim ≤ gguf_max_dims) = ground (arith, expect-true _ c₂ c₃ u e₃) in
    let ((dims, total), c₄, e₄, r₄) = >>=-inv (read_dims ndim 1) _ c₃ c' t r₃ in
    let (len, is, fits) = read_dims-product ndim 1 c₃ c₄ dims total (omega arith) e₄ in
    let (type, c₅, e₅, r₅) = >>=-inv cursor_u32 _ c₄ c' t r₄ in
    let (offset, c₆, e₆, r₆) = >>=-inv cursor_u64 _ c₅ c' t r₅ in
    let made = Option.some-injective _ _ (ap (λ p. p.0) r₆) in
    let dim : swap_two dims ≡ t.dim = ap (λ x. x.dim) made in
    let count : total ≡ t.n_element = ap (λ x. x.n_element) made in
    let (same, size) = swap_two-product dims in
    let long : length t.dim ≡ ndim = ap length (sym dim) ∙ size ∙ len in
    let prod : product t.dim ≡ total = ap product (sym dim) ∙ same ∙ omega (arith, is) in
    (
      omega (arith, long, bounds),
      omega (arith, long, bounds),
      sym count ∙ sym prod,
      omega (arith, prod, fits),
    )

-- The tensor data begin at the least multiple of the alignment that is not before the end of the
-- tensor section.
pub align_up-least :
    (post alignment : ℕ)
    → 0 < alignment
    → post + alignment < 2 ^ 64
    → (align_up post alignment % alignment ≡ 0)
      × (post ≤ align_up post alignment)
      × (align_up post alignment < post + alignment)
unfolding align_up
align_up-least post alignment pos small =
    let r = post % alignment in
    let lt : r < alignment = mod-lt post pos in
    elim (Bool-cases (r == 0)) [
      | inl e ↦ rw e (ground arith, omega arith, omega arith)
      | inr e ↦
          let some_left : r ≢ 0 = ground arith in
          let exact : (post + (alignment - r)) % 2 ^ 64 ≡ post + (alignment - r) = omega arith in
          let next : post + (alignment - r) ≡ alignment * suc (post / alignment) =
            omega (arith, mod-add-div post alignment, mul-suc alignment (post / alignment)) in
          rw (e, exact)
            (rw next (mul-mod_right alignment (suc (post / alignment))), omega arith, omega arith)
    ]

inside_each :
    (size : ℕ) (t : TensorInfo) (ts : List TensorInfo)
    → out_of_file size t ≡ false
    → ((i : ℕ) (t' : TensorInfo) → get_elem? ts i ≡ some t' → t'.offset + t'.bytes ≤ size)
    → (i : ℕ) (t' : TensorInfo) → get_elem? (t ∷ ts) i ≡ some t'
    → t'.offset + t'.bytes ≤ size
unfolding out_of_file
inside_each size t ts e rest zero t' at =
    let same : t ≡ t' = Option.some-injective _ _ at in
    subst (λ x. x.offset + x.bytes ≤ size) same (ground arith)
inside_each size t ts e rest (suc i) t' at = rest i t' at

-- The check of the payloads passes exactly when every tensor lies in the file.
pub payloads_inside_iff :
    (size : ℕ) (ts : List TensorInfo)
    → (payloads_inside size ts ≡ true)
      ↔ ((i : ℕ) (t : TensorInfo) → get_elem? ts i ≡ some t → t.offset + t.bytes ≤ size)
unfolding payloads_inside out_of_file
payloads_inside_iff size [] = ((λ h i t e. absurd (cc)), λ h. refl)
payloads_inside_iff size (t ∷ ts) = elim (Bool-cases (out_of_file size t)) [
  | inl e ↦ (λ h. absurd (ground (arith, e)), λ h. absurd (ground (arith, h 0 t refl)))
  | inr e ↦ (
    λ h. inside_each size t ts e ((payloads_inside_iff size ts).0 (rw e at h)),
    λ h. rw e ((payloads_inside_iff size ts).1 (λ i t' at. h (suc i) t' at)),
  )
]
