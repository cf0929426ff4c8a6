-- ===== src/Gguf/Model/Metadata.antt =====
-- Loading the metadata entries: it stays inside the file, and what the entries and the alignment are.
use mathlib.Core.Path.{subst}
use mathlib.Core.Option
use tinyllama_c.Prelude.{
  ℕ, zero, suc, ◌+◌, ◌≤◌, ◌<◌, ◌^◌, ◌≡◌, ◌≢◌, ◌⊎◌, inl, inr, refl, ◌∙◌, ap, sym, Bool, ◌&&◌, List,
  [], ◌∷◌, ◌++◌, Option, none, some, arith, ◌==◌, if◌then◌else◌, length, length-append, codes,
  Option-cases, Bool-cases,
}
use tinyllama_c.Gguf.Cursor.{
  Cursor, Reader, ◌>>=◌, resume, cursor_at, cursor_u32, cursor_key, cursor_skip_value,
}
use tinyllama_c.Gguf.Cursor.Bounds.{
  IsInside, Safe, cursor_key-Safe, cursor_u32-Safe, cursor_skip_value-Moves,
}
use tinyllama_c.Gguf.Model.{
  Kv, key_streq, position, looking, first_pos, alignment_or, alignment_at, kv_entry, kv_loop,
  kv_load, default_alignment,
}

-- A success of two readers in a row.
pub >>=-inv :
    {A B : Type 0} (m : Reader A) (f : A → Reader B) (c c₂ : Cursor) (b : B)
    → (m >>= f) c ≡ (some b, c₂)
    → (a : A) × (c₁ : Cursor) × (m c ≡ (some a, c₁)) × (f a c₁ ≡ (some b, c₂))
>>=-inv {A} {B} m f c c₂ b h = elim (Option-cases ((m c).0)) [
  | inl e ↦ absurd (fails (m c).0 (m c).1 e h)
  | inr (a, e) ↦ (a, (m c).1, ap (λ o. (o, (m c).1)) e, rw e at h)
]
  where
    fails : (o : Option A) (c' : Cursor) → o ≡ none → resume f o c' ≡ (some b, c₂) → ⊥
    fails none c' e h = cc
    fails (some a) c' e h = cc

-- What a successful reader does to a cursor inside its file.
pub record Reads (c c' : Cursor) : Type 0 where
  pub base : c'.base ≡ c.base
  pub size : c'.size ≡ c.size
  pub inside : IsInside c'

pub Safe-Reads :
    {A : Type 0} (m : Reader A)
    → Safe m
    → (c c' : Cursor) (a : A) → IsInside c
    → m c ≡ (some a, c')
    → Reads c c'
Safe-Reads m safe c c' a h e =
    let w = safe c h in
    let same : (m c).1 ≡ c' = ap (λ p. p.1) e in
    record {
      base = ap (λ x. x.base) (sym same) ∙ w.base;
      size = ap (λ x. x.size) (sym same) ∙ w.size;
      inside = record {
        inside = subst (λ x. x.post ≤ x.size) same w.inside;
        small = subst (λ x. x.size < 2 ^ 63) same (omega (arith, w.size, h.small));
      };
    }

-- One entry is added, with its value where the cursor stood after the type.
pub record Adds (c : Cursor) (st st' : List Kv × ℕ) : Type 0 where
  pub entry : Kv
  pub at : Cursor
  pub post : at.post ≡ entry.value_pos
  pub reads : Reads c at
  pub kv : st'.0 ≡ st.0 ++ entry ∷ []
  pub alignment : (st'.1 ≡ st.1) ⊎ (st'.1 ≡ alignment_at at (first_pos st.0 entry.value_pos) st.1)

kv_entry-Adds :
    (st st' : List Kv × ℕ) (c c' : Cursor)
    → IsInside c
    → kv_entry st c ≡ (some st', c')
    → Adds c st st' × Reads c c'
unfolding kv_entry position looking
kv_entry-Adds (kv, alignment) st' c c' h e =
    let (key, c₁, e₁, r₁) = >>=-inv cursor_key _ c c' st' e in
    let (type, c₂, e₂, r₂) = >>=-inv cursor_u32 _ c₁ c' st' r₁ in
    let w₁ = Safe-Reads cursor_key cursor_key-Safe c c₁ key h e₁ in
    let w₂ = Safe-Reads cursor_u32 cursor_u32-Safe c₁ c₂ type w₁.inside e₂ in
    let (done, c₃, e₃, r₃) = >>=-inv (cursor_skip_value type 0) _ c₂ c' st' r₂ in
    let w₃ =
      Safe-Reads (cursor_skip_value type 0) (cursor_skip_value-Moves type 0) c₂ c₃ done w₂.inside
        e₃ in
    let new : Kv = record { key = key; type = type; value_pos = c₂.post } in
    let test : Bool = key_streq key (codes "general.alignment") && type == 4 in
    let read : ℕ = alignment_at c₂ (first_pos kv c₂.post) alignment in
    let pair : (kv ++ new ∷ [], if test then read else alignment) ≡ st' =
      Option.some-injective _ _ (ap (λ p. p.0) r₃) in
    let last : c₃ ≡ c' = ap (λ p. p.1) r₃ in
    (
      record {
        entry = new;
        at = c₂;
        post = refl;
        reads = record { base = w₂.base ∙ w₁.base; size = w₂.size ∙ w₁.size; inside = w₂.inside };
        kv = sym (ap (λ p. p.0) pair);
        alignment = elim (Bool-cases test) [
          | inl yes_it ↦
              inr (sym (ap (λ p. p.1) pair) ∙ ap (λ b. if b then read else alignment) yes_it)
          | inr not_it ↦
              inl (sym (ap (λ p. p.1) pair) ∙ ap (λ b. if b then read else alignment) not_it)
        ];
      },
      subst (Reads c) last (record {
        base = w₃.base ∙ w₂.base ∙ w₁.base;
        size = w₃.size ∙ w₂.size ∙ w₁.size;
        inside = w₃.inside;
      }),
    )

-- Where the alignment that a file is given comes from: the default, or a number that is not 0, read
-- where the value of the first entry stands.
pub data AlignmentOf (c : Cursor) : List Kv → ℕ → Type 0 where
  default : (kv : List Kv) → AlignmentOf c kv default_alignment
  of_first :
      (e : Kv) (kv : List Kv) (a : ℕ)
      → (cursor_u32 (cursor_at c.base c.size e.value_pos)).0 ≡ some a
      → a ≢ 0
      → AlignmentOf c (e ∷ kv) a

AlignmentOf-more :
    (c : Cursor) (kv new : List Kv) (a : ℕ) → AlignmentOf c kv a → AlignmentOf c (kv ++ new) a
AlignmentOf-more c _ new _ (default kv) = default (kv ++ new)
AlignmentOf-more c _ new _ (of_first e kv a read pos) = of_first e (kv ++ new) a read pos

alignment_or-cases :
    (o : Option ℕ) (a : ℕ)
    → (alignment_or o a ≡ a) ⊎ ((x : ℕ) × (o ≡ some x) × (x ≢ 0) × (alignment_or o a ≡ x))
unfolding alignment_or
alignment_or-cases none a = inl refl
alignment_or-cases (some x) a = elim (Bool-cases (x == 0)) [
  | inl z ↦ inl (ground arith)
  | inr z ↦ inr (x, refl, ground arith, ground arith)
]

first_pos-AlignmentOf :
    (c : Cursor) (kv : List Kv) (new : Kv) (a : ℕ)
    → AlignmentOf c kv a
    → AlignmentOf c (kv ++ new ∷ []) (alignment_at c (first_pos kv new.value_pos) a)
unfolding alignment_at first_pos
first_pos-AlignmentOf c [] new a h =
    elim (alignment_or-cases ((cursor_u32 (cursor_at c.base c.size new.value_pos)).0) a) [
      | inl e ↦ rw e (AlignmentOf-more c [] (new ∷ []) a h)
      | inr (x, e, pos, is) ↦ rw is (of_first new [] x e pos)
    ]
first_pos-AlignmentOf c (k ∷ kv) new a h =
    elim (alignment_or-cases ((cursor_u32 (cursor_at c.base c.size k.value_pos)).0) a) [
      | inl e ↦ rw e (AlignmentOf-more c (k ∷ kv) (new ∷ []) a h)
      | inr (x, e, pos, is) ↦ rw is (of_first k (kv ++ new ∷ []) x e pos)
    ]

same_file-alignment_at :
    (c at : Cursor) (pos a : ℕ)
    → at.base ≡ c.base
    → at.size ≡ c.size
    → alignment_at at pos a ≡ alignment_at c pos a
unfolding alignment_at
same_file-alignment_at c at pos a base size =
    λ i. alignment_or ((cursor_u32 (cursor_at (base i) (size i) pos)).0) a

-- What is known of the entries loaded so far.
pub record Known (c : Cursor) (n : ℕ) (st : List Kv × ℕ) : Type 0 where
  pub count : length st.0 ≡ n
  pub alignment : AlignmentOf c st.0 st.1

kv_entry-Known :
    (c₀ c c' : Cursor) (n : ℕ) (st st' : List Kv × ℕ)
    → Reads c₀ c
    → Known c₀ n st
    → kv_entry st c ≡ (some st', c')
    → Known c₀ (suc n) st' × Reads c₀ c'
kv_entry-Known c₀ c c' n (kv, a) (kv', a') r k e =
    let (adds, r') = kv_entry-Adds (kv, a) (kv', a') c c' r.inside e in
    (
      record {
        count = ap length adds.kv ∙ omega (arith, length-append kv (adds.entry ∷ []), k.count);
        alignment =
            subst (λ l. AlignmentOf c₀ l a') (sym adds.kv)
              (elim adds.alignment [
                | inl same ↦
                    subst (AlignmentOf c₀ (kv ++ adds.entry ∷ [])) (sym same)
                      (AlignmentOf-more c₀ kv (adds.entry ∷ []) a k.alignment)
                | inr read ↦
                    subst (AlignmentOf c₀ (kv ++ adds.entry ∷ []))
                      (sym (
                        read
                        ∙ same_file-alignment_at c₀ adds.at _ a (adds.reads.base ∙ r.base)
                            (adds.reads.size ∙ r.size)))
                      (first_pos-AlignmentOf c₀ kv adds.entry a k.alignment)
              ]);
      },
      record { base = r'.base ∙ r.base; size = r'.size ∙ r.size; inside = r'.inside },
    )

kv_loop-Known :
    (n done : ℕ) (c₀ c c' : Cursor) (st st' : List Kv × ℕ)
    → Reads c₀ c
    → Known c₀ done st
    → kv_loop n st c ≡ (some st', c')
    → Known c₀ (done + n) st' × Reads c₀ c'
unfolding kv_loop
kv_loop-Known zero done c₀ c c' st st' r k e =
    let same : st ≡ st' = Option.some-injective _ _ (ap (λ p. p.0) e) in
    let last : c ≡ c' = ap (λ p. p.1) e in
    let unit : done ≡ done + 0 = omega arith in
    (subst (λ m. Known c₀ m st') unit (subst (Known c₀ done) same k), subst (Reads c₀) last r)
kv_loop-Known (suc n) done c₀ c c' st st' r k e =
    let (mid, c₁, e₁, rest) = >>=-inv (kv_entry st) (kv_loop n) c c' st' e in
    let (k₁, r₁) = kv_entry-Known c₀ c c₁ done st mid r k e₁ in
    let next : suc done + n ≡ done + suc n = omega arith in
    subst (λ m. Known c₀ m st' × Reads c₀ c') next
      (kv_loop-Known n (suc done) c₀ c₁ c' mid st' r₁ k₁ rest)

-- When the metadata of a file loads, there are as many entries as its header says, the cursor is
-- still inside the file, and the alignment is 32 or a number that is not 0, which stands where the
-- value of the first entry does.
pub kv_load-Known :
    (n_kv : ℕ) (c c' : Cursor) (st : List Kv × ℕ)
    → IsInside c
    → kv_load n_kv c ≡ (some st, c')
    → Known c n_kv st × Reads c c'
unfolding kv_load
kv_load-Known n_kv c c' st h e =
    let unit : 0 + n_kv ≡ n_kv = omega arith in
    subst (λ n. Known c n st × Reads c c') unit
      (kv_loop-Known n_kv 0 c c c' ([], default_alignment) st
        (record { base = refl; size = refl; inside = h })
        (record { count = refl; alignment = default [] }) e)
