-- ===== src/Tokenizer/Chat/Room.antt =====
-- The ChatML prompts in a loaded vocabulary: they are always made, and fit the room there is.
use mathlib.Core.Option
use tinyllama_c.Prelude.{
  ℕ, ◌+◌, ◌≤◌, ◌≡◌, refl, inl, inr, Bool, true, false, List, [], ◌∷◌, ◌++◌, Option, some, ltb, ◌==◌,
  ◌||◌, arith, length, take, codes, Bool-cases, length-take, length-append,
}
use tinyllama_c.Vocab.Lookup.{vocab_id_none}
use tinyllama_c.Tokenizer.Lexicon.Loaded.{IsLoaded, vocab_lookup-total}
use tinyllama_c.Tokenizer.Chat.{Session, marker}
use tinyllama_c.Tokenizer.Chat.Templates.{
  newline, reasoning, chatml_add_reasoning, with_im_markers, chatml_prompt,
}
use tinyllama_c.Tokenizer.Chat.Prompts.{chatml_prompt-writes}

length-reasoning :
    (no_think : Bool) (max think_start think_end nl : ℕ) (tokens : List ℕ)
    → length tokens ≤ max
    → (out : List ℕ) × (reasoning no_think max think_start think_end nl tokens ≡ some out)
      × (length out ≤ max)
unfolding reasoning
length-reasoning false max ts te nl tokens h =
    elim (Bool-cases (ts == vocab_id_none || nl == vocab_id_none)) [
      | inl e ↦ (tokens, ground arith, h)
      | inr e ↦ elim (Bool-cases (ltb max (length tokens + 2))) [
        | inl full ↦ (tokens, ground arith, h)
        | inr fits ↦ (
          tokens ++ ts ∷ nl ∷ [],
          ground arith,
          ground (arith, length-append tokens (ts ∷ nl ∷ [])),
        )
      ]
    ]
length-reasoning true max ts te nl tokens h =
    elim (Bool-cases (ts == vocab_id_none || nl == vocab_id_none)) [
      | inl e ↦ (tokens, ground arith, h)
      | inr e ↦ elim (Bool-cases (te == vocab_id_none || ltb max (length tokens + 6))) [
        | inl full ↦ (tokens, ground arith, h)
        | inr fits ↦ (
          tokens ++ ts ∷ nl ∷ nl ∷ te ∷ nl ∷ nl ∷ [],
          ground arith,
          ground (arith, length-append tokens (ts ∷ nl ∷ nl ∷ te ∷ nl ∷ nl ∷ [])),
        )
      ]
    ]

length-cut : (max : ℕ) (tokens : List ℕ) → length (take max tokens) ≤ max
length-cut max tokens = omega (arith, length-take max tokens)

module _ (s : Session) (loaded : IsLoaded s.vocab) where
  marker-total : (id : ℕ) (text : List ℕ) → (m : ℕ) × (marker s.vocab id text ≡ some m)
  unfolding marker
  marker-total id text = elim (Bool-cases (id == vocab_id_none)) [
    | inl e ↦ let (m, found) = vocab_lookup-total loaded text in (m, ground arith)
    | inr e ↦ (id, ground arith)
  ]

  length-chatml_add_reasoning :
      (max : ℕ) (tokens : List ℕ)
      → length tokens ≤ max
      → (out : List ℕ) × (chatml_add_reasoning s max tokens ≡ some out) × (length out ≤ max)
  unfolding chatml_add_reasoning Option.bind
  length-chatml_add_reasoning max tokens h =
      let (ts, e) = marker-total s.vocab.think_start_id (codes "<think>") in
      let (te, e') = marker-total s.vocab.think_end_id (codes "</think>") in
      let (out, run, fits) = length-reasoning s.no_think max ts te (newline s.vocab) tokens h in
      (out, rw (e, e') run, fits)

  with_im_markers-total :
      (max : ℕ) (write : ℕ → ℕ → Option (List ℕ))
      → ((im_start im_end : ℕ)
          → (out : List ℕ) × (write im_start im_end ≡ some out) × (length out ≤ max))
      → (out : List ℕ) × (with_im_markers s.vocab write ≡ some out) × (length out ≤ max)
  unfolding with_im_markers Option.bind
  with_im_markers-total max write made =
      let (st, e) = marker-total s.vocab.im_start_id (codes "<|im_start|>") in
      let (en, e') = marker-total s.vocab.im_end_id (codes "<|im_end|>") in
      elim (Bool-cases (st == vocab_id_none || en == vocab_id_none)) [
        | inl absent ↦ ([], rw (e, e', absent) refl, omega arith)
        | inr both ↦ let (out, run, fits) = made st en in (out, rw (e, e', both) run, fits)
      ]

  -- In a loaded vocabulary the ChatML prompt is always made, and never exceeds the room there is.
  pub chatml_prompt-total :
      (float_gt float_eq : ℕ → ℕ → Bool) (max : ℕ) (user_msg sys_msg : List ℕ)
      → (out : List ℕ) × (chatml_prompt float_gt float_eq s max user_msg sys_msg ≡ some out)
        × (length out ≤ max)
  chatml_prompt-total float_gt float_eq max user_msg sys_msg =
      rw (chatml_prompt-writes float_gt float_eq s max user_msg sys_msg) (
        with_im_markers-total max _ (λ st en. length-chatml_add_reasoning max _ (length-cut max _)))
