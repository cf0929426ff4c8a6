-- ===== src/Tokenizer/Chat/Layout.antt =====
-- What the templates write: the parts of the template in order, cut at the room there is.
use mathlib.Core.Option
use mathlib.Core.List.{append_assoc, append-nil}
use mathlib.Core.Path.{subst}
use tinyllama_c.Prelude.{
  ℕ, ◌-◌, ◌≡◌, refl, ◌∙◌, ap, inl, inr, Bool, true, List, [], ◌∷◌, ◌++◌, some, ◌==◌, length, arith,
  take, write-append, write-snoc, take-nil, if◌then◌else◌, Bool-cases,
}
use tinyllama_c.Vocab.Lookup.{Vocab, vocab_id_none}
use tinyllama_c.Tokenizer.Lexicon.{lexicon}
use tinyllama_c.Tokenizer.Bpe.Loop.{bpe_tokens, tokenize_bpe-take}
use tinyllama_c.Tokenizer.Spm.Prefix.{spm_tokens, tokenize_spm-take}
use tinyllama_c.Tokenizer.Chat.{
  Step, ◌>>◌, add, skip, is_spm, tokenize, gemma_text, add_text, add_gemma_text,
}
use tinyllama_c.Tokenizer.Chat.Templates.{when_present, add_bos}

-- A part that is written if the message is there.
unfoldable pub if_present : List ℕ → List ℕ → List ℕ
if_present [] t = []
if_present (c ∷ cs) t = t

-- The beginning of a text, where the vocabulary has one.
unfoldable pub bos_tokens : Vocab → List ℕ
bos_tokens v = if v.bos_id == vocab_id_none then [] else v.bos_id ∷ []

-- A step writes the tokens `t` after those that are there, up to `max` in all.
pub record Writes (max : ℕ) (step : Step) (t : List ℕ) : Type 0 where
  pub apply : (a : List ℕ) → step (take max a) ≡ some (take max (a ++ t))

module _ (max : ℕ) where
  pub add-Writes : (id : ℕ) → Writes max (add max id) (id ∷ [])
  unfolding add
  add-Writes id = record { apply = λ a. ap some (write-snoc max a id) }

  pub skip-Writes : Writes max skip []
  unfolding skip
  skip-Writes = record { apply = λ a. rw (append-nil a) refl }

  pub seq-Writes :
      {m n : Step} {s t : List ℕ} → Writes max m s → Writes max n t → Writes max (m >> n) (s ++ t)
  unfolding ◌>>◌ Option.bind
  seq-Writes {m} {n} {s} {t} v w = record {
    apply =
        λ a. rw (v.apply a) (w.apply (a ++ s) ∙ ap (λ x. some (take max x)) (append_assoc a s t));
  }

  pub same-Writes : {m : Step} {t t' : List ℕ} → Writes max m t → t ≡ t' → Writes max m t'
  same-Writes {m} w e = subst (λ x. Writes max m x) e w

  -- From an empty buffer.
  pub run-Writes : {m : Step} {t t' : List ℕ} → Writes max m t → t ≡ t' → m [] ≡ some (take max t')
  run-Writes {m} w e = rw (take-nil {A = ℕ} max) at (w.apply []) ∙ ap (λ x. some (take max x)) e

  pub present-Writes :
      (msg : List ℕ) {m : Step} {t : List ℕ}
      → Writes max m t
      → Writes max (when_present msg m) (if_present msg t)
  unfolding when_present if_present
  present-Writes [] w = skip-Writes
  present-Writes (c ∷ cs) w = w

  pub bos-Writes : (v : Vocab) → Writes max (add_bos v max) (bos_tokens v)
  unfolding add_bos bos_tokens
  bos-Writes v = elim (Bool-cases (v.bos_id == vocab_id_none)) [
    | inl e ↦ rw e skip-Writes
    | inr e ↦ rw e (add-Writes v.bos_id)
  ]

module _ (float_gt float_eq : ℕ → ℕ → Bool) (v : Vocab) where
  -- All tokens of a text, as the vocabulary's encoder makes them.
  unfoldable pub encoding : List ℕ → Bool → List ℕ
  encoding text prefix_space =
      if is_spm v.tokenizer_type
      then spm_tokens float_gt float_eq v text prefix_space
      else bpe_tokens (lexicon v) text

  pub gemma_text-take :
      (text : List ℕ) (max : ℕ) (prefix_space : Bool)
      → gemma_text float_gt float_eq v text max prefix_space
        ≡ some (take max (encoding text prefix_space))
  unfolding gemma_text encoding
  gemma_text-take text max prefix_space = ground (
    arith,
    tokenize_spm-take float_gt float_eq v text max prefix_space,
    tokenize_bpe-take (lexicon v) text max,
  )

  tokenize-take :
      (text : List ℕ) (max : ℕ)
      → tokenize float_gt float_eq v text max ≡ some (take max (encoding text true))
  unfolding tokenize encoding
  tokenize-take text max = ground (
    arith,
    tokenize_spm-take float_gt float_eq v text max true,
    tokenize_bpe-take (lexicon v) text max,
  )

  pub text-Writes :
      (max : ℕ) (text : List ℕ)
      → Writes max (add_text float_gt float_eq v max text) (encoding text true)
  unfolding add_text
  text-Writes max text = record {
    apply = λ a. ground (
      arith,
      tokenize-take text (max - length (take max a)),
      write-append max a (encoding text true),
    );
  }

  pub gemma-Writes :
      (max : ℕ) (text : List ℕ) (prefix_space : Bool)
      → Writes max
          (add_gemma_text float_gt float_eq v max text prefix_space)
          (encoding text prefix_space)
  unfolding add_gemma_text
  gemma-Writes max text prefix_space = record {
    apply = λ a. ground (
      arith,
      gemma_text-take text (max - length (take max a)) prefix_space,
      write-append max a (encoding text prefix_space),
    );
  }
