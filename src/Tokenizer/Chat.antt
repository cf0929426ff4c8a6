-- ===== src/Tokenizer/Chat.antt =====
-- The writing of chat prompts in `src/tokenizer.c`: the encoders behind `tokenize`, and the macros
-- `ADD` and `ADD_TEXT`. A step takes the tokens written so far, `none` being a probe that does not
-- end; the comparisons of floats are those of Spm.
pub mod Templates
pub mod Layout
pub mod Prompts
pub mod Room
pub mod Chatml
use mathlib.Core.Option
use tinyllama_c.Prelude.{
  ℕ, ◌+◌, ◌-◌, Bool, true, false, List, [], ◌∷◌, ◌++◌, Option, none, some, ltb, leb, ◌==◌,
  if◌then◌else◌, length, get_or,
}
use tinyllama_c.Vocab.Lookup.{
  Vocab, TokenizerType, tokenizer_none, spm, bpe, wpm, ugm, rwkv, whisper, vocab_id_none,
  vocab_lookup,
}
use tinyllama_c.Tokenizer.Lexicon.{lexicon}
use tinyllama_c.Tokenizer.Bpe.{tokenize_bpe}
use tinyllama_c.Tokenizer.Spm.{tokenize_spm}

-- What the prompts read of a `Session`.
pub record Session : Type 0 where
  pub vocab : Vocab
  pub no_think : Bool

-- `v->tokenizer_type == TOKENIZER_TYPE_SPM`
unfoldable pub is_spm : TokenizerType → Bool
is_spm tokenizer_none = false
is_spm spm = true
is_spm bpe = false
is_spm wpm = false
is_spm ugm = false
is_spm rwkv = false
is_spm whisper = false

abbrev pub Step : Type 0
Step = List ℕ → Option (List ℕ)

infixl 5 ◌>>◌
unfoldable pub ◌>>◌ : Step → Step → Step
◌>>◌ a b tokens = Option.bind (a tokens) b

-- `ADD`
unfoldable pub add : ℕ → ℕ → Step
add max_tokens id tokens =
    some (if ltb (length tokens) max_tokens then tokens ++ id ∷ [] else tokens)

unfoldable pub skip : Step
skip tokens = some tokens

-- A marker that the vocabulary did not record is looked up.
unfoldable pub marker : Vocab → ℕ → List ℕ → Option ℕ
marker v id text = if id == vocab_id_none then vocab_lookup v text else some id

module _ (float_gt float_eq : ℕ → ℕ → Bool) where
  unfoldable pub tokenize : Vocab → List ℕ → ℕ → Option (List ℕ)
  tokenize v text max_tokens =
      if is_spm v.tokenizer_type
      then tokenize_spm float_gt float_eq v text max_tokens true
      else tokenize_bpe (lexicon v) text max_tokens

  unfoldable pub gemma_text : Vocab → List ℕ → ℕ → Bool → Option (List ℕ)
  gemma_text v text max_out prefix_space =
      if is_spm v.tokenizer_type
      then tokenize_spm float_gt float_eq v text max_out prefix_space
      else tokenize_bpe (lexicon v) text max_out

  -- `ADD_TEXT` of the ChatML and Llama 3 templates.
  unfoldable pub add_text : Vocab → ℕ → List ℕ → Step
  add_text v max_tokens text tokens =
      if ltb (length tokens) max_tokens
      then Option.map (λ out. tokens ++ out) (tokenize v text (max_tokens - length tokens))
      else some tokens

  -- `ADD_TEXT` of the Gemma template.
  unfoldable pub add_gemma_text : Vocab → ℕ → List ℕ → Bool → Step
  add_gemma_text v max_tokens text prefix_space tokens =
      if ltb (length tokens) max_tokens
      then Option.map (λ out. tokens ++ out)
          (gemma_text v text (max_tokens - length tokens) prefix_space)
      else some tokens
