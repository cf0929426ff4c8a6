-- ===== src/Loading/Specials.antt =====
-- The special ids of a vocabulary, `src/core.c`.
use mathlib.Core.Option
use tinyllama_c.Prelude.{
  ℕ, ◌||◌, List, [], ◌∷◌, ◌++◌, Option, none, some, ◌==◌, if◌then◌else◌, codes,
}
use tinyllama_c.Vocab.Lookup.{Vocab, vocab_id_none, vocab_try_lookup}
use tinyllama_c.Gguf.Model.{Model, model_get_i32}

-- U+FF5C and U+2581 in UTF-8.
abbrev bar : List ℕ
bar = 0xEF ∷ 0xBD ∷ 0x9C ∷ []

abbrev low : List ℕ
low = 0xE2 ∷ 0x96 ∷ 0x81 ∷ []

-- `<｜begin▁of▁sentence｜>` and its like.
abbrev sentence : List ℕ → List ℕ
sentence word =
    codes "<"
    ++ (bar ++ (word ++ (low ++ (codes "of" ++ (low ++ (codes "sentence" ++ (bar ++ codes ">")))))))

unfoldable pub spm_bos : List (List ℕ)
spm_bos =
    codes "<s>"
    ∷ codes "<bos>"
    ∷ codes "<|begin_of_text|>"
    ∷ sentence (codes "begin")
    ∷ codes "<|im_start|>"
    ∷ []

unfoldable pub spm_eos : List (List ℕ)
spm_eos =
    codes "</s>"
    ∷ codes "<eos>"
    ∷ codes "<|end_of_text|>"
    ∷ sentence (codes "end")
    ∷ codes "<|im_end|>"
    ∷ []

unfoldable pub bpe_bos : List (List ℕ)
bpe_bos =
    codes "<|begin_of_text|>"
    ∷ sentence (codes "begin")
    ∷ codes "<|im_start|>"
    ∷ codes "<bos>"
    ∷ codes "<s>"
    ∷ []

unfoldable pub bpe_eos : List (List ℕ)
bpe_eos =
    codes "<|end_of_text|>"
    ∷ sentence (codes "end")
    ∷ codes "<|im_end|>"
    ∷ codes "<eos>"
    ∷ codes "</s>"
    ∷ []

-- The id of the first candidate that is a token.
unfoldable pub first_known : Vocab → List (List ℕ) → Option ℕ
first_known v [] = some vocab_id_none
first_known v (c ∷ cs) =
    let rest = first_known v cs in
    Option.bind (vocab_try_lookup v c) (λ r. elim r [ some id ↦ some id | none ↦ rest ])

-- The id in the metadata, or else that of a candidate.
unfoldable pub special_id : Model → Vocab → List ℕ → List (List ℕ) → Option ℕ
special_id m v key cands = elim (model_get_i32 m key) [
  | some id ↦ some id
  | none ↦ first_known v cands
]

-- Both ids; a missing one ends the process.
unfoldable pub bos_eos : Model → Vocab → List (List ℕ) → List (List ℕ) → Option (ℕ × ℕ)
bos_eos m v bos_cands eos_cands =
    Option.bind (special_id m v (codes "tokenizer.ggml.bos_token_id") bos_cands) (λ bos.
      Option.bind (special_id m v (codes "tokenizer.ggml.eos_token_id") eos_cands)
        (λ eos. if bos == vocab_id_none || eos == vocab_id_none then none else some (bos, eos)))

-- `(void)vocab_try_lookup(v, text, &id)` on an id that is `VOCAB_ID_NONE`.
unfoldable pub optional_id : Vocab → List ℕ → Option ℕ
optional_id v text = Option.map (λ r. Option.get_or r vocab_id_none) (vocab_try_lookup v text)

unfoldable pub with_specials : Vocab → ℕ → ℕ → Option Vocab
with_specials v bos eos =
    Option.bind (optional_id v (codes "<" ++ (bar ++ (codes "User" ++ (bar ++ codes ">")))))
      (λ user.
        Option.bind
          (optional_id v (codes "<" ++ (bar ++ (codes "Assistant" ++ (bar ++ codes ">")))))
          (λ assistant. Option.bind (optional_id v (codes "<think>")) (λ think.
            Option.bind (optional_id v (codes "</think>")) (λ think_end.
              Option.bind (optional_id v (bar ++ (codes "DSML" ++ bar))) (λ dsml.
                Option.bind (optional_id v (codes "<|im_start|>")) (λ im_start.
                  Option.bind (optional_id v (codes "<|im_end|>")) (λ im_end.
                    Option.bind (optional_id v (codes "<start_of_turn>")) (λ turn.
                      Option.map
                        (λ turn_end. record v {
                          bos_id = bos;
                          eos_id = eos;
                          user_id = user;
                          assistant_id = assistant;
                          think_start_id = think;
                          think_end_id = think_end;
                          dsml_id = dsml;
                          im_start_id = im_start;
                          im_end_id = im_end;
                          start_of_turn_id = turn;
                          end_of_turn_id = turn_end;
                        })
                        (optional_id v (codes "<end_of_turn>"))))))))))
