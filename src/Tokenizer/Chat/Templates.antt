-- ===== src/Tokenizer/Chat/Templates.antt =====
-- The chat templates of `src/tokenizer.c`: ChatML, Llama 3 and Gemma. A missing system message and
-- an empty one are both `[]`, and a template that returns 0 gives no tokens.
use mathlib.Core.Option
use tinyllama_c.Prelude.{
  ℕ, ◌+◌, Bool, true, false, ◌||◌, List, [], ◌∷◌, ◌++◌, Option, some, ltb, ◌==◌, if◌then◌else◌,
  length, get_or, codes,
}
use tinyllama_c.Vocab.Lookup.{Vocab, vocab_id_none, vocab_lookup}
use tinyllama_c.Tokenizer.Chat.{Session, Step, ◌>>◌, add, skip, marker, add_text, add_gemma_text}

-- `v->byte_token_ids[(unsigned char)'\n']`
unfoldable pub newline : Vocab → ℕ
newline v = get_or v.byte_token_ids 10 vocab_id_none

-- The marker of an assistant turn, all of it or nothing.
unfoldable pub reasoning : Bool → ℕ → ℕ → ℕ → ℕ → Step
reasoning no_think max_tokens think_start think_end nl tokens =
    if think_start == vocab_id_none || nl == vocab_id_none then some tokens else elim no_think [
      | false ↦
          some
            (if ltb max_tokens (length tokens + 2) then tokens else tokens ++ think_start ∷ nl ∷ [])
      | true ↦ some (
          if think_end == vocab_id_none || ltb max_tokens (length tokens + 6)
          then tokens
          else tokens ++ think_start ∷ nl ∷ nl ∷ think_end ∷ nl ∷ nl ∷ [])
    ]

unfoldable pub chatml_add_reasoning : Session → ℕ → Step
unfolding reasoning
chatml_add_reasoning s max_tokens tokens =
    Option.bind (marker s.vocab s.vocab.think_start_id (codes "<think>")) (λ think_start.
      Option.bind (marker s.vocab s.vocab.think_end_id (codes "</think>")) (λ think_end.
        reasoning s.no_think max_tokens think_start think_end (newline s.vocab) tokens))

-- Both ChatML markers, or nothing.
unfoldable pub with_im_markers : Vocab → (ℕ → ℕ → Option (List ℕ)) → Option (List ℕ)
with_im_markers v write = Option.bind (marker v v.im_start_id (codes "<|im_start|>")) (λ im_start.
    Option.bind (marker v v.im_end_id (codes "<|im_end|>")) (λ im_end.
      if im_start == vocab_id_none || im_end == vocab_id_none
      then some []
      else write im_start im_end))

-- The three Llama 3 markers, or nothing.
unfoldable pub llama3_markers : Vocab → (ℕ → ℕ → ℕ → Option (List ℕ)) → Option (List ℕ)
llama3_markers v write = Option.bind (vocab_lookup v (codes "<|start_header_id|>")) (λ start.
    Option.bind (vocab_lookup v (codes "<|end_header_id|>")) (λ end.
      Option.bind (vocab_lookup v (codes "<|eot_id|>")) (λ eot.
        if start == vocab_id_none || end == vocab_id_none || eot == vocab_id_none
        then some []
        else write start end eot)))

-- `if (sys_msg && sys_msg[0])`
unfoldable pub when_present : List ℕ → Step → Step
when_present [] step = skip
when_present (c ∷ cs) step = step

-- `if (v->bos_id != VOCAB_ID_NONE) ADD(v->bos_id);`
unfoldable pub add_bos : Vocab → ℕ → Step
add_bos v max_tokens = if v.bos_id == vocab_id_none then skip else add max_tokens v.bos_id

module _ (float_gt float_eq : ℕ → ℕ → Bool) (s : Session) (max : ℕ) where
  abbrev text_step : List ℕ → Step
  text_step = add_text float_gt float_eq s.vocab max

  abbrev gemma_step : List ℕ → Bool → Step
  gemma_step = add_gemma_text float_gt float_eq s.vocab max

  -- From the user's message to the open turn of the assistant.
  unfoldable pub chatml_turn : ℕ → ℕ → List ℕ → Step
  chatml_turn im_start im_end user_msg =
      let nl = newline s.vocab in
      add max im_start
      >> text_step (codes "user")
      >> add max nl
      >> text_step user_msg
      >> add max im_end
      >> add max nl
      >> add max im_start
      >> text_step (codes "assistant")
      >> add max nl

  unfoldable pub chatml_prompt : List ℕ → List ℕ → Option (List ℕ)
  chatml_prompt user_msg sys_msg =
      let nl = newline s.vocab in
      with_im_markers s.vocab (λ im_start im_end.
        (when_present sys_msg (
              add max im_start
              >> text_step (codes "system")
              >> add max nl
              >> text_step sys_msg
              >> add max im_end
              >> add max nl)
            >> chatml_turn im_start im_end user_msg
            >> chatml_add_reasoning s max)
          [])

  unfoldable pub chatml_continuation : List ℕ → Option (List ℕ)
  chatml_continuation user_msg = with_im_markers s.vocab (λ im_start im_end.
      (add max im_end
          >> add max (newline s.vocab)
          >> chatml_turn im_start im_end user_msg
          >> chatml_add_reasoning s max)
        [])

  unfoldable pub llama3_turn : ℕ → ℕ → ℕ → List ℕ → Step
  llama3_turn start end eot user_msg =
      let nl = newline s.vocab in
      add max start
      >> text_step (codes "user")
      >> add max end
      >> add max nl
      >> add max nl
      >> text_step user_msg
      >> add max eot
      >> add max start
      >> text_step (codes "assistant")
      >> add max end
      >> add max nl
      >> add max nl

  unfoldable pub llama3_chat_prompt : List ℕ → List ℕ → Option (List ℕ)
  llama3_chat_prompt user_msg sys_msg =
      let nl = newline s.vocab in
      llama3_markers s.vocab (λ start end eot.
        (add_bos s.vocab max
            >> add max start
            >> text_step (codes "system")
            >> add max end
            >> add max nl
            >> add max nl
            >> when_present sys_msg (text_step sys_msg)
            >> add max eot
            >> llama3_turn start end eot user_msg)
          [])

  unfoldable pub llama3_chat_continuation : List ℕ → Option (List ℕ)
  llama3_chat_continuation user_msg =
      llama3_markers s.vocab
        (λ start end eot. (add max eot >> llama3_turn start end eot user_msg) [])

  -- The end of a user's turn, and the open turn of the model.
  unfoldable pub gemma_answer : ℕ → ℕ → Step
  gemma_answer st et =
      add max et
      >> gemma_step (codes "\n") false
      >> add max st
      >> gemma_step (codes "model") true
      >> gemma_step (codes "\n") false

  unfoldable pub gemma_chat_prompt : List ℕ → List ℕ → Option (List ℕ)
  gemma_chat_prompt user_msg sys_msg =
      let st = s.vocab.start_of_turn_id in
      let et = s.vocab.end_of_turn_id in
      if st == vocab_id_none || et == vocab_id_none
      then some []
      else (add_bos s.vocab max
            >> add max st
            >> gemma_step (codes "user") true
            >> gemma_step (codes "\n") false
            >> when_present sys_msg (gemma_step sys_msg false >> gemma_step (codes "\n\n") false)
            >> gemma_step user_msg false
            >> gemma_answer st et)
          []

  unfoldable pub gemma_chat_continuation : List ℕ → Option (List ℕ)
  gemma_chat_continuation user_msg =
      let st = s.vocab.start_of_turn_id in
      let et = s.vocab.end_of_turn_id in
      if st == vocab_id_none || et == vocab_id_none
      then some []
      else (add max et
            >> gemma_step (codes "\n") false
            >> add max st
            >> gemma_step (codes "user") true
            >> gemma_step (codes "\n") false
            >> gemma_step user_msg false
            >> gemma_answer st et)
          []
