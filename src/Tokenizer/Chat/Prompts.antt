-- ===== src/Tokenizer/Chat/Prompts.antt =====
-- Each template writes its layout, cut at the room there is.
use mathlib.Core.Option
use mathlib.Core.Path.{fun_ext}
use mathlib.Core.List.{append_assoc}
use tinyllama_c.Prelude.{
  ℕ, ◌≡◌, refl, ap, Bool, true, false, List, [], ◌∷◌, ◌++◌, some, ◌==◌, ◌||◌, take, codes,
  if◌then◌else◌,
}
use tinyllama_c.Vocab.Lookup.{vocab_id_none}
use tinyllama_c.Tokenizer.Chat.{Session, Step, ◌>>◌, add, add_text, add_gemma_text}
use tinyllama_c.Tokenizer.Chat.Templates.{
  newline, chatml_add_reasoning, with_im_markers, llama3_markers, when_present, chatml_turn,
  chatml_prompt, chatml_continuation, llama3_turn, llama3_chat_prompt, llama3_chat_continuation,
  gemma_answer, gemma_chat_prompt, gemma_chat_continuation,
}
use tinyllama_c.Tokenizer.Chat.Layout.{
  Writes, if_present, bos_tokens, add-Writes, seq-Writes, present-Writes, bos-Writes, run-Writes,
  same-Writes, encoding, text-Writes, gemma-Writes,
}

module _ (enc : List ℕ → List ℕ) (nl : ℕ) where
  -- `<|im_start|>{role}\n{text}<|im_end|>\n`
  unfoldable pub chatml_block : ℕ → ℕ → List ℕ → List ℕ → List ℕ
  chatml_block im_start im_end role text =
      im_start ∷ (enc role ++ (nl ∷ (enc text ++ (im_end ∷ nl ∷ []))))

  -- The user's block, and the opening of the assistant's.
  unfoldable pub chatml_round : ℕ → ℕ → List ℕ → List ℕ
  unfolding chatml_block
  chatml_round im_start im_end user_msg =
      chatml_block im_start im_end (codes "user") user_msg
      ++ (im_start ∷ (enc (codes "assistant") ++ (nl ∷ [])))

  -- `<|start_header_id|>{role}<|end_header_id|>\n\n`
  unfoldable pub llama3_header : ℕ → ℕ → List ℕ → List ℕ
  llama3_header start end role = start ∷ (enc role ++ (end ∷ nl ∷ nl ∷ []))

  unfoldable pub llama3_round : ℕ → ℕ → ℕ → List ℕ → List ℕ
  unfolding llama3_header
  llama3_round start end eot user_msg =
      llama3_header start end (codes "user")
      ++ (enc user_msg ++ (eot ∷ llama3_header start end (codes "assistant")))

module _ (float_gt float_eq : ℕ → ℕ → Bool) (s : Session) (max : ℕ) where
  abbrev enc : List ℕ → List ℕ
  enc text = encoding float_gt float_eq s.vocab text true

  abbrev nl : ℕ
  nl = newline s.vocab

  abbrev put : (id : ℕ) → Writes max (add max id) (id ∷ [])
  put = add-Writes max

  abbrev say : (text : List ℕ) → Writes max (add_text float_gt float_eq s.vocab max text) (enc text)
  say = text-Writes float_gt float_eq s.vocab max

  infixl 5 ◌then◌
  abbrev ◌then◌ :
      {m n : Step} {t u : List ℕ} → Writes max m t → Writes max n u → Writes max (m >> n) (t ++ u)
  v then w = seq-Writes max v w

  chatml_turn-Writes :
      (im_start im_end : ℕ) (user_msg : List ℕ)
      → Writes max
          (chatml_turn float_gt float_eq s max im_start im_end user_msg)
          (chatml_round enc nl im_start im_end user_msg)
  unfolding chatml_turn chatml_round chatml_block
  chatml_turn-Writes im_start im_end user_msg =
      same-Writes max
        (put im_start
          then say (codes "user")
          then put nl
          then say user_msg
          then put im_end
          then put nl
          then put im_start
          then say (codes "assistant")
          then put nl)
        (simp append_assoc)

  llama3_turn-Writes :
      (start end eot : ℕ) (user_msg : List ℕ)
      → Writes max
          (llama3_turn float_gt float_eq s max start end eot user_msg)
          (llama3_round enc nl start end eot user_msg)
  unfolding llama3_turn llama3_round llama3_header
  llama3_turn-Writes start end eot user_msg =
      same-Writes max
        (put start
          then say (codes "user")
          then put end
          then put nl
          then put nl
          then say user_msg
          then put eot
          then put start
          then say (codes "assistant")
          then put end
          then put nl
          then put nl)
        (simp append_assoc)

  -- A step after one that writes its layout in an empty buffer.
  then-run :
      {m : Step} {t t' : List ℕ} (n : Step)
      → Writes max m t
      → t ≡ t'
      → (m >> n) [] ≡ n (take max t')
  unfolding ◌>>◌ Option.bind
  then-run {m} n w e = rw (run-Writes max w e) refl

  chatml_system-Writes :
      (im_start im_end : ℕ) (sys_msg : List ℕ)
      → Writes max
          (when_present sys_msg (
            add max im_start
            >> add_text float_gt float_eq s.vocab max (codes "system")
            >> add max nl
            >> add_text float_gt float_eq s.vocab max sys_msg
            >> add max im_end
            >> add max nl))
          (if_present sys_msg (chatml_block enc nl im_start im_end (codes "system") sys_msg))
  unfolding chatml_block
  chatml_system-Writes im_start im_end sys_msg = present-Writes max sys_msg (
      same-Writes max {t' = chatml_block enc nl im_start im_end (codes "system") sys_msg}
        (put im_start
          then say (codes "system")
          then put nl
          then say sys_msg
          then put im_end
          then put nl)
        (simp append_assoc))

  -- With both markers, the ChatML prompt is the system block, if there is a message, the user's
  -- block and the opening of the assistant's, cut at the room there is, and then the reasoning mark.
  pub chatml_prompt-writes :
      (user_msg sys_msg : List ℕ)
      → chatml_prompt float_gt float_eq s max user_msg sys_msg
        ≡ with_im_markers s.vocab (λ im_start im_end. chatml_add_reasoning s max (
            take max (
              if_present sys_msg (chatml_block enc nl im_start im_end (codes "system") sys_msg)
              ++ chatml_round enc nl im_start im_end user_msg)))
  unfolding chatml_prompt
  chatml_prompt-writes user_msg sys_msg = ap (with_im_markers s.vocab) (
      fun_ext (λ im_start. fun_ext (λ im_end.
        then-run (chatml_add_reasoning s max)
          (chatml_system-Writes im_start im_end sys_msg
            then chatml_turn-Writes im_start im_end user_msg)
          refl)))

  -- With both markers, the ChatML continuation closes the assistant's block and lays out the next
  -- round, cut at the room there is, and then writes the reasoning mark.
  pub chatml_continuation-layout :
      (user_msg : List ℕ)
      → chatml_continuation float_gt float_eq s max user_msg
        ≡ with_im_markers s.vocab (λ im_start im_end.
          chatml_add_reasoning s max
            (take max (im_end ∷ nl ∷ chatml_round enc nl im_start im_end user_msg)))
  unfolding chatml_continuation
  chatml_continuation-layout user_msg = ap (with_im_markers s.vocab) (
      fun_ext (λ im_start. fun_ext (λ im_end.
        then-run (chatml_add_reasoning s max)
          (put im_end then put nl then chatml_turn-Writes im_start im_end user_msg) refl)))

  -- With its three markers, the Llama 3 prompt is the beginning of text, the system header with its
  -- message, if there is one, and the round of the user, cut at the room there is.
  pub llama3_chat_prompt-layout :
      (user_msg sys_msg : List ℕ)
      → llama3_chat_prompt float_gt float_eq s max user_msg sys_msg
        ≡ llama3_markers s.vocab (λ start end eot. some (
            take max (
              bos_tokens s.vocab
              ++ (llama3_header enc nl start end (codes "system")
                  ++ (if_present sys_msg (enc sys_msg)
                      ++ (eot ∷ llama3_round enc nl start end eot user_msg))))))
  unfolding llama3_chat_prompt llama3_header
  llama3_chat_prompt-layout user_msg sys_msg = ap (llama3_markers s.vocab) (
      fun_ext (λ start. fun_ext (λ end. fun_ext (λ eot.
        run-Writes max
          (bos-Writes max s.vocab
            then put start
            then say (codes "system")
            then put end
            then put nl
            then put nl
            then present-Writes max sys_msg (say sys_msg)
            then put eot
            then llama3_turn-Writes start end eot user_msg)
          (simp append_assoc)))))

  -- With its three markers, the Llama 3 continuation ends the assistant's turn and lays out the
  -- round of the user, cut at the room there is.
  pub llama3_chat_continuation-layout :
      (user_msg : List ℕ)
      → llama3_chat_continuation float_gt float_eq s max user_msg
        ≡ llama3_markers s.vocab
            (λ start end eot. some (take max (eot ∷ llama3_round enc nl start end eot user_msg)))
  unfolding llama3_chat_continuation
  llama3_chat_continuation-layout user_msg = ap (llama3_markers s.vocab) (
      fun_ext (λ start. fun_ext (λ end.
        fun_ext
          (λ eot. run-Writes max (put eot then llama3_turn-Writes start end eot user_msg) refl))))

  abbrev gemma_enc : List ℕ → Bool → List ℕ
  gemma_enc = encoding float_gt float_eq s.vocab

  abbrev tell :
      (text : List ℕ) (prefix_space : Bool)
      → Writes max
          (add_gemma_text float_gt float_eq s.vocab max text prefix_space)
          (gemma_enc text prefix_space)
  tell = gemma-Writes float_gt float_eq s.vocab max

  -- `<start_of_turn>{role}\n`
  unfoldable pub gemma_open : List ℕ → List ℕ
  gemma_open role = s.vocab.start_of_turn_id ∷ (gemma_enc role true ++ gemma_enc (codes "\n") false)

  -- `<end_of_turn>\n<start_of_turn>model\n`
  unfoldable pub gemma_close : List ℕ
  unfolding gemma_open
  gemma_close =
      s.vocab.end_of_turn_id ∷ (gemma_enc (codes "\n") false ++ gemma_open (codes "model"))

  gemma_answer-Writes :
      Writes max
        (gemma_answer float_gt float_eq s max s.vocab.start_of_turn_id s.vocab.end_of_turn_id)
        gemma_close
  unfolding gemma_answer gemma_close gemma_open
  gemma_answer-Writes =
      same-Writes max
        (put s.vocab.end_of_turn_id
          then tell (codes "\n") false
          then put s.vocab.start_of_turn_id
          then tell (codes "model") true
          then tell (codes "\n") false)
        (simp append_assoc)

  abbrev no_turns : Bool
  no_turns = s.vocab.start_of_turn_id == vocab_id_none || s.vocab.end_of_turn_id == vocab_id_none

  -- Without a marker of turns the Gemma prompt is empty; with both it is the beginning of text, one
  -- user turn of the system message, if there is one, and the user's, and the open turn of the
  -- model, cut at the room there is.
  pub gemma_chat_prompt-layout :
      (user_msg sys_msg : List ℕ)
      → gemma_chat_prompt float_gt float_eq s max user_msg sys_msg ≡ (
          if no_turns
          then some []
          else some (
              take max (
                bos_tokens s.vocab
                ++ (gemma_open (codes "user")
                    ++ (if_present sys_msg
                          (gemma_enc sys_msg false ++ gemma_enc (codes "\n\n") false)
                        ++ (gemma_enc user_msg false ++ gemma_close))))))
  unfolding gemma_chat_prompt gemma_open
  gemma_chat_prompt-layout user_msg sys_msg =
      ap (λ t. if no_turns then some [] else t)
        (run-Writes max
          (bos-Writes max s.vocab
            then put s.vocab.start_of_turn_id
            then tell (codes "user") true
            then tell (codes "\n") false
            then present-Writes max sys_msg (tell sys_msg false then tell (codes "\n\n") false)
            then tell user_msg false
            then gemma_answer-Writes)
          (simp append_assoc))

  -- Without a marker of turns the Gemma continuation is empty; with both it ends the model's turn
  -- and lays out the user's and the open turn of the model, cut at the room there is.
  pub gemma_chat_continuation-layout :
      (user_msg : List ℕ)
      → gemma_chat_continuation float_gt float_eq s max user_msg ≡ (
          if no_turns
          then some []
          else some (
              take max (
                s.vocab.end_of_turn_id
                ∷ (gemma_enc (codes "\n") false
                    ++ (gemma_open (codes "user") ++ (gemma_enc user_msg false ++ gemma_close))))))
  unfolding gemma_chat_continuation gemma_open
  gemma_chat_continuation-layout user_msg =
      ap (λ t. if no_turns then some [] else t)
        (run-Writes max
          (put s.vocab.end_of_turn_id
            then tell (codes "\n") false
            then put s.vocab.start_of_turn_id
            then tell (codes "user") true
            then tell (codes "\n") false
            then tell user_msg false
            then gemma_answer-Writes)
          (simp append_assoc))
