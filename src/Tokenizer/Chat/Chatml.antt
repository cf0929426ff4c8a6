-- ===== src/Tokenizer/Chat/Chatml.antt =====
-- The whole ChatML prompt of `src/tokenizer.c`, with its markers and the reasoning mark.
use mathlib.Core.Option
use mathlib.Core.List.{append-nil}
use tinyllama_c.Prelude.{
  ℕ, ◌+◌, ◌≡◌, ◌≢◌, refl, ◌∙◌, inl, inr, Bool, true, false, List, [], ◌∷◌, ◌++◌, some, leb, ◌==◌,
  if◌then◌else◌, arith, length, take, codes, Bool-cases,
}
use tinyllama_c.Vocab.Lookup.{Vocab, vocab_id_none, vocab_lookup}
use tinyllama_c.Tokenizer.Chat.{Session, marker}
use tinyllama_c.Tokenizer.Chat.Templates.{
  newline, reasoning, chatml_add_reasoning, with_im_markers, chatml_prompt,
}
use tinyllama_c.Tokenizer.Chat.Layout.{if_present, encoding}
use tinyllama_c.Tokenizer.Chat.Prompts.{chatml_block, chatml_round, chatml_prompt-writes}

-- The token of a marker: what the vocabulary recorded, or else what it finds.
pub data IsMarker (v : Vocab) (recorded : ℕ) (text : List ℕ) : ℕ → Type 0 where
  kept : recorded ≢ vocab_id_none → IsMarker v recorded text recorded
  found :
      {m : ℕ} → recorded ≡ vocab_id_none → vocab_lookup v text ≡ some m → IsMarker v recorded text m

IsMarker-marker :
    (v : Vocab) (recorded : ℕ) (text : List ℕ) (m : ℕ)
    → IsMarker v recorded text m
    → marker v recorded text ≡ some m
unfolding marker
IsMarker-marker v recorded text _ (kept h) = ground (arith, h)
IsMarker-marker v recorded text m (found e run) = ground (arith, e, run)

abbrev pub absent : ℕ → Bool
absent id = id == vocab_id_none

-- `<think>\n`, or without thinking `<think>\n\n</think>\n\n`; nothing where a token of it is absent.
abbrev pub reasoning_mark : Bool → ℕ → ℕ → ℕ → List ℕ
reasoning_mark false think_start think_end nl =
    if absent think_start then [] else if absent nl then [] else think_start ∷ nl ∷ []
reasoning_mark true think_start think_end nl =
    if absent think_start
    then []
    else if absent nl
    then []
    else if absent think_end
    then []
    else think_start ∷ nl ∷ nl ∷ think_end ∷ nl ∷ nl ∷ []

-- All of the mark, where there is room for it.
abbrev pub whole : ℕ → List ℕ → List ℕ → List ℕ
whole max tokens mark = if leb (length tokens + length mark) max then tokens ++ mark else tokens

whole-nil : (max : ℕ) (tokens : List ℕ) → whole max tokens [] ≡ tokens
whole-nil max tokens = ground (arith, append-nil tokens)

reasoning-whole :
    (no_think : Bool) (max think_start think_end nl : ℕ) (tokens : List ℕ)
    → reasoning no_think max think_start think_end nl tokens
      ≡ some (whole max tokens (reasoning_mark no_think think_start think_end nl))
unfolding reasoning
reasoning-whole false max ts te nl tokens = ground (arith, append-nil tokens)
reasoning-whole true max ts te nl tokens = ground (arith, append-nil tokens)

-- `[<|im_start|>system\n{sys}<|im_end|>\n]<|im_start|>user\n{user}<|im_end|>\n<|im_start|>assistant\n`
abbrev pub chatml_text : (List ℕ → List ℕ) → ℕ → ℕ → ℕ → List ℕ → List ℕ → List ℕ
chatml_text enc nl im_start im_end user_msg sys_msg =
    if_present sys_msg
      (im_start ∷ (enc (codes "system") ++ (nl ∷ (enc sys_msg ++ (im_end ∷ nl ∷ [])))))
    ++ ((im_start ∷ (enc (codes "user") ++ (nl ∷ (enc user_msg ++ (im_end ∷ nl ∷ [])))))
        ++ (im_start ∷ (enc (codes "assistant") ++ (nl ∷ []))))

-- Where the four markers are known or their look-ups end: without one of the two ChatML markers the
-- prompt is empty; with both it is the system block, if there is a message, the user's block and the
-- opening of the assistant's, cut at the room there is, and then all of the reasoning mark, if there
-- is room for it.
pub chatml_prompt-layout :
    (float_gt float_eq : ℕ → ℕ → Bool) (s : Session) (max : ℕ) (user_msg sys_msg : List ℕ)
    (im_start im_end think_start think_end : ℕ)
    → IsMarker s.vocab s.vocab.im_start_id (codes "<|im_start|>") im_start
    → IsMarker s.vocab s.vocab.im_end_id (codes "<|im_end|>") im_end
    → IsMarker s.vocab s.vocab.think_start_id (codes "<think>") think_start
    → IsMarker s.vocab s.vocab.think_end_id (codes "</think>") think_end
    → chatml_prompt float_gt float_eq s max user_msg sys_msg
      ≡ some (
          if absent im_start
          then []
          else if absent im_end
          then []
          else whole max
              (take max (
                chatml_text
                  (λ text. encoding float_gt float_eq s.vocab text true)
                  (newline s.vocab)
                  im_start
                  im_end
                  user_msg
                  sys_msg))
              (reasoning_mark s.no_think think_start think_end (newline s.vocab)))
unfolding with_im_markers chatml_add_reasoning Option.bind chatml_block chatml_round
chatml_prompt-layout float_gt float_eq s max user_msg sys_msg st en ts te hst hen hts hte =
    let v = s.vocab in
    let e1 = IsMarker-marker v v.im_start_id (codes "<|im_start|>") st hst in
    let e2 = IsMarker-marker v v.im_end_id (codes "<|im_end|>") en hen in
    let e3 = IsMarker-marker v v.think_start_id (codes "<think>") ts hts in
    let e4 = IsMarker-marker v v.think_end_id (codes "</think>") te hte in
    chatml_prompt-writes float_gt float_eq s max user_msg sys_msg
    ∙ rw (e1, e2)
        (elim (Bool-cases (absent st)) [
          | inl gone ↦ rw gone refl
          | inr there ↦ elim (Bool-cases (absent en)) [
            | inl gone ↦ rw (there, gone) refl
            | inr both ↦
                rw (there, both, e3, e4) (reasoning-whole s.no_think max ts te (newline v) _)
          ]
        ])
