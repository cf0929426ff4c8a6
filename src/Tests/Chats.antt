-- ===== src/Tests/Chats.antt =====
-- Prompts and SentencePiece tokens of the small vocabulary. A float stands for itself here.
use tinyllama_c.Prelude.{
  ℕ, ◌≤◌, ◌≡◌, Bool, true, false, List, [], ◌∷◌, ◌++◌, some, arith, ltb, ◌==◌, length, take, codes,
}
use tinyllama_c.Tokenizer.Lexicon.{lexicon}
use tinyllama_c.Tokenizer.Spm.{tokenize_spm, join_loop}
use tinyllama_c.Tokenizer.Spm.Merges.{Settled, concat, join_loop-Settled}
use tinyllama_c.Tokenizer.Spm.Prefix.{spm_tokens, tokenize_spm-take}
use tinyllama_c.Tokenizer.Chat.{Session}
use tinyllama_c.Tokenizer.Chat.Templates.{newline, chatml_prompt, gemma_chat_prompt}
use tinyllama_c.Tokenizer.Chat.Layout.{if_present, bos_tokens, encoding}
use tinyllama_c.Tokenizer.Chat.Prompts.{gemma_open, gemma_close, gemma_chat_prompt-layout}
use tinyllama_c.Tokenizer.Chat.Room.{chatml_prompt-total}
use tinyllama_c.Tokenizer.Chat.Chatml.{
  IsMarker, kept, reasoning_mark, whole, chatml_text, chatml_prompt-layout,
}
use tinyllama_c.Tests.Sample.{small_vocab, small_vocab-IsLoaded}

abbrev gt : ℕ → ℕ → Bool
gt a b = ltb b a

abbrev eq : ℕ → ℕ → Bool
eq a b = a == b

abbrev session : Session
session = record { vocab = small_vocab; no_think = false }

join_loop_example :
    Settled gt eq
      (lexicon small_vocab)
      3
      (0 ∷ 0 ∷ 1 ∷ [])
      (join_loop gt eq (lexicon small_vocab) 3 (0 ∷ 0 ∷ 1 ∷ []) 2 (codes "a" ∷ codes "b" ∷ []))
    × (concat
          (join_loop gt eq (lexicon small_vocab) 3 (0 ∷ 0 ∷ 1 ∷ []) 2 (codes "a" ∷ codes "b" ∷ []))
        ≡ concat (codes "a" ∷ codes "b" ∷ []))
join_loop_example =
    join_loop-Settled gt eq (lexicon small_vocab) 3 (0 ∷ 0 ∷ 1 ∷ []) 2 (codes "a" ∷ codes "b" ∷ [])
      (omega arith)

spm_take_example :
    tokenize_spm gt eq small_vocab (codes "ab") 1 true
    ≡ some (take 1 (spm_tokens gt eq small_vocab (codes "ab") true))
spm_take_example = tokenize_spm-take gt eq small_vocab (codes "ab") 1 true

chatml_total_example :
    (out : List ℕ) × (chatml_prompt gt eq session 9 (codes "ab") [] ≡ some out) × (length out ≤ 9)
chatml_total_example = chatml_prompt-total session small_vocab-IsLoaded gt eq 9 (codes "ab") []

abbrev session_enc : List ℕ → List ℕ
session_enc text = encoding gt eq small_vocab text true

gemma_example :
    gemma_chat_prompt gt eq session 40 (codes "ab") []
    ≡ some (
        take 40 (
          bos_tokens small_vocab
          ++ (gemma_open gt eq session 40 (codes "user")
              ++ (if_present [] (
                    encoding gt eq small_vocab [] false
                    ++ encoding gt eq small_vocab (codes "\n\n") false)
                  ++ (encoding gt eq small_vocab (codes "ab") false
                      ++ gemma_close gt eq session 40)))))
gemma_example = gemma_chat_prompt-layout gt eq session 40 (codes "ab") []

recorded : (text : List ℕ) → IsMarker small_vocab 0 text 0
recorded text = kept (omega arith)

chatml_example :
    chatml_prompt gt eq session 40 (codes "ab") (codes "b")
    ≡ some (
        whole 40
          (take 40 (
            chatml_text
              (λ text. encoding gt eq small_vocab text true)
              (newline small_vocab)
              0
              0
              (codes "ab")
              (codes "b")))
          (reasoning_mark false 0 0 (newline small_vocab)))
chatml_example =
    chatml_prompt-layout gt eq session 40 (codes "ab") (codes "b") 0 0 0 0
      (recorded (codes "<|im_start|>")) (recorded (codes "<|im_end|>")) (recorded (codes "<think>"))
      (recorded (codes "</think>"))
