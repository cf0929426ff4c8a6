-- ===== src/Tests/Tokens.antt =====
-- A small vocabulary: a token for every byte, number 256 for "ab" and number 257 for `<|x|>`.
use tinyllama_c.Prelude.{
  ℕ, ◌+◌, ◌%◌, ◌≤◌, ◌≡◌, ◌≢◌, ◌⊎◌, refl, Bool, false, ◌&&◌, List, [], ◌∷◌, ◌++◌, none, some, arith,
  ◌==◌, if◌then◌else◌, length, take, codes, ◌<◌, inl, inr, true, min, get_or,
}
use tinyllama_c.Vocab.Key.{key_eq, key_eq_iff}
use tinyllama_c.Tokenizer.Bpe.Special.{IsLongest, NoEntry, match_special_token-IsLongest}
use tinyllama_c.Vocab.Lookup.{vocab_id_none}
use tinyllama_c.Tokenizer.Lexicon.{Lexicon}
use tinyllama_c.Tokenizer.Chunk.{
  best_pair, byte_symbols, bpe_encode_chunk, merge_at, merge_step, merge_loop,
}
use tinyllama_c.Tokenizer.Chunk.Best.{IsBest, NoPair, best_pair-IsBest}
use tinyllama_c.Tokenizer.Chunk.Merge.{
  Covered, Greedy, byte_tokens, pieces, bpe_encode_chunk-Greedy,
}
use tinyllama_c.Tokenizer.Bpe.{
  tokenize_bpe, tokenize_loop, next_round, next_plain, next_space, next_word, run_length,
  char_category, contraction_length, match_special_token, scan_special, bpe_max_symbols,
}
use tinyllama_c.Tokenizer.Bpe.Loop.{tokenize_bpe-total, tokenize_bpe-pieces}

abbrev special_text : List ℕ
special_text = codes "<|x|>"

is_special : List ℕ → ℕ → Bool
is_special text len = len == 5 && key_eq (take 5 text) special_text

toy : Lexicon
unfolding is_special
toy = record {
  lookup = λ text. none;
  lookup_len = λ text len. if is_special text len then some 257 else none;
  merge_rank = λ a b. if (a == b'a' && b == b'b') then 0 else vocab_id_none;
  merge_result = λ a b. if (a == b'a' && b == b'b') then 256 else vocab_id_none;
  byte_token_id = λ b. b % 256;
}

abbrev piece : ℕ → List ℕ
piece id = if id == 256 then codes "ab" else if id == 257 then special_text else id ∷ []

piece-joins :
    (a b : ℕ)
    → toy.merge_result a b ≢ vocab_id_none
    → piece (toy.merge_result a b) ≡ piece a ++ piece b
unfolding toy
piece-joins a b h = ground arith

bytes_of_text : Covered toy (codes "cab<|x|>")
unfolding toy
bytes_of_text = ground arith

bytes_of_chunk : Covered toy (codes "cab")
unfolding toy
bytes_of_chunk = ground arith

tokenize_run :
    tokenize_bpe toy (codes "cab<|x|> ab") 100 ≡ some (b'c' ∷ 256 ∷ 257 ∷ b' ' ∷ 256 ∷ [])
unfolding tokenize_bpe tokenize_loop next_round next_plain next_space next_word run_length
    char_category contraction_length match_special_token scan_special bpe_encode_chunk byte_symbols
    merge_loop merge_step best_pair merge_at key_eq toy
tokenize_run = refl

total_example :
    ((out : List ℕ) × (tokenize_bpe toy (codes "cab") 2 ≡ some out)
      × (length out ≤ 3)
      × (length out ≤ 2)
      × (length out ≤ bpe_max_symbols))
    × ((syms : List ℕ) → merge_step toy (merge_loop toy (length syms) syms) ≡ none)
total_example = tokenize_bpe-total toy (codes "cab") 2

spells_itself :
    (text : List ℕ) (id len : ℕ)
    → toy.lookup_len text len ≡ some id
    → piece id ≡ pieces (λ b. piece (toy.byte_token_id b)) (take len text)
unfolding toy is_special
spells_itself text id len h =
    let hit : (len ≡ 5) × (id ≡ 257) × (key_eq (take 5 text) special_text ≡ true) = ground arith in
    let same : take 5 text ≡ special_text = (key_eq_iff (take 5 text) special_text).0 hit.2 in
    rw (hit.0, hit.1, same) (unfold pieces in refl)

specials :
    (text : List ℕ) (id len : ℕ)
    → match_special_token toy text ≡ some (id, len)
    → piece id ≡ pieces (λ b. piece (toy.byte_token_id b)) (take len text)
specials text id len h = elim (match_special_token-IsLongest toy text) [
  | inl (miss, _) ↦ cc
  | inr (id', len', e, _, _, is) ↦ spells_itself text id len (ground (arith, is.entry))
]

pieces_example :
    (out : List ℕ) × (tokenize_bpe toy (codes "cab<|x|>") 8 ≡ some out)
    × (pieces piece out ≡ pieces (λ b. piece (toy.byte_token_id b)) (codes "cab<|x|>"))
pieces_example =
    tokenize_bpe-pieces toy piece piece-joins specials (codes "cab<|x|>") 8 bytes_of_text
      (omega arith) (omega arith)

chunk_tokens_example :
    Greedy toy (take 512 (byte_tokens toy (codes "cab"))) (bpe_encode_chunk toy (codes "cab") 3)
chunk_tokens_example = bpe_encode_chunk-Greedy toy (codes "cab") 3 (omega arith)

best_pair_example :
    ((best_pair toy (codes "cab") ≡ none) × NoPair toy (codes "cab"))
    ⊎ ((k r : ℕ) × (best_pair toy (codes "cab") ≡ some k) × IsBest toy (codes "cab") k r)
best_pair_example = best_pair-IsBest toy (codes "cab")

special_example :
    ((match_special_token toy special_text ≡ none)
      × ((length special_text < 3)
          ⊎ ((get_or special_text 0 0 == b'<') ≡ false)
          ⊎ ((get_or special_text 1 0 == b'|') ≡ false)
          ⊎ NoEntry toy special_text 2 (min (length special_text) 64 + 1)))
    ⊎ ((id len : ℕ) × (match_special_token toy special_text ≡ some (id, len))
        × (get_or special_text 0 0 ≡ b'<')
        × (get_or special_text 1 0 ≡ b'|')
        × IsLongest toy special_text 2 (min (length special_text) 64 + 1) id len)
special_example = match_special_token-IsLongest toy special_text
