-- ===== src/Tokenizer/Bpe/Special.antt =====
-- `match_special_token` against its specification: the longest entry that the text begins with.
use native.Mathlib.Decide.{dec_lt, ℕ_discrete}
use tinyllama_c.Prelude.{
  ℕ, zero, suc, ◌+◌, ◌-◌, ◌≤◌, ◌<◌, ◌≡◌, ◌⊎◌, inl, inr, min, refl, false, List, Option, none, some,
  length, get_or, arith, Option-cases, ◌==◌, Bool-cases,
}
use tinyllama_c.Tokenizer.Lexicon.{Lexicon}
use tinyllama_c.Tokenizer.Bpe.{scan_special, match_special_token}

module _ (lex : Lexicon) where
  -- Of the lengths from `lo` on, below `hi`, the one at which the text was last found.
  pub record IsLongest (text : List ℕ) (lo hi id len : ℕ) : Type 0 where
    pub from : lo ≤ len
    pub below : len < hi
    pub entry : lex.lookup_len text len ≡ some id
    pub longest : (m : ℕ) → len < m → m < hi → lex.lookup_len text m ≡ none

  abbrev pub NoEntry : List ℕ → ℕ → ℕ → Type 0
  NoEntry text lo hi = (m : ℕ) → lo ≤ m → m < hi → lex.lookup_len text m ≡ none

  scan_special-cases :
      (text : List ℕ) (rounds len : ℕ) (best : Option (ℕ × ℕ))
      → ((scan_special lex text rounds len best ≡ best) × NoEntry text len (len + rounds))
        ⊎ ((id l : ℕ) × (scan_special lex text rounds len best ≡ some (id, l))
            × IsLongest text len (len + rounds) id l)
  unfolding scan_special
  scan_special-cases text zero len best = inl (refl, λ m lo hi. absurd (omega arith))
  scan_special-cases text (suc rounds) len best = elim (Option-cases (lex.lookup_len text len)) [
    | inl miss ↦ elim (scan_special-cases text rounds (len + 1) best) [
      | inl (e, bare) ↦ inl (
        rw miss e,
        λ m lo hi. elim (ℕ_discrete m len) [
          | yes same ↦ rw same miss
          | no other ↦ bare m (omega arith) (omega arith)
        ],
      )
      | inr (id, l, e, is) ↦ inr (
        id,
        l,
        rw miss e,
        record {
          from = omega (arith, is.from);
          below = omega (arith, is.below);
          entry = is.entry;
          longest = λ m lo hi. is.longest m lo (omega arith);
        },
      )
    ]
    | inr (id, hit) ↦ elim (scan_special-cases text rounds (len + 1) (some (id, len))) [
      | inl (e, bare) ↦ inr (
        id,
        len,
        rw hit e,
        record {
          from = omega arith;
          below = omega arith;
          entry = hit;
          longest = λ m lo hi. bare m (omega arith) (omega arith);
        },
      )
      | inr (id', l, e, is) ↦ inr (
        id',
        l,
        rw hit e,
        record {
          from = omega (arith, is.from);
          below = omega (arith, is.below);
          entry = is.entry;
          longest = λ m lo hi. is.longest m lo (omega arith);
        },
      )
    ]
  ]

  -- A text of three bytes or more that begins with `<|` matches its longest entry of 2 to 64 bytes,
  -- and nothing exactly when it has none; every other text matches nothing.
  pub match_special_token-IsLongest :
      (text : List ℕ)
      → ((match_special_token lex text ≡ none)
          × ((length text < 3)
              ⊎ ((get_or text 0 0 == b'<') ≡ false)
              ⊎ ((get_or text 1 0 == b'|') ≡ false)
              ⊎ NoEntry text 2 (min (length text) 64 + 1)))
        ⊎ ((id len : ℕ) × (match_special_token lex text ≡ some (id, len))
            × (get_or text 0 0 ≡ b'<')
            × (get_or text 1 0 ≡ b'|')
            × IsLongest text 2 (min (length text) 64 + 1) id len)
  unfolding match_special_token
  match_special_token-IsLongest text = elim (dec_lt (length text) 3) [
    | yes short ↦ inl (ground arith, inl short)
    | no long ↦ elim (Bool-cases (get_or text 0 0 == b'<')) [
      | inr e ↦ inl (ground arith, inr (inl e))
      | inl lt ↦ elim (Bool-cases (get_or text 1 0 == b'|')) [
        | inr e ↦ inl (ground arith, inr (inr (inl e)))
        | inl bar ↦
            let top : 2 + (min (length text) 64 - 1) ≡ min (length text) 64 + 1 = omega arith in
            elim (scan_special-cases text (min (length text) 64 - 1) 2 none) [
              | inl (e, bare) ↦ inl (ground arith, inr (inr (inr (rw top at bare))))
              | inr (id, len, e, is) ↦
                  inr (id, len, ground arith, ground arith, ground arith, rw top at is)
            ]
      ]
    ]
  ]
