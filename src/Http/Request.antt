-- ===== src/Http/Request.antt =====
-- The offset of a request's body, and the search for a JSON string.
use tinyllama_c.Prelude.{
  ℕ, zero, suc, ◌+◌, ◌-◌, ◌≤◌, ◌<◌, ◌≡◌, ◌==◌, ◌⊎◌, inl, inr, refl, ap, ◌∙◌, List, [], ◌∷◌, none,
  some, length, take, drop, get_or, arith, Bool-cases, Option-cases, length-drop,
}
use tinyllama_c.Vocab.Key.{key_eq, key_eq_iff}
use tinyllama_c.Http.{
  separator, body_from, http_body, strstr, skip_blanks, further, string_length, candidate,
  Candidate, value, again, get_string_from, json_get_string, search_text,
}

-- The separator begins at offset `j` of the text.
abbrev pub SeparatorAt : ℕ → List ℕ → Type 0
SeparatorAt j text = take 4 (drop j text) ≡ separator

body_from-first :
    (i : ℕ) (text : List ℕ)
    → ((body_from i text ≡ none) × ((j : ℕ) → SeparatorAt j text → ⊥))
      ⊎ ((k : ℕ) × (body_from i text ≡ some (i + k + 4))
          × SeparatorAt k text
          × ((j : ℕ) → j < k → SeparatorAt j text → ⊥))
unfolding body_from
body_from-first i [] = inl (refl, none_in)
  where
    none_in : (j : ℕ) → SeparatorAt j [] → ⊥
    none_in zero h = cc
    none_in (suc j) h = cc
body_from-first i (c ∷ cs) = elim (Bool-cases (key_eq (take 4 (c ∷ cs)) separator)) [
  | inl e ↦ inr (
    0,
    ground arith,
    (key_eq_iff (take 4 (c ∷ cs)) separator).0 e,
    λ j lt h. absurd (omega arith),
  )
  | inr e ↦
      let away : SeparatorAt 0 (c ∷ cs) → ⊥ =
        λ h. ground (arith, (key_eq_iff (take 4 (c ∷ cs)) separator).1 h) in
      elim (body_from-first (i + 1) cs) [
        | inl (r, bare) ↦ inl (rw e r, none_at cs away bare)
        | inr (k, r, at, before) ↦
            inr (suc k, rw e (r ∙ ap some (omega arith)), at, first_at cs k away before)
      ]
]
  where
    none_at :
        (cs : List ℕ)
        → (SeparatorAt 0 (c ∷ cs) → ⊥)
        → ((j : ℕ) → SeparatorAt j cs → ⊥)
        → (j : ℕ) → SeparatorAt j (c ∷ cs)
        → ⊥
    none_at cs away bare zero h = away h
    none_at cs away bare (suc j) h = bare j h

    first_at :
        (cs : List ℕ) (k : ℕ)
        → (SeparatorAt 0 (c ∷ cs) → ⊥)
        → ((j : ℕ) → j < k → SeparatorAt j cs → ⊥)
        → (j : ℕ) → j < suc k
        → SeparatorAt j (c ∷ cs)
        → ⊥
    first_at cs k away before zero lt h = away h
    first_at cs k away before (suc j) lt h = before j (omega arith) h

-- The body begins after the first empty line; a request without one is incomplete.
pub http_body-first :
    (req : List ℕ)
    → ((http_body req ≡ none) × ((j : ℕ) → SeparatorAt j req → ⊥))
      ⊎ ((k : ℕ) × (http_body req ≡ some (k + 4))
          × SeparatorAt k req
          × ((j : ℕ) → j < k → SeparatorAt j req → ⊥))
unfolding http_body
http_body-first req = elim (body_from-first 0 req) [
  | inl found ↦ inl found
  | inr (k, r, at, before) ↦ inr (k, r ∙ ap some (omega arith), at, before)
]

length-strstr : (text pat pos : List ℕ) → strstr text pat ≡ some pos → length pos ≤ length text
unfolding strstr
length-strstr [] pat pos h = ground arith
length-strstr (c ∷ cs) pat pos h = ground (arith, length-strstr cs pat pos)

strstr-nonempty :
    (text pat pos : List ℕ) → 0 < length pat → strstr text pat ≡ some pos → 0 < length pos
unfolding strstr
strstr-nonempty [] pat pos h e = absurd (ground arith)
strstr-nonempty (c ∷ cs) pat pos h e = ground (arith, strstr-nonempty cs pat pos h)

length-skip_blanks : (text : List ℕ) → length (skip_blanks text) ≤ length text
unfolding skip_blanks
length-skip_blanks [] = omega arith
length-skip_blanks (c ∷ cs) = ground (arith, length-skip_blanks cs)

-- A string ends at a quote inside the text.
string_length-quote :
    (text : List ℕ) (n : ℕ)
    → string_length text ≡ some n
    → (n < length text) × (get_or text n 0 ≡ b'"')
unfolding string_length further
string_length-quote [] n h = cc
string_length-quote (c ∷ []) n h = elim (Bool-cases (c == b'"')) [
  | inl e ↦ let here : n ≡ 0 = ground arith in rw here (omega arith, ground arith)
  | inr e ↦ absurd (ground arith)
]
string_length-quote (c ∷ d ∷ cs) n h = elim (Bool-cases (c == b'"')) [
  | inl e ↦ let here : n ≡ 0 = ground arith in rw here (omega arith, ground arith)
  | inr e ↦ elim (Bool-cases (c == b'\\')) [
    | inl b ↦ elim (Option-cases (string_length cs)) [
      | inl miss ↦ absurd (ground arith)
      | inr (m, found) ↦
          let (lt, at) = string_length-quote cs m found in
          let here : n ≡ suc (suc m) = ground arith in rw here (omega arith, at)
    ]
    | inr b ↦ elim (Option-cases (string_length (d ∷ cs))) [
      | inl miss ↦ absurd (ground arith)
      | inr (m, found) ↦
          let (lt, at) = string_length-quote (d ∷ cs) m found in
          let here : n ≡ suc m = ground arith in rw here (omega arith, at)
    ]
  ]
]

-- A place with no string leaves less text; a string ends at a quote in the text.
candidate-again : (after rest : List ℕ) → candidate after ≡ again rest → length rest ≤ length after
unfolding candidate
candidate-again after rest h =
    let pos = skip_blanks after in
    ground (arith, length-skip_blanks after, length-skip_blanks (drop 1 pos), length-drop 1 pos)

candidate-value :
    (after start : List ℕ) (len : ℕ)
    → candidate after ≡ value start len
    → (len < length start) × (get_or start len 0 ≡ b'"')
unfolding candidate
candidate-value after start len h =
    let pos' = skip_blanks (drop 1 (skip_blanks after)) in
    ground (arith, string_length-quote (drop 1 pos') len)

Candidate-cases :
    (p : Candidate)
    → ((start : List ℕ) × (len : ℕ) × (p ≡ value start len)) ⊎ ((rest : List ℕ) × (p ≡ again rest))
Candidate-cases (value start len) = inl (start, len, refl)
Candidate-cases (again rest) = inr (rest, refl)

get_string_from-quote :
    (f : ℕ) (pat json start : List ℕ) (len : ℕ)
    → get_string_from f pat json ≡ some (start, len)
    → (len < length start) × (get_or start len 0 ≡ b'"')
unfolding get_string_from
get_string_from-quote zero pat json start len h = cc
get_string_from-quote (suc f) pat json start len h = elim (Option-cases (strstr json pat)) [
  | inl miss ↦ absurd (ground arith)
  | inr (pos, found) ↦
      let after = drop (length pat) pos in
      elim (Candidate-cases (candidate after)) [
        | inl (s, l, e) ↦ ground (arith, candidate-value after start len)
        | inr (rest, e) ↦ get_string_from-quote f pat rest start len (ground arith)
      ]
]

-- The text left shrinks in every round: with more fuel than the text is long, more changes nothing.
pub get_string_from-enough :
    (f : ℕ) (pat json : List ℕ)
    → 0 < length pat
    → length json < f
    → get_string_from (suc f) pat json ≡ get_string_from f pat json
unfolding get_string_from
get_string_from-enough zero pat json some_pat h = absurd (omega arith)
get_string_from-enough (suc f) pat json some_pat h = elim (Option-cases (strstr json pat)) [
  | inl miss ↦ ground arith
  | inr (pos, found) ↦
      let after = drop (length pat) pos in
      elim (Candidate-cases (candidate after)) [
        | inl (s, l, e) ↦ ground arith
        | inr (rest, e) ↦
            let less : length rest ≤ length pos - length pat =
              omega (arith, candidate-again after rest e, length-drop (length pat) pos) in
            let pos_len : length pos ≤ length json = length-strstr json pat pos found in
            let pos_some : 0 < length pos = strstr-nonempty json pat pos some_pat found in
            ground (arith, get_string_from-enough f pat rest some_pat (omega arith))
      ]
]

-- A string that is found ends at a quote inside the text.
pub json_get_string-quote :
    (json key start : List ℕ) (len : ℕ)
    → json_get_string json key ≡ some (start, len)
    → (len < length start) × (get_or start len 0 ≡ b'"')
unfolding json_get_string
json_get_string-quote json key start len h = elim (Option-cases (search_text key)) [
  | inl miss ↦ absurd (ground arith)
  | inr (pat, found) ↦ get_string_from-quote (suc (length json)) pat json start len (ground arith)
]
