-- ===== src/Vocab/Table/Load.antt =====
-- Loading a table with keys numbered from 0: the capacity suffices, and every key reads as the
-- number of its last occurrence.
use mathlib.Core.Option
use mathlib.Core.Option.{or_else}
use native.Mathlib.Nat.{pow-suc, one-le-pow}
use tinyllama_c.Prelude.{
  ℕ, zero, suc, ◌+◌, ◌-◌, ◌*◌, ◌%◌, ◌^◌, ◌<◌, ◌≤◌, ◌≡◌, inl, inr, refl, ap, List, [], ◌∷◌, Option,
  none, some, arith, ltb, if◌then◌else◌, length, get_or, replicate, get_or-replicate,
  length-replicate, Bool-cases, Option-cases, ◌∙◌,
}
use tinyllama_c.Vocab.Key.{Key, key_eq, key_eq_iff}
use tinyllama_c.Vocab.Table.{
  TokenizerTable, Entry, pow2_from, next_pow2, empty_table, tokenizer_table_init,
  tokenizer_table_get, put_all, load_table,
}
use tinyllama_c.Vocab.Table.Valid.{IsValid, count_used}
use tinyllama_c.Vocab.Table.Write.{
  view, tokenizer_table_put-Writes, tokenizer_table_get-view, view-eq-none,
}

-- Doubling `2 ^ a` reaches `n` before 64 bits are full, and stops below `2 * n`.
pow2_from_lem :
    (n : ℕ)
    → n ≤ 2 ^ 63
    → (f a : ℕ) → a + f ≡ 65
    → 2 ^ a < 2 * n
    → (b : ℕ) × (pow2_from f (2 ^ a) n ≡ some (2 ^ b)) × (n ≤ 2 ^ b) × (2 ^ b < 2 * n)
unfolding pow2_from
pow2_from_lem n small zero a e h =
    let full : a ≡ 65 = omega arith in
    let big : 2 ^ 65 < 2 * n = rw full at h in absurd (omega arith)
pow2_from_lem n small (suc f) a e h = elim (Bool-cases (ltb (2 ^ a) n)) [
  | inl more ↦
      let double : 2 ^ a * 2 % 2 ^ 64 ≡ 2 ^ suc a = rw (pow-suc 2 a) (ground arith) in
      let (b, run, reached, tight) =
        pow2_from_lem n small f (suc a) (omega arith) (rw (pow-suc 2 a) (ground arith)) in
      (b, ground (arith, double), reached, tight)
  | inr done ↦ (a, ground arith, ground arith, h)
]

-- `next_pow2` ends on every `n` from 1 to `2 ^ 63`, at the least power of two that is not below `n`.
pub next_pow2_lem :
    (n : ℕ)
    → 1 ≤ n
    → n ≤ 2 ^ 63
    → (b : ℕ) × (next_pow2 n ≡ some (2 ^ b)) × (n ≤ 2 ^ b) × (2 ^ b < 2 * n)
unfolding next_pow2
next_pow2_lem n pos small = pow2_from_lem n small 65 0 refl (omega arith)

count_used-empty : (n : ℕ) → count_used (replicate n none) ≡ 0
unfolding count_used
count_used-empty zero = refl
count_used-empty (suc n) = count_used-empty n

bare : (b i : ℕ) → get_or (replicate {A = Option Entry} (2 ^ b) none) i none ≡ none
bare b i = get_or-replicate (2 ^ b) i none

pub empty_table-IsValid : (b : ℕ) → IsValid (empty_table (2 ^ b))
unfolding empty_table
empty_table-IsValid b = record {
  exponent = b;
  power = refl;
  size = length-replicate _ none;
  counted = count_used-empty _;
  room = omega (arith, one-le-pow b 2);
  placed = λ i k v h. absurd (ground (arith, bare b i));
}

empty_table-view : (b : ℕ) (q : Key) → view (empty_table (2 ^ b)) q ≡ none
unfolding empty_table
empty_table-view b q = view-eq-none (empty_table-IsValid b) (bare b) q

-- The number of the last key equal to `q`, counting from `i`.
unfoldable pub last_index : Key → ℕ → List Key → Option ℕ
last_index q i [] = none
last_index q i (k ∷ ks) = or_else (last_index q (i + 1) ks) (if key_eq k q then some i else none)

-- A number that is found stands at its key.
pub last_index_sound :
    (q : Key) (ks : List Key) (i j : ℕ)
    → last_index q i ks ≡ some j
    → (i ≤ j) × (get_or ks (j - i) [] ≡ q) × (j < i + length ks)
unfolding last_index or_else
last_index_sound q [] i j h = cc
last_index_sound q (k ∷ ks) i j h = elim (Option-cases (last_index q (i + 1) ks)) [
  | inl e ↦
      let here : (i ≡ j) × (k ≡ q) = ground (arith, key_eq_iff k q) in
      let zero_off : j - i ≡ 0 = omega arith in (omega arith, rw zero_off here.1, omega arith)
  | inr (j', e) ↦
      let (lo, at, hi) = last_index_sound q ks (i + 1) j (ground arith) in
      let off : j - i ≡ suc (j - (i + 1)) = omega arith in (omega arith, rw off at, omega arith)
]

put_all-reads :
    (ks : List Key) (i : ℕ) (t : TokenizerTable)
    → IsValid t
    → t.used + length ks < t.cap
    → (t' : TokenizerTable) × (put_all t i ks ≡ some t')
      × IsValid t'
      × ((q : Key) → view t' q ≡ or_else (last_index q i ks) (view t q))
unfolding put_all last_index Option.bind or_else
put_all-reads [] i t valid room = (t, refl, valid, λ q. refl)
put_all-reads (k ∷ ks) i t valid room =
    let (t₁, put, w) = tokenizer_table_put-Writes valid k i (omega arith) in
    let (t', run, valid', reads) =
      put_all-reads ks (i + 1) t₁ w.valid (omega (arith, w.used, w.cap)) in
    (t', rw put run, valid', λ q. ground (arith, reads q, w.reads q))

-- The capacity leaves room for twice the keys expected.
tokenizer_table_init_lem :
    (n : ℕ)
    → n < 2 ^ 31
    → (b : ℕ) × (tokenizer_table_init n ≡ some (empty_table (2 ^ b))) × (2 * n < 2 ^ b)
unfolding tokenizer_table_init
tokenizer_table_init_lem n small =
    let (b, pow, fits, _) = next_pow2_lem (n * 2 + 16) (omega arith) (omega arith) in
    let wrap : (n * 2 + 16) % 2 ^ 64 ≡ n * 2 + 16 = omega arith in
    (
      b,
      ap (λ m. Option.map empty_table (next_pow2 m)) wrap ∙ ap (Option.map empty_table) pow,
      omega arith,
    )

-- A table sized for `ks` takes all of them without going round for ever, is well formed, and a
-- look-up returns the number of the last occurrence of its key, or nothing.
pub load_table-reads :
    (ks : List Key)
    → length ks < 2 ^ 31
    → (t : TokenizerTable) × (load_table ks ≡ some t)
      × IsValid t
      × ((q : Key) → tokenizer_table_get t q ≡ some (last_index q 0 ks))
unfolding load_table Option.bind or_else
load_table-reads ks small =
    let (b, init, room) = tokenizer_table_init_lem (length ks) small in rw init (filled b room)
  where
    filled :
        (b : ℕ)
        → 2 * length ks < 2 ^ b
        → (t : TokenizerTable) × (put_all (empty_table (2 ^ b)) 0 ks ≡ some t)
          × IsValid t
          × ((q : Key) → tokenizer_table_get t q ≡ some (last_index q 0 ks))
    filled b room =
        let (t, run, valid, reads) =
          put_all-reads ks 0 (empty_table (2 ^ b)) (empty_table-IsValid b)
            (unfold empty_table in omega arith) in
        (
          t,
          run,
          valid,
          λ q. rw (tokenizer_table_get-view valid q, reads q, empty_table-view b q) (ground arith),
        )
