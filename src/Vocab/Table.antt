-- ===== src/Vocab/Table.antt =====
-- `TokenizerTable` (`src/def.h`, `src/core.c`): an open-addressing hash table whose capacity is a
-- power of two, probed linearly. An unused entry is `none`.
pub mod Walk
pub mod Valid
pub mod Write
pub mod Load
use tinyllama_c.Prelude.{
  ℕ, zero, suc, ◌+◌, ◌-◌, ◌*◌, ◌%◌, ◌^◌, ◌<◌, bit_and, ◌≡◌, refl, Bool, true, false, List, [], ◌∷◌,
  Option, none, some, arith, ltb, ◌==◌, if◌then◌else◌, get_or, set, replicate, length,
}
use mathlib.Core.Option
use tinyllama_c.Vocab.Key.{Key, key_eq, hash_bytes}

abbrev pub Entry : Type 0
Entry = Key × ℕ

pub record TokenizerTable : Type 0 where
  pub entry : List (Option Entry)
  pub cap : ℕ
  pub used : ℕ

-- `while (p < n) p <<= 1;` on fuel; `none` means that the fuel ran out.
pow2_from : ℕ → ℕ → ℕ → Option ℕ
pow2_from zero p n = none
pow2_from (suc f) p n = elim (ltb p n) [ true ↦ pow2_from f (p * 2 % 2 ^ 64) n | false ↦ some p ]

-- After 64 rounds `p` is 0 and stays there, so more fuel would change nothing.
unfoldable pub next_pow2 : ℕ → Option ℕ
unfolding pow2_from
next_pow2 n = pow2_from 65 1 n

unfoldable pub empty_table : ℕ → TokenizerTable
empty_table cap = record { entry = replicate cap none; cap = cap; used = 0 }

unfoldable pub tokenizer_table_init : ℕ → Option TokenizerTable
unfolding next_pow2 empty_table
tokenizer_table_init expected = Option.map empty_table (next_pow2 ((expected * 2 + 16) % 2 ^ 64))

unfoldable pub tokenizer_table_free : TokenizerTable → TokenizerTable
tokenizer_table_free table = record { entry = []; cap = 0; used = 0 }

-- Where the probe of a key ends: at its entry, or at the first unused one.
pub data Probe : Type 0 where
  found : ℕ → Probe
  unused : ℕ → Probe

-- `i = hash & mask`
unfoldable pub home : Key → ℕ → ℕ
home key cap = bit_and (hash_bytes key) (cap - 1)

-- `i = (i + 1) & mask`
unfoldable pub next_index : ℕ → ℕ → ℕ
next_index i cap = bit_and (i + 1) (cap - 1)

-- `while (entry[i].used) { if (key_eq(...)) ...; i = (i + 1) & mask; }` on fuel; `none` means that
-- the fuel ran out.
unfoldable pub probe : ℕ → List (Option Entry) → ℕ → ℕ → Key → Option Probe
probe zero es cap i key = none
probe (suc f) es cap i key =
    let rest = probe f es cap (next_index i cap) key in
    elim (get_or es i none) [
      | none ↦ some (unused i)
      | some (k, v) ↦ if key_eq k key then some (found i) else rest
    ]

unfoldable pub locate : TokenizerTable → Key → Option Probe
locate t key = probe t.cap t.entry t.cap (home key t.cap) key

put_at : TokenizerTable → Key → ℕ → Probe → TokenizerTable
put_at t key value (found i) = record t {
  entry = elim (get_or t.entry i none) [
    | none ↦ t.entry
    | some (k, old) ↦ set t.entry i (some (k, value))
  ];
}
put_at t key value (unused i) = record t {
  entry = set t.entry i (some (key, value));
  used = t.used + 1;
}

-- Insert or update; `none` when the probe goes round a full table for ever.
unfoldable pub tokenizer_table_put : TokenizerTable → Key → ℕ → Option TokenizerTable
unfolding put_at
tokenizer_table_put t key value = Option.map (put_at t key value) (locate t key)

value_at : List (Option Entry) → Probe → Option ℕ
value_at es (found i) = Option.map (λ e. e.1) (get_or es i none)
value_at es (unused i) = none

-- The outer option is the return of the probe, the inner one the result `bool` with `*value`.
unfoldable pub tokenizer_table_get : TokenizerTable → Key → Option (Option ℕ)
unfolding value_at
tokenizer_table_get t key =
    if t.cap == 0 then some none else Option.map (value_at t.entry) (locate t key)

-- The loading loops of `vocab_load_for_bpe` and `vocab_load_for_spm`: key number `i` gets value `i`.
unfoldable pub put_all : TokenizerTable → ℕ → List Key → Option TokenizerTable
put_all t i [] = some t
put_all t i (k ∷ ks) = Option.bind (tokenizer_table_put t k i) (λ t'. put_all t' (i + 1) ks)

-- `tokenizer_table_init(table, len)` and the loop over the array.
unfoldable pub load_table : List Key → Option TokenizerTable
unfolding tokenizer_table_init put_all
load_table ks = Option.bind (tokenizer_table_init (length ks)) (λ t. put_all t 0 ks)
