-- ===== src/Vocab/Table/Write.antt =====
-- What `tokenizer_table_put` does to a well-formed table, and to what `tokenizer_table_get` returns.
use mathlib.Core.Option
use tinyllama_c.Prelude.{
  ℕ, zero, suc, ◌+◌, ◌<◌, ◌≤◌, ◌≡◌, inl, inr, refl, ap, List, [], ◌∷◌, Option, none, some, arith,
  ◌==◌, if◌then◌else◌, length, get_or, set, get_or-set, length-set, Bool-cases, ◌∙◌,
}
use tinyllama_c.Vocab.Key.{Key, key_eq, key_eq_iff}
use tinyllama_c.Vocab.Table.{
  TokenizerTable, Entry, Probe, found, unused, home, locate, put_at, value_at, tokenizer_table_put,
  tokenizer_table_get,
}
use tinyllama_c.Vocab.Table.Walk.{probe-set_value, probe-fill_found, probe-fill_self}
use tinyllama_c.Vocab.Table.Valid.{
  IsValid, locate-total, locate-found, locate-unused, count_used-set, count_used-overwrite,
}

-- What the table holds under a key.
unfoldable pub view : TokenizerTable → Key → Option ℕ
unfolding value_at
view t q = elim (locate t q) [ some p ↦ value_at t.entry p | none ↦ none ]

view-of_locate :
    (t : TokenizerTable) (q : Key) (p : Probe) → locate t q ≡ some p → view t q ≡ value_at t.entry p
unfolding view
view-of_locate t q p e = ground arith

-- A look-up in a well-formed table ends, and reads its view.
pub tokenizer_table_get-view :
    {t : TokenizerTable} → IsValid t → (q : Key) → tokenizer_table_get t q ≡ some (view t q)
unfolding tokenizer_table_get view
tokenizer_table_get-view valid q = let (p, e) = locate-total valid q in ground arith

pub view-eq-none :
    {t : TokenizerTable}
    → IsValid t
    → ((i : ℕ) → get_or t.entry i none ≡ none)
    → (q : Key) → view t q ≡ none
unfolding view value_at
view-eq-none {t} valid bare q = go (locate-total valid q)
  where
    go : (p : Probe) × (locate t q ≡ some p) → view t q ≡ none
    go (unused i, e) = ground arith
    go (found i, e) = let (v, at) = locate-found valid q i e in absurd (ground (arith, bare i))

-- The keys and the values of `t'` are those of `t` with `value` under `key`.
pub record Writes (t : TokenizerTable) (key : Key) (value : ℕ) (t' : TokenizerTable) : Type 0 where
  pub valid : IsValid t'
  pub cap : t'.cap ≡ t.cap
  pub used : t'.used ≤ t.used + 1
  pub reads : (q : Key) → view t' q ≡ (if key_eq key q then some value else view t q)

get_or-lt :
    (es : List (Option Entry)) (i : ℕ) {x : Entry} → get_or es i none ≡ some x → i < length es
get_or-lt [] i h = cc
get_or-lt (y ∷ es) zero h = omega arith
get_or-lt (y ∷ es) (suc i) h = omega (arith, get_or-lt es i h)

module _ {t : TokenizerTable} (valid : IsValid t) (key : Key) (value : ℕ) where
  module _ (i old : ℕ) (loc : locate t key ≡ some (found i))
      (here : get_or t.entry i none ≡ some (key, old)) (lt : i < length t.entry) where
    abbrev overwritten : TokenizerTable
    overwritten = record t { entry = set t.entry i (some (key, value)) }

    overwritten-locate : (q : Key) → locate overwritten q ≡ locate t q
    unfolding locate
    overwritten-locate q =
        probe-set_value t.entry t.cap i key old value here lt t.cap (home q t.cap) q

    overwritten-value :
        (q : Key) (p : Probe)
        → locate t q ≡ some p
        → value_at overwritten.entry p ≡ (if key_eq key q then some value else value_at t.entry p)
    unfolding value_at
    overwritten-value q (unused j) e = ground (arith, key_eq_iff key q)
    overwritten-value q (found j) e =
        let (v, at) = locate-found valid q j e in
        ground (arith, key_eq_iff key q, get_or-set t.entry i j (some (key, value)) none lt)

    overwritten-Writes : Writes t key value overwritten
    overwritten-Writes = record {
      valid = record {
        exponent = valid.exponent;
        power = valid.power;
        size = length-set t.entry i _ ∙ valid.size;
        counted = count_used-overwrite t.entry i (key, value) (key, old) here ∙ valid.counted;
        room = valid.room;
        placed = λ j k v h. rw (overwritten-locate k) (
            ground (arith, get_or-set t.entry i j (some (key, value)) none lt, valid.placed j k v));
      };
      cap = refl;
      used = omega arith;
      reads = λ q.
          let (p, e) = locate-total valid q in
          rw (view-of_locate overwritten q p (overwritten-locate q ∙ e), view-of_locate t q p e)
            (overwritten-value q p e);
    }

  module _ (i : ℕ) (loc : locate t key ≡ some (unused i)) (free : get_or t.entry i none ≡ none)
      (lt : i < length t.entry) (room : t.used + 1 < t.cap) where
    abbrev filled : TokenizerTable
    filled = record t { entry = set t.entry i (some (key, value)); used = t.used + 1 }

    filled-locate_found :
        (q : Key) (j : ℕ) → locate t q ≡ some (found j) → locate filled q ≡ some (found j)
    unfolding locate
    filled-locate_found q j e =
        probe-fill_found t.entry t.cap i key value free lt t.cap (home q t.cap) j q e

    filled-locate_self : locate filled key ≡ some (found i)
    unfolding locate
    filled-locate_self =
        probe-fill_self t.entry t.cap i key value free lt t.cap (home key t.cap) loc

    filled-placed :
        (j : ℕ) (k : Key) (v : ℕ)
        → get_or filled.entry j none ≡ some (k, v)
        → locate filled k ≡ some (found j)
    filled-placed j k v h = elim (Bool-cases (i == j)) [
      | inl e ↦
          ground (arith, get_or-set t.entry i j (some (key, value)) none lt, filled-locate_self)
      | inr e ↦
          filled-locate_found k j (
            valid.placed j k v (ground (arith, get_or-set t.entry i j (some (key, value)) none lt)))
    ]

    filled-IsValid : IsValid filled
    filled-IsValid = record {
      exponent = valid.exponent;
      power = valid.power;
      size = length-set t.entry i _ ∙ valid.size;
      counted = count_used-set t.entry i (key, value) free lt ∙ ap (λ n. n + 1) valid.counted;
      room = room;
      placed = filled-placed;
    }

    filled-value :
        (q : Key) (p p' : Probe)
        → locate t q ≡ some p
        → locate filled q ≡ some p'
        → value_at filled.entry p' ≡ (if key_eq key q then some value else value_at t.entry p)
    unfolding value_at
    filled-value q (found j) p' e e' =
        let (v, at) = locate-found valid q j e in
        ground (
          arith,
          key_eq_iff key q,
          get_or-set t.entry i j (some (key, value)) none lt,
          filled-locate_found q j e,
        )
    filled-value q (unused j) (unused j') e e' =
        ground (arith, key_eq_iff key q, filled-locate_self)
    filled-value q (unused j) (found j') e e' =
        let (v, at) = locate-found filled-IsValid q j' e' in
        ground (
          arith,
          key_eq_iff key q,
          get_or-set t.entry i j' (some (key, value)) none lt,
          valid.placed j' q v,
          filled-locate_self,
        )

    filled-view : (q : Key) → view filled q ≡ (if key_eq key q then some value else view t q)
    filled-view q =
        let (p, e) = locate-total valid q in
        let (p', e') = locate-total filled-IsValid q in
        rw (view-of_locate t q p e, view-of_locate filled q p' e') (filled-value q p p' e e')

    filled-Writes : Writes t key value filled
    filled-Writes = record {
      valid = filled-IsValid;
      cap = refl;
      used = omega arith;
      reads = filled-view;
    }

  -- With two unused entries, a put succeeds, keeps the table well formed, and writes its key only.
  pub tokenizer_table_put-Writes :
      t.used + 1 < t.cap
      → (t' : TokenizerTable) × (tokenizer_table_put t key value ≡ some t') × Writes t key value t'
  unfolding tokenizer_table_put
  tokenizer_table_put-Writes room = let (p, e) = locate-total valid key in cases p e
    where
      cases :
          (p : Probe)
          → locate t key ≡ some p
          → (t' : TokenizerTable) × (Option.map (put_at t key value) (locate t key) ≡ some t')
            × Writes t key value t'
      cases (found i) e =
          let (old, here) = locate-found valid key i e in
          (
            overwritten i old e here (get_or-lt t.entry i here),
            rw e (ground arith),
            overwritten-Writes i old e here (get_or-lt t.entry i here),
          )
      cases (unused i) e =
          let (free, lt) = locate-unused valid key i e in
          (filled i e free lt room, rw e, filled-Writes i e free lt room)
