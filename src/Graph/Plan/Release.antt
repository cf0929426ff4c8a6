-- ===== src/Graph/Plan/Release.antt =====
-- The last consumers, and the whole plan of `src/graph.c`.
use mathlib.Core.Option
use mathlib.Core.List.{map-append, append_assoc, append-nil}
use mathlib.Core.Path.{subst}
use tinyllama_c.Prelude.{
  ℕ, zero, suc, ◌+◌, ◌≤◌, ◌<◌, ◌≡◌, refl, ◌∙◌, ap, sym, inl, inr, List, [], ◌∷◌, ◌++◌, Option, none,
  some, map, ltb, length, get_elem?, get_or, set, arith, Bool-cases, length-set, get_or-set_self,
}
use tinyllama_c.Graph.{GraphNode}
use tinyllama_c.Graph.Plan.{
  Slot, Sweep, Demand, note_use, note_uses, release_from, count_up, releases, reclaim, place,
  best_chunk, free_of, sweep_step, sweep,
}
use tinyllama_c.Graph.Plan.Cover.{reclaim-Reclaims}

-- A note never brings a release forward, and one at `j` puts that of its source at `j` or later.
module _ (j : ℕ) where
  note_use-le :
      (release : List ℕ) (p : Option ℕ) (a : ℕ)
      → get_or release a 0 ≤ get_or (note_use j release p) a 0
  note_use-le release none a = omega arith
  note_use-le release (some i) a = elim (Bool-cases (ltb (get_or release i 0) j)) [
    | inl later ↦ rw later (written release i a (ground (arith, later)))
    | inr sooner ↦ rw sooner (omega arith)
  ]
    where
      written :
          (release : List ℕ) (i a : ℕ)
          → get_or release i 0 < j
          → get_or release a 0 ≤ get_or (set release i j) a 0
      written [] i a h = omega arith
      written (r ∷ rs) zero zero h = omega arith
      written (r ∷ rs) zero (suc a) h = omega arith
      written (r ∷ rs) (suc i) zero h = omega arith
      written (r ∷ rs) (suc i) (suc a) h = written rs i a h

  note_use_self :
      (release : List ℕ) (a : ℕ) → a < length release → j ≤ get_or (note_use j release (some a)) a 0
  note_use_self release a h = elim (Bool-cases (ltb (get_or release a 0) j)) [
    | inl later ↦ rw later (omega (arith, get_or-set_self release a j 0 h))
    | inr sooner ↦ rw sooner (ground (arith, sooner))
  ]

  length-note_use :
      (release : List ℕ) (p : Option ℕ) → length (note_use j release p) ≡ length release
  length-note_use release none = refl
  length-note_use release (some i) = elim (Bool-cases (ltb (get_or release i 0) j)) [
    | inl later ↦ rw later (length-set release i j)
    | inr sooner ↦ rw sooner refl
  ]

  note_uses-le :
      (ps : List (Option ℕ)) (release : List ℕ) (a : ℕ)
      → get_or release a 0 ≤ get_or (note_uses j release ps) a 0
  unfolding note_uses
  note_uses-le [] release a = omega arith
  note_uses-le (p ∷ ps) release a =
      omega (arith, note_use-le release p a, note_uses-le ps (note_use j release p) a)

  length-note_uses :
      (ps : List (Option ℕ)) (release : List ℕ) → length (note_uses j release ps) ≡ length release
  unfolding note_uses
  length-note_uses [] release = refl
  length-note_uses (p ∷ ps) release =
      length-note_uses ps (note_use j release p) ∙ length-note_use release p

  note_uses-source :
      (ps : List (Option ℕ)) (release : List ℕ) (q a : ℕ)
      → get_elem? ps q ≡ some (some a)
      → a < length release
      → j ≤ get_or (note_uses j release ps) a 0
  unfolding note_uses
  note_uses-source [] release q a at_q h = absurd (cc)
  note_uses-source (p ∷ ps) release zero a at_q h =
      let e : p ≡ some a = Option.some-injective _ _ at_q in
      let noted =
        subst (λ w. j ≤ get_or (note_use j release w) a 0) (sym e) (note_use_self release a h) in
      omega (arith, noted, note_uses-le ps (note_use j release p) a)
  note_uses-source (p ∷ ps) release (suc q) a at_q h =
      note_uses-source ps (note_use j release p) q a at_q (omega (arith, length-note_use release p))

release_from-le :
    (j : ℕ) (ns : List GraphNode) (release : List ℕ) (a : ℕ)
    → get_or release a 0 ≤ get_or (release_from j ns release) a 0
unfolding release_from
release_from-le j [] release a = omega arith
release_from-le j (n ∷ ns) release a = omega (
  arith,
  note_uses-le j n.src release a,
  release_from-le (j + 1) ns (note_uses j release n.src) a,
)

release_from-source :
    (j : ℕ) (ns : List GraphNode) (release : List ℕ) (k q a : ℕ) (n : GraphNode)
    → get_elem? ns k ≡ some n
    → get_elem? n.src q ≡ some (some a)
    → a < length release
    → j + k ≤ get_or (release_from j ns release) a 0
unfolding release_from
release_from-source j [] release k q a n at_k at_q h = absurd (cc)
release_from-source j (n' ∷ ns) release zero q a n at_k at_q h =
    let e : n' ≡ n = Option.some-injective _ _ at_k in
    let at_q' : get_elem? n'.src q ≡ some (some a) = ap (λ w. get_elem? w.src q) e ∙ at_q in
    omega (
      arith,
      note_uses-source j n'.src release q a at_q' h,
      release_from-le (j + 1) ns (note_uses j release n'.src) a,
    )
release_from-source j (n' ∷ ns) release (suc k) q a n at_k at_q h = omega (
  arith,
  release_from-source (j + 1) ns (note_uses j release n'.src) k q a n at_k at_q
      (omega (arith, length-note_uses j n'.src release)),
)

get_or-count_up : (i n k : ℕ) → k < n → get_or (count_up i n) k 0 ≡ i + k
unfolding count_up
get_or-count_up i zero k h = absurd (omega arith)
get_or-count_up i (suc n) zero h = omega arith
get_or-count_up i (suc n) (suc k) h = omega (arith, get_or-count_up (i + 1) n k (omega arith))

length-count_up : (i n : ℕ) → length (count_up i n) ≡ n
unfolding count_up
length-count_up i zero = refl
length-count_up i (suc n) = ap suc (length-count_up (i + 1) n)

-- A node is not released before itself, nor before a node that it is a source of.
pub releases-own : (ns : List GraphNode) (a : ℕ) → a < length ns → a ≤ get_or (releases ns) a 0
unfolding releases
releases-own ns a h =
    omega
      (arith, get_or-count_up 0 (length ns) a h, release_from-le 0 ns (count_up 0 (length ns)) a)

pub releases-source :
    (ns : List GraphNode) (k q a : ℕ) (n : GraphNode)
    → get_elem? ns k ≡ some n
    → get_elem? n.src q ≡ some (some a)
    → a < length ns
    → k ≤ get_or (releases ns) a 0
unfolding releases
releases-source ns k q a n at_k at_q h = omega (
  arith,
  release_from-source 0 ns (count_up 0 (length ns)) k q a n at_k at_q
      (omega (arith, length-count_up 0 (length ns))),
)

-- What a slot was made for.
unfoldable pub asked : Slot → Demand
asked t = record { backend = t.backend; need = t.need; release = t.release }

place-asked :
    (d : Demand) (s : Sweep)
    → map asked (place d.backend d.need d.release s).slot ≡ map asked s.slot ++ d ∷ []
unfolding place asked
place-asked d s =
    elim (Bool-cases
      (ltb (best_chunk d.need (free_of s d.backend)) (length (free_of s d.backend)))) [
        | inl fits ↦ rw fits (map-append _ s.slot _)
        | inr full ↦ rw full (map-append _ s.slot _)
      ]

pub sweep-asked :
    (ds : List Demand) (s : Sweep) → map asked (sweep ds s).slot ≡ map asked s.slot ++ ds
unfolding sweep sweep_step
sweep-asked [] s = sym (append-nil (map asked s.slot))
sweep-asked (d ∷ ds) s =
    sweep-asked ds (sweep_step d s)
    ∙ ap (λ ts. ts ++ ds)
        (place-asked d (reclaim (length s.slot) s.slot s)
          ∙ ap (λ ts. map asked ts ++ d ∷ []) (reclaim-Reclaims (length s.slot) s.slot s).slot)
    ∙ append_assoc (map asked s.slot) (d ∷ []) ds
