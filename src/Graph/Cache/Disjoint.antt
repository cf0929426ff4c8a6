-- ===== src/Graph/Cache/Disjoint.antt =====
-- The KV caches of `src/graph.c` do not overlap.
use tinyllama_c.Prelude.{
  ℕ, zero, suc, ◌+◌, ◌-◌, ◌*◌, ◌^◌, ◌≤◌, ◌<◌, ◌≡◌, refl, ◌∙◌, ap, sym, inl, inr, List, [], ◌∷◌,
  Option, none, some, leb, ◌==◌, if◌then◌else◌, length, get_or, set, replicate, arith, Bool-cases,
  length-set, length-replicate, get_or-set_self, get_or-set_ne, covers, covers-split,
}
use tinyllama_c.Graph.{GraphNode}
use tinyllama_c.Graph.Plan.{u64}
use tinyllama_c.Graph.Cache.{
  CacheConfig, is_attn, note_layer, note_layers, used_layers, cache_bytes, on_backend, size_from,
  AttnKvCache, carve_from, cache_build_attn_kvcache,
}

-- How often a byte is in a cache on a backend.
abbrev pub cache_cover : ℕ → ℕ → ℕ → List (Option AttnKvCache) → ℕ
cache_cover b bytes x [] = 0
cache_cover b bytes x (none ∷ cs) = cache_cover b bytes x cs
cache_cover b bytes x (some c ∷ cs) =
    (if c.backend == b then covers c.k bytes x + covers c.v bytes x else 0)
    + cache_cover b bytes x cs

-- What the layers on a backend need.
abbrev room : ℕ → ℕ → List (Option ℕ) → ℕ
room b bytes [] = 0
room b bytes (u ∷ us) = (if on_backend b u then bytes + bytes else 0) + room b bytes us

-- The layers are on known backends.
abbrev EveryKnown : List (Option ℕ) → Type 0
EveryKnown [] = Unit {0}
EveryKnown (none ∷ us) = EveryKnown us
EveryKnown (some b ∷ us) = (b < 3) × EveryKnown us

carve-cover :
    (ctx bytes : ℕ) (base : List ℕ) (us : List (Option ℕ)) (b x : ℕ)
    → length base ≡ 3
    → EveryKnown us
    → cache_cover b bytes x (carve_from ctx bytes base us)
      ≡ covers (get_or base b 0) (room b bytes us) x
unfolding carve_from
carve-cover ctx bytes base [] b x shape known = ground arith
carve-cover ctx bytes base (none ∷ us) b x shape known =
    let e : 0 + room b bytes us ≡ room b bytes us = omega arith in
    rw e (carve-cover ctx bytes base us b x shape known)
carve-cover ctx bytes base (some b' ∷ us) b x shape (here, known) =
    let k = get_or base b' 0 in
    let rest =
      carve-cover ctx bytes (set base b' (k + bytes + bytes)) us b x (length-set base b' _ ∙ shape)
        known in
    elim (Bool-cases (b' == b)) [
      | inl same ↦
          let e : b' ≡ b = ground (arith, same) in
          let moved : get_or (set base b' (k + bytes + bytes)) b 0 ≡ k + bytes + bytes =
            ap (λ i. get_or (set base b' (k + bytes + bytes)) i 0) (sym e)
            ∙ get_or-set_self base b' (k + bytes + bytes) 0 (omega (arith, shape, here)) in
          let at_b : get_or base b 0 ≡ k = ap (λ i. get_or base i 0) (sym e) in
          let r = room b bytes us in
          let first = covers-split k bytes (bytes + bytes + r) x (omega arith) in
          let second = covers-split (k + bytes) bytes (bytes + r) x (omega arith) in
          let e1 : bytes + bytes + r - bytes ≡ bytes + r = omega arith in
          let e2 : bytes + r - bytes ≡ r = omega arith in
          rw (same, at_b) (omega (arith, rw moved at rest, rw e1 at first, rw e2 at second))
      | inr other ↦
          let kept : get_or (set base b' (k + bytes + bytes)) b 0 ≡ get_or base b 0 =
            get_or-set_ne base b' b (k + bytes + bytes) 0 (λ e. ground (arith, e, other)) in
          let e : 0 + room b bytes us ≡ room b bytes us = omega arith in
          rw (other, e) (omega (arith, rw kept at rest))
    ]

size_from_lem :
    (bytes b size : ℕ) (us : List (Option ℕ))
    → size + room b bytes us < 2 ^ 64
    → size_from bytes b size us ≡ size + room b bytes us
unfolding size_from
size_from_lem bytes b size [] h = omega arith
size_from_lem bytes b size (u ∷ us) h = elim (Bool-cases (on_backend b u)) [
  | inl here ↦
      let h' = rw here at h in
      let next : u64 (size + u64 (bytes * 2)) ≡ size + (bytes + bytes) = omega (arith, h') in
      rw (here, next)
        (omega (arith, size_from_lem bytes b (size + (bytes + bytes)) us (omega (arith, h'))))
  | inr other ↦
      let h' = rw other at h in
      rw other (omega (arith, size_from_lem bytes b size us (omega (arith, h'))))
]

room-le : (b bytes : ℕ) (us : List (Option ℕ)) → room b bytes us ≤ length us * (bytes + bytes)
room-le b bytes [] = omega arith
room-le b bytes (u ∷ us) = elim (Bool-cases (on_backend b u)) [
  | inl here ↦ rw here (grind (arith, room-le b bytes us))
  | inr other ↦ rw other (grind (arith, room-le b bytes us))
]

pub length-note_layers :
    (n_layer : ℕ) (nodes : List GraphNode) (used : List (Option ℕ))
    → length (note_layers n_layer nodes used) ≡ length used
unfolding note_layers note_layer
length-note_layers n_layer [] used = refl
length-note_layers n_layer (n ∷ nodes) used =
    length-note_layers n_layer nodes (note_layer n_layer n used) ∙ noted
  where
    noted : length (note_layer n_layer n used) ≡ length used
    noted = ground (arith, length-set used (get_or n.params 0 0) (some n.backend))

-- Nodes on known backends leave the layers on known backends.
abbrev pub KnownNodes : List GraphNode → Type 0
KnownNodes [] = Unit {0}
KnownNodes (n ∷ nodes) = (n.backend < 3) × KnownNodes nodes

set-EveryKnown :
    (us : List (Option ℕ)) (l b : ℕ) → b < 3 → EveryKnown us → EveryKnown (set us l (some b))
set-EveryKnown [] l b h known = tt
set-EveryKnown (none ∷ us) zero b h known = (h, known)
set-EveryKnown (some c ∷ us) zero b h (here, known) = (h, known)
set-EveryKnown (none ∷ us) (suc l) b h known = set-EveryKnown us l b h known
set-EveryKnown (some c ∷ us) (suc l) b h (here, known) = (here, set-EveryKnown us l b h known)

note_layers-EveryKnown :
    (n_layer : ℕ) (nodes : List GraphNode) (used : List (Option ℕ))
    → KnownNodes nodes
    → EveryKnown used
    → EveryKnown (note_layers n_layer nodes used)
unfolding note_layers note_layer
note_layers-EveryKnown n_layer [] used h known = known
note_layers-EveryKnown n_layer (n ∷ nodes) used (here, h) known =
    note_layers-EveryKnown n_layer nodes (note_layer n_layer n used) h
      (elim (Bool-cases (is_attn n.op)) [
        | inl reads ↦ rw reads (elim (Bool-cases (leb n_layer (get_or n.params 0 0))) [
          | inl past ↦ rw past known
          | inr inside ↦ rw inside (set-EveryKnown used (get_or n.params 0 0) n.backend here known)
        ])
        | inr other ↦ rw other known
      ])

replicate-EveryKnown : (n : ℕ) → EveryKnown (replicate n none)
replicate-EveryKnown zero = tt
replicate-EveryKnown (suc n) = replicate-EveryKnown n

-- For nodes on known backends, where the caches of all layers together are below 2^64 bytes: on each
-- backend, each byte of the arena is in exactly one of the caches of keys and of values, and no byte
-- past it is in any.
pub cache_build_attn_kvcache-Disjoint :
    (c : CacheConfig) (nodes : List GraphNode) (b x : ℕ)
    → KnownNodes nodes
    → c.n_layer * (cache_bytes c + cache_bytes c) < 2 ^ 64
    → cache_cover b (cache_bytes c) x (cache_build_attn_kvcache c nodes).0
      ≡ covers 0 ((cache_build_attn_kvcache c nodes).1 b) x
unfolding cache_build_attn_kvcache
cache_build_attn_kvcache-Disjoint c nodes b x h small =
    let bytes = cache_bytes c in
    let used = used_layers c.n_layer nodes in
    let known =
      note_layers-EveryKnown c.n_layer nodes (replicate c.n_layer none) h
        (replicate-EveryKnown c.n_layer) in
    let len : length used ≡ c.n_layer =
      length-note_layers c.n_layer nodes (replicate c.n_layer none)
      ∙ length-replicate c.n_layer none in
    let fits = rw len at (room-le b bytes used) in
    let size = size_from_lem bytes b 0 used (omega (arith, fits, small)) in
    let start = at_start b in
    let sum : 0 + room b bytes used ≡ room b bytes used = omega arith in
    carve-cover c.ctx_size bytes (0 ∷ 0 ∷ 0 ∷ []) used b x refl known
    ∙ ap (λ k. covers k (room b bytes used) x) start
    ∙ ap (λ n. covers 0 n x) (sym (size ∙ sum))
  where
    at_start : (b : ℕ) → get_or {A = ℕ} (0 ∷ 0 ∷ 0 ∷ []) b 0 ≡ 0
    at_start zero = refl
    at_start (suc zero) = refl
    at_start (suc (suc zero)) = refl
    at_start (suc (suc (suc n))) = refl
