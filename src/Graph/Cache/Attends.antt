-- ===== src/Graph/Cache/Attends.antt =====
-- The layers of `src/graph.c` that have a KV cache.
use mathlib.Core.Option
use tinyllama_c.Prelude.{
  ℕ, zero, suc, ◌+◌, ◌<◌, ◌≡◌, refl, ◌∙◌, inl, inr, true, false, List, [], ◌∷◌, Option, none, some,
  leb, length, get_or, get_elem?, set, replicate, arith, Bool-cases, length-replicate,
}
use tinyllama_c.Graph.{GraphNode}
use tinyllama_c.Graph.Cache.{
  CacheConfig, is_attn, note_layer, note_layers, used_layers, cache_bytes, AttnKvCache, carve_from,
  cache_build_attn_kvcache,
}
use tinyllama_c.Graph.Cache.Disjoint.{length-note_layers}

abbrev Marked : List (Option ℕ) → ℕ → Type 0
Marked used l = (b : ℕ) × (get_elem? used l ≡ some (some b))

set-Marked : (used : List (Option ℕ)) (k l b : ℕ) → Marked used l → Marked (set used k (some b)) l
set-Marked [] k l b (c, h) = absurd (cc)
set-Marked (u ∷ used) zero zero b m = (b, refl)
set-Marked (u ∷ used) zero (suc l) b m = m
set-Marked (u ∷ used) (suc k) zero b m = m
set-Marked (u ∷ used) (suc k) (suc l) b m = set-Marked used k l b m

set_here-Marked :
    (used : List (Option ℕ)) (l b : ℕ) → l < length used → Marked (set used l (some b)) l
set_here-Marked [] l b h = absurd (omega arith)
set_here-Marked (u ∷ used) zero b h = (b, refl)
set_here-Marked (u ∷ used) (suc l) b h = set_here-Marked used l b (omega arith)

note_layer-Marked :
    (n_layer : ℕ) (n : GraphNode) (used : List (Option ℕ)) (l : ℕ)
    → Marked used l
    → Marked (note_layer n_layer n used) l
unfolding note_layer
note_layer-Marked n_layer n used l m = elim (Bool-cases (is_attn n.op)) [
  | inl reads ↦ rw reads (elim (Bool-cases (leb n_layer (get_or n.params 0 0))) [
    | inl past ↦ rw past m
    | inr inside ↦ rw inside (set-Marked used (get_or n.params 0 0) l n.backend m)
  ])
  | inr other ↦ rw other m
]

note_layers-Marked :
    (n_layer : ℕ) (nodes : List GraphNode) (used : List (Option ℕ)) (l : ℕ)
    → Marked used l
    → Marked (note_layers n_layer nodes used) l
unfolding note_layers
note_layers-Marked n_layer [] used l m = m
note_layers-Marked n_layer (n ∷ nodes) used l m =
    note_layers-Marked n_layer nodes (note_layer n_layer n used) l
      (note_layer-Marked n_layer n used l m)

-- A node that attends in a layer marks it.
node-Marked :
    (n_layer : ℕ) (nodes : List GraphNode) (used : List (Option ℕ)) (i : ℕ) (n : GraphNode)
    → length used ≡ n_layer
    → get_elem? nodes i ≡ some n
    → is_attn n.op ≡ true
    → get_or n.params 0 0 < n_layer
    → Marked (note_layers n_layer nodes used) (get_or n.params 0 0)
unfolding note_layers note_layer
node-Marked n_layer [] used i n shape at_i reads inside = absurd (cc)
node-Marked n_layer (m ∷ nodes) used zero n shape at_i reads inside =
    let same : m ≡ n = Option.some-injective _ _ at_i in
    let l = get_or n.params 0 0 in
    let low : leb n_layer l ≡ false = ground (arith, inside) in
    rw same (
      note_layers-Marked n_layer nodes (note_layer n_layer n used) l
        (rw (reads, low) (set_here-Marked used l n.backend (omega (arith, shape, inside)))))
node-Marked n_layer (m ∷ nodes) used (suc i) n shape at_i reads inside =
    node-Marked n_layer nodes (note_layer n_layer m used) i n
      (length-note_layers n_layer (m ∷ []) used ∙ shape) at_i reads inside

carve_from-some :
    (ctx bytes : ℕ) (base : List ℕ) (us : List (Option ℕ)) (l : ℕ)
    → Marked us l
    → (c : AttnKvCache) × (get_elem? (carve_from ctx bytes base us) l ≡ some (some c))
      × (c.kv_cap ≡ ctx)
      × (c.v ≡ c.k + bytes)
unfolding carve_from
carve_from-some ctx bytes base [] l (b, h) = absurd (cc)
carve_from-some ctx bytes base (none ∷ us) zero (b, h) =
    absurd (Option.none-ne-some b (Option.some-injective _ _ h))
carve_from-some ctx bytes base (some b' ∷ us) zero m = (_, refl, refl, refl)
carve_from-some ctx bytes base (none ∷ us) (suc l) m = carve_from-some ctx bytes base us l m
carve_from-some ctx bytes base (some b' ∷ us) (suc l) m =
    carve_from-some ctx bytes (set base b' (get_or base b' 0 + bytes + bytes)) us l m

-- A layer of the model in which a node attends has a cache, of the size of the context, and its
-- values are behind its keys.
pub cache_build_attn_kvcache-some :
    (c : CacheConfig) (nodes : List GraphNode) (i : ℕ) (n : GraphNode)
    → get_elem? nodes i ≡ some n
    → is_attn n.op ≡ true
    → get_or n.params 0 0 < c.n_layer
    → (k : AttnKvCache) × (get_elem? (cache_build_attn_kvcache c nodes).0 (get_or n.params 0 0)
        ≡ some (some k))
      × (k.kv_cap ≡ c.ctx_size)
      × (k.v ≡ k.k + cache_bytes c)
unfolding cache_build_attn_kvcache
cache_build_attn_kvcache-some c nodes i n at_i reads inside =
    carve_from-some c.ctx_size (cache_bytes c) (0 ∷ 0 ∷ 0 ∷ []) (used_layers c.n_layer nodes)
      (get_or n.params 0 0)
      (node-Marked c.n_layer nodes (replicate c.n_layer none) i n (length-replicate c.n_layer none)
        at_i reads inside)
