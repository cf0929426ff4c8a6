-- ===== src/Graph/Cache/Mla.antt =====
-- The caches of an MLA model, in `src/graph.c`, do not overlap.
use tinyllama_c.Prelude.{
  ℕ, zero, suc, ◌+◌, ◌-◌, ◌*◌, ◌^◌, ◌<◌, ◌≡◌, ◌∙◌, ap, sym, List, [], ◌∷◌, arith, covers,
  covers-split,
}
use tinyllama_c.Graph.Plan.{u64}
use tinyllama_c.Graph.Cache.{
  CacheConfig, MlaKvCache, raw_bytes, comp_bytes, score_bytes, mla_layer, mla_from,
  cache_build_mla_kvcache,
}

module _ (c : CacheConfig) where
  -- How often a byte is in a buffer of a layer.
  abbrev pub mla_cover : ℕ → MlaKvCache → ℕ
  mla_cover x m =
      covers m.raw_kv (raw_bytes c) x
      + covers m.attn_comp_kv (comp_bytes c) x
      + covers m.attn_state_kv (comp_bytes c) x
      + covers m.attn_state_score (score_bytes c) x
      + covers m.index_comp_kv (comp_bytes c) x
      + covers m.index_state_kv (comp_bytes c) x
      + covers m.index_state_score (score_bytes c) x

  abbrev pub mla_covers : ℕ → List MlaKvCache → ℕ
  mla_covers x [] = 0
  mla_covers x (m ∷ ms) = mla_cover x m + mla_covers x ms

  abbrev pub layer_bytes : ℕ
  layer_bytes = raw_bytes c + comp_bytes c * 4 + score_bytes c * 2

  -- Two neighbours are one region.
  joined : (off a b x : ℕ) → covers off a x + covers (off + a) b x ≡ covers off (a + b) x
  joined off a b x =
      let cut = covers-split off a (a + b) x (omega arith) in
      let e : a + b - a ≡ b = omega arith in omega (arith, rw e at cut)

  mla_layer-cover : (base x : ℕ) → mla_cover x (mla_layer c base) ≡ covers base layer_bytes x
  unfolding mla_layer
  mla_layer-cover base x =
      let r = raw_bytes c in
      let k = comp_bytes c in
      let s = score_bytes c in
      let j1 = joined base r k x in
      let j2 = joined base (r + k) k x in
      let j3 = joined base (r + k + k) s x in
      let j4 = joined base (r + k + k + s) k x in
      let j5 = joined base (r + k + k + s + k) k x in
      let j6 = joined base (r + k + k + s + k + k) s x in ground (arith, j1, j2, j3, j4, j5, j6)

  next_base : (base : ℕ) → (mla_layer c base).index_state_score + score_bytes c ≡ base + layer_bytes
  unfolding mla_layer
  next_base base = omega arith

  mla_from-cover :
      (base n x : ℕ) → mla_covers x (mla_from c base n) ≡ covers base (n * layer_bytes) x
  unfolding mla_from
  mla_from-cover base zero x = let e : 0 * layer_bytes ≡ 0 = omega arith in rw e (ground arith)
  mla_from-cover base (suc n) x =
      let e : suc n * layer_bytes ≡ layer_bytes + n * layer_bytes = grind arith in
      let next = (mla_layer c base).index_state_score + score_bytes c in
      rw e (
        omega (
          arith,
          mla_layer-cover base x,
          mla_from-cover next n x,
          ap (λ k. covers k (n * layer_bytes) x) (next_base base),
          joined base layer_bytes (n * layer_bytes) x,
        ))

-- Where the buffers of all layers together are below 2^64 bytes: each byte of the arena is in exactly
-- one buffer of one layer, and no byte past it is in any.
pub cache_build_mla_kvcache-Disjoint :
    (c : CacheConfig) (x : ℕ)
    → layer_bytes c < 2 ^ 64
    → c.n_layer * layer_bytes c < 2 ^ 64
    → mla_covers c x (cache_build_mla_kvcache c).0 ≡ covers 0 (cache_build_mla_kvcache c).1 x
unfolding cache_build_mla_kvcache
cache_build_mla_kvcache-Disjoint c x layer small =
    let one : u64 (layer_bytes c) ≡ layer_bytes c = omega (arith, layer) in
    let turned : layer_bytes c * c.n_layer ≡ c.n_layer * layer_bytes c = grind arith in
    let all : u64 (u64 (layer_bytes c) * c.n_layer) ≡ c.n_layer * layer_bytes c =
      rw (one, turned) (omega (arith, small)) in
    mla_from-cover c 0 c.n_layer x ∙ ap (λ n. covers 0 n x) (sym all)
