-- ===== src/Graph/Cache.antt =====
-- The layout of the KV caches, `cache_build` of `src/graph.c`. An arena is counted from its start, and
-- its allocation does not fail.
pub mod Disjoint
pub mod Mla
pub mod Attends
use mathlib.Core.Option
use tinyllama_c.Prelude.{
  ℕ, zero, suc, ◌+◌, ◌*◌, ◌/◌, ◌%◌, ◌^◌, Bool, true, false, List, [], ◌∷◌, Option, none, some, ltb,
  leb, ◌==◌, if◌then◌else◌, get_or, set, replicate,
}
use tinyllama_c.Graph.{GraphOp, attn, GraphNode}
use tinyllama_c.Graph.Plan.{u64}

-- The configuration that the layout reads, with the size of the context.
pub record CacheConfig : Type 0 where
  pub ctx_size : ℕ
  pub n_layer : ℕ
  pub n_kv_head : ℕ
  pub kv_head_dim : ℕ
  pub head_dim : ℕ
  pub kv_lora_rank : ℕ

abbrev pub is_attn : GraphOp → Bool
is_attn attn = true
is_attn _ = false

-- The backend of each layer that a node attends in.
unfoldable pub note_layer : ℕ → GraphNode → List (Option ℕ) → List (Option ℕ)
note_layer n_layer n used =
    let l = get_or n.params 0 0 in
    if is_attn n.op then if leb n_layer l then used else set used l (some n.backend) else used

unfoldable pub note_layers : ℕ → List GraphNode → List (Option ℕ) → List (Option ℕ)
note_layers n_layer [] used = used
note_layers n_layer (n ∷ nodes) used = note_layers n_layer nodes (note_layer n_layer n used)

abbrev pub used_layers : ℕ → List GraphNode → List (Option ℕ)
used_layers n_layer nodes = note_layers n_layer nodes (replicate n_layer none)

-- The bytes of the keys of a layer, and of its values.
unfoldable pub cache_bytes : CacheConfig → ℕ
cache_bytes c = u64 (u64 (u64 (c.ctx_size * c.n_kv_head) * c.kv_head_dim) * 4)

abbrev pub on_backend : ℕ → Option ℕ → Bool
on_backend b none = false
on_backend b (some b') = b' == b

-- `kvcache_size` of a backend, from `size` on.
unfoldable pub size_from : ℕ → ℕ → ℕ → List (Option ℕ) → ℕ
size_from bytes b size [] = size
size_from bytes b size (u ∷ us) =
    size_from bytes b (if on_backend b u then u64 (size + u64 (bytes * 2)) else size) us

pub record AttnKvCache : Type 0 where
  pub backend : ℕ
  pub k : ℕ
  pub v : ℕ
  pub kv_cap : ℕ

-- Of each layer, from where the arenas of the backends are free.
unfoldable pub carve_from : ℕ → ℕ → List ℕ → List (Option ℕ) → List (Option AttnKvCache)
carve_from ctx bytes base [] = []
carve_from ctx bytes base (none ∷ us) = none ∷ carve_from ctx bytes base us
carve_from ctx bytes base (some b ∷ us) =
    let k = get_or base b 0 in
    some (record { backend = b; k = k; v = k + bytes; kv_cap = ctx })
    ∷ carve_from ctx bytes (set base b (k + bytes + bytes)) us

-- The caches of the layers, and the sizes of the arenas by backend.
unfoldable pub cache_build_attn_kvcache :
    CacheConfig → List GraphNode → List (Option AttnKvCache) × (ℕ → ℕ)
cache_build_attn_kvcache c nodes =
    let bytes = cache_bytes c in
    let used = used_layers c.n_layer nodes in
    (carve_from c.ctx_size bytes (0 ∷ 0 ∷ 0 ∷ []) used, λ b. size_from bytes b 0 used)

pub record MlaKvCache : Type 0 where
  pub raw_kv : ℕ
  pub attn_comp_kv : ℕ
  pub attn_state_kv : ℕ
  pub attn_state_score : ℕ
  pub index_comp_kv : ℕ
  pub index_state_kv : ℕ
  pub index_state_score : ℕ
  pub cap_raw : ℕ
  pub compress_ratio : ℕ
  pub comp_cap : ℕ

unfoldable pub raw_bytes : CacheConfig → ℕ
raw_bytes c = u64 (u64 (c.ctx_size * c.head_dim) * 4)

unfoldable pub comp_bytes : CacheConfig → ℕ
comp_bytes c = u64 (u64 (c.ctx_size * (if c.kv_lora_rank == 0 then 1 else c.kv_lora_rank)) * 4)

unfoldable pub score_bytes : CacheConfig → ℕ
score_bytes c = u64 (c.ctx_size * 4)

-- The cache of a layer at `base`.
unfoldable pub mla_layer : CacheConfig → ℕ → MlaKvCache
mla_layer c base =
    let comp = comp_bytes c in
    let score = score_bytes c in
    let p1 = base + raw_bytes c in
    let p2 = p1 + comp in
    let p3 = p2 + comp in
    let p4 = p3 + score in
    let p5 = p4 + comp in
    let p6 = p5 + comp in
    record {
      raw_kv = base;
      attn_comp_kv = p1;
      attn_state_kv = p2;
      attn_state_score = p3;
      index_comp_kv = p4;
      index_state_kv = p5;
      index_state_score = p6;
      cap_raw = c.ctx_size;
      compress_ratio = if ltb 0 c.kv_lora_rank then c.head_dim / c.kv_lora_rank else 2;
      comp_cap = c.ctx_size;
    }

unfoldable pub mla_from : CacheConfig → ℕ → ℕ → List MlaKvCache
mla_from c base zero = []
mla_from c base (suc n) =
    let m = mla_layer c base in m ∷ mla_from c (m.index_state_score + score_bytes c) n

-- The caches of the layers, and the size of the arena.
unfoldable pub cache_build_mla_kvcache : CacheConfig → List MlaKvCache × ℕ
cache_build_mla_kvcache c = (
  mla_from c 0 c.n_layer,
  u64 (u64 (raw_bytes c + comp_bytes c * 4 + score_bytes c * 2) * c.n_layer),
)
