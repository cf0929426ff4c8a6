-- ===== src/Tests/Caches.antt =====
-- The caches of a model of three layers, of which two attend, on two backends.
use tinyllama_c.Prelude.{ℕ, ◌+◌, ◌≡◌, refl, List, [], ◌∷◌, none, some, get_elem?, arith, covers}
use tinyllama_c.Graph.{GraphNode, graph_new, new_node, attn}
use tinyllama_c.Graph.Cache.{
  CacheConfig, cache_bytes, AttnKvCache, cache_build_attn_kvcache, cache_build_mla_kvcache,
  note_layers, note_layer, carve_from, raw_bytes, comp_bytes, score_bytes,
}
use tinyllama_c.Graph.Cache.Disjoint.{cache_cover, cache_build_attn_kvcache-Disjoint}
use tinyllama_c.Graph.Cache.Attends.{cache_build_attn_kvcache-some}
use tinyllama_c.Graph.Cache.Mla.{mla_covers, cache_build_mla_kvcache-Disjoint}

abbrev small_config : CacheConfig
small_config = record {
  ctx_size = 8;
  n_layer = 3;
  n_kv_head = 2;
  kv_head_dim = 4;
  head_dim = 4;
  kv_lora_rank = 2;
}

abbrev attends : ℕ → ℕ → GraphNode
attends l b = record (new_node graph_new attn [] [] (l ∷ []) 0) { backend = b }

abbrev nodes : List GraphNode
nodes = attends 0 0 ∷ attends 2 1 ∷ attends 2 1 ∷ []

caches_run :
    (cache_build_attn_kvcache small_config nodes).0
    ≡ some (record { backend = 0; k = 0; v = 256; kv_cap = 8 })
      ∷ none
      ∷ some (record { backend = 1; k = 0; v = 256; kv_cap = 8 })
      ∷ []
unfolding cache_build_attn_kvcache cache_bytes note_layers note_layer carve_from new_node graph_new
caches_run = refl

attends-Disjoint_example :
    cache_cover 1 (cache_bytes small_config) 300 (cache_build_attn_kvcache small_config nodes).0
    ≡ covers 0 ((cache_build_attn_kvcache small_config nodes).1 1) 300
unfolding cache_bytes new_node
attends-Disjoint_example =
    cache_build_attn_kvcache-Disjoint small_config nodes 1 300
      (omega arith, (omega arith, (omega arith, tt))) (omega arith)

attends-some_example :
    (k : AttnKvCache) × (get_elem? (cache_build_attn_kvcache small_config nodes).0 2
      ≡ some (some k))
    × (k.kv_cap ≡ 8)
    × (k.v ≡ k.k + cache_bytes small_config)
unfolding new_node graph_new
attends-some_example =
    cache_build_attn_kvcache-some small_config nodes 1 (attends 2 1) refl refl (omega arith)

mla-Disjoint_example :
    mla_covers small_config 300 (cache_build_mla_kvcache small_config).0
    ≡ covers 0 (cache_build_mla_kvcache small_config).1 300
unfolding raw_bytes comp_bytes score_bytes
mla-Disjoint_example = cache_build_mla_kvcache-Disjoint small_config 300 (omega arith) (omega arith)
