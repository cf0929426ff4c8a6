-- ===== src/Tests/Graphs.antt =====
-- A graph of five nodes: tokens, their embedding, a hidden layer of it, the sum, and a copy.
use tinyllama_c.Prelude.{
  ◌^◌, ◌<◌, ◌≤◌, ◌≡◌, refl, [], ◌∷◌, none, some, map, arith, get_elem?, replicate,
}
use tinyllama_c.Gguf.Model.{TensorInfo}
use tinyllama_c.Graph.{
  Graph, GraphNode, Session, graph_new, add, silu, gpu_build, assign_backends, with_backend,
  layer_backend, gpu_layers, is_copy, graph_layer_backend,
}
use tinyllama_c.Graph.Backward.{Call, Makes, IsBackward, Makes-IsBackward, perform}
use tinyllama_c.Graph.Layers.{assign_backends-agrees}
use tinyllama_c.Graph.{node_add, node_add_extern, new_node}
use tinyllama_c.Graph.Builders.{
  graph_input, graph_embed, graph_silu, graph_binary, is_binary, is_input, not_input_of,
}
use tinyllama_c.Graph.Plan.{
  arena_plan, demands, demands_from, dims_from, node_out_dim, sinks_from, unmark_all, releases,
  release_from, note_uses, count_up, node_need, node_cap_rows, align16, sweep, sweep_step, reclaim,
  reclaim_ended, reclaim_slot, place, best_chunk, scan_chunks, swap_remove, empty_sweep,
}
use tinyllama_c.Graph.Plan.Slots.{total_need}
use tinyllama_c.Graph.Plan.Step.{Inside}
use tinyllama_c.Graph.Plan.Release.{asked}
use tinyllama_c.Graph.Plan.Safe.{Undisturbed, EveryNodeBackend, arena_plan-Undisturbed}

abbrev session : Session
session = record {
  n_gpu_layers = 1;
  n_layer = 2;
  n_vocab = 100;
  n_head = 2;
  head_dim = 4;
  n_ubatch = 4;
}

abbrev table : TensorInfo
table = record {
  key = [];
  dim = 8 ∷ 100 ∷ [];
  type = 0;
  offset = 0;
  n_element = 800;
  bytes = 3200;
  padded_dim = 0;
}

abbrev tokens : Graph
tokens = perform (Call.input 4) graph_new

abbrev embedded : Graph
embedded = perform (Call.embed (some 0) (some table) 4) tokens

abbrev hidden : Graph
hidden = perform (Call.silu (some 1)) embedded

abbrev summed : Graph
summed = perform (Call.binary add (some 1) (some 2)) hidden

abbrev copied : Graph
copied = perform (Call.silu (some 3)) summed

copied-Makes : Makes copied
unfolding graph_new perform node_add node_add_extern new_node graph_input graph_embed graph_silu
    graph_binary is_binary is_input not_input_of
copied-Makes =
    Makes.call (Call.silu (some 3))
      (Makes.call (Call.binary add (some 1) (some 2))
        (Makes.call (Call.silu (some 1))
          (Makes.call (Call.embed (some 0) (some table) 4)
            (Makes.call (Call.input 4) Makes.new (omega arith) tt) (omega arith) (omega arith))
          (omega arith) (omega arith))
        (omega arith) (omega arith))
      (omega arith) (omega arith)

Makes-IsBackward_example : IsBackward copied
Makes-IsBackward_example = Makes-IsBackward copied-Makes

-- The slots of the tokens and of the embedding serve again.
arena_run : map (λ t. t.off) (arena_plan copied session).slot ≡ 0 ∷ 16 ∷ 144 ∷ 272 ∷ 16 ∷ []
unfolding graph_new perform node_add node_add_extern new_node graph_input graph_embed graph_silu
    graph_binary is_binary is_input not_input_of arena_plan demands demands_from dims_from
    node_out_dim sinks_from unmark_all releases release_from note_uses count_up node_need
    node_cap_rows align16 sweep sweep_step reclaim reclaim_ended reclaim_slot place best_chunk
    scan_chunks swap_remove empty_sweep
arena_run = refl

copied-low : EveryNodeBackend copied.node
unfolding graph_new perform node_add node_add_extern new_node graph_input graph_embed graph_silu
    graph_binary is_binary is_input not_input_of
copied-low = omega arith

copied-small : total_need (demands copied session) < 2 ^ 64
unfolding graph_new perform node_add node_add_extern new_node graph_input graph_embed graph_silu
    graph_binary is_binary is_input not_input_of demands demands_from dims_from node_out_dim
    sinks_from unmark_all releases release_from note_uses count_up node_need node_cap_rows align16
copied-small = omega arith

arena_plan-Undisturbed_example :
    (map asked (arena_plan copied session).slot ≡ demands copied session)
    × Inside (arena_plan copied session)
    × Undisturbed copied (arena_plan copied session).slot
arena_plan-Undisturbed_example = arena_plan-Undisturbed copied session copied-low copied-small

-- The hidden layer, in a build with a GPU.
abbrev on_gpu : GraphNode
on_gpu = record {
  op = silu;
  idx = 2;
  layer = 0;
  backend = 1;
  src = some 1 ∷ none ∷ none ∷ none ∷ [];
  weights = none ∷ none ∷ none ∷ none ∷ [];
  params = replicate 16 0;
  ne = 0;
}

assign_run : get_elem? (assign_backends gpu_build copied session).0.node 2 ≡ some on_gpu
unfolding graph_new perform node_add node_add_extern new_node graph_input graph_embed graph_silu
    graph_binary is_binary is_input not_input_of assign_backends with_backend layer_backend
    gpu_layers is_copy
assign_run = refl

assign_backends-agrees_example :
    (on_gpu.backend
      ≡ graph_layer_backend gpu_build (assign_backends gpu_build copied session).1 on_gpu.layer)
    × ((assign_backends gpu_build copied session).1.n_gpu_layers ≤ session.n_layer)
unfolding is_copy
assign_backends-agrees_example =
    assign_backends-agrees copied session 2 on_gpu (omega arith) assign_run refl
