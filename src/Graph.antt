-- ===== src/Graph.antt =====
-- The compute graph of `src/graph.c`: nodes, the builders' common step, and the layers' backends.
-- A node pointer is the node's `idx`, `GRAPH_NODE_NONE` is `none`, and a graph is its nodes in list
-- order. The graph that a builder is given is not NULL, and allocation does not fail.
pub mod Builders
pub mod Backward
pub mod Layers
pub mod Plan
pub mod Cache
use tinyllama_c.Prelude.{
  ℕ, ◌+◌, ◌-◌, ◌%◌, ◌^◌, Bool, true, false, ◌||◌, not, List, [], ◌∷◌, ◌++◌, Option, none, some, map,
  ltb, leb, ◌==◌, if◌then◌else◌, length, get_or, replicate,
}
use tinyllama_c.Gguf.Model.{TensorInfo}

pub data GraphOp : Type 0 where
  input add mul matmul matmularry matmul_t scale rms_norm rms_norm_heads sigmoid_gate rope_neox
        rope_norm softmax silu gelu embed bias attn ssm_conv ssm_delta mamba2_conv mamba2_scan
        softcap h2d d2h :
      GraphOp

-- `BackendType`
abbrev pub backend_cpu : ℕ
backend_cpu = 0

abbrev pub backend_cuda : ℕ
backend_cuda = 1

abbrev pub backend_metal : ℕ
backend_metal = 2

abbrev pub backend_count : ℕ
backend_count = 3

-- `src` and `weights` have four entries, `params` has 16; `ne` is `ne[0]`.
pub record GraphNode : Type 0 where
  pub op : GraphOp
  pub idx : ℕ
  pub layer : ℕ
  pub backend : ℕ
  pub src : List (Option ℕ)
  pub weights : List (Option TensorInfo)
  pub params : List ℕ
  pub ne : ℕ

pub record Graph : Type 0 where
  pub node : List GraphNode
  pub n_node : ℕ
  pub cur_layer : ℕ
  pub n_state : ℕ

-- What a builder returns: a node handle, and the graph.
abbrev pub Built : Type 0
Built = Option ℕ × Graph

unfoldable pub graph_new : Graph
graph_new = record { node = []; n_node = 0; cur_layer = 0; n_state = 0 }

unfoldable pub node_add_extern : Graph → GraphNode → Graph
node_add_extern g n = record g { node = g.node ++ n ∷ []; n_node = (g.n_node + 1) % 2 ^ 32 }

-- The node that `node_add` fills in; `params` holds the `n_params` given ones.
unfoldable pub new_node :
    Graph → GraphOp → List (Option ℕ) → List (Option TensorInfo) → List ℕ → ℕ → GraphNode
new_node g op src weights params ne = record {
  op = op;
  idx = g.n_node;
  layer = g.cur_layer;
  backend = backend_cpu;
  src = src;
  weights = weights;
  params = params ++ replicate (16 - length params) 0;
  ne = ne;
}

unfoldable pub node_add :
    Graph → GraphOp → List (Option ℕ) → List (Option TensorInfo) → List ℕ → ℕ → Built
node_add g op src weights params ne =
    if ltb 16 (length params)
    then (none, g)
    else (some g.n_node, node_add_extern g (new_node g op src weights params ne))

unfoldable pub graph_set_layer : Graph → ℕ → Graph
graph_set_layer g layer = record g { cur_layer = layer }

-- `graph_state`, of a pointer that is not NULL; the handle is the old number of states.
unfoldable pub graph_state : Graph → ℕ × Graph
graph_state g = (g.n_state, record g { n_state = (g.n_state + 1) % 2 ^ 32 })

-- The backends that a build has.
pub data Build : Type 0 where
  cpu_build gpu_build metal_build : Build

-- The fields of a session that the graph reads; `n_gpu_layers` is an `i32`.
pub record Session : Type 0 where
  pub n_gpu_layers : ℕ
  pub n_layer : ℕ
  pub n_vocab : ℕ
  pub n_head : ℕ
  pub head_dim : ℕ
  pub n_ubatch : ℕ

-- `x <= 0`, of an `i32`.
abbrev pub not_positive : ℕ → Bool
not_positive x = x == 0 || leb (2 ^ 31) x

unfoldable pub layer_on_gpu : Session → ℕ → Bool
layer_on_gpu s layer =
    if not_positive s.n_gpu_layers
    then false
    else leb s.n_layer s.n_gpu_layers || ltb layer s.n_gpu_layers

unfoldable pub graph_layer_backend : Build → Session → ℕ → ℕ
graph_layer_backend gpu_build s layer = if layer_on_gpu s layer then backend_cuda else backend_cpu
graph_layer_backend cpu_build s layer = backend_cpu
graph_layer_backend metal_build s layer = backend_cpu

-- `ngl`, cut to what there is.
unfoldable pub gpu_layers : Session → ℕ
gpu_layers s =
    let ngl = if leb (2 ^ 31) s.n_gpu_layers then 0 else s.n_gpu_layers in
    if ltb s.n_layer ngl then s.n_layer else ngl

unfoldable pub is_copy : GraphOp → Bool
is_copy h2d = true
is_copy d2h = true
is_copy _ = false

-- By its layer, in each build.
unfoldable pub layer_backend : Build → ℕ → ℕ → ℕ → ℕ
layer_backend cpu_build ngl n_layer layer = backend_cpu
layer_backend gpu_build ngl n_layer layer =
    if not_positive ngl
    then backend_cpu
    else if leb n_layer ngl || ltb layer ngl
    then backend_cuda
    else backend_cpu
layer_backend metal_build ngl n_layer layer =
    if not_positive ngl then backend_cpu else backend_metal

unfoldable pub with_backend : Build → ℕ → ℕ → GraphNode → GraphNode
with_backend build ngl n_layer n = record n {
  backend = if is_copy n.op then get_or n.params 0 0 else layer_backend build ngl n_layer n.layer;
}

-- The nodes' backends, and the number of layers that the session keeps.
unfoldable pub assign_backends : Build → Graph → Session → Graph × Session
assign_backends build g s =
    let ngl = gpu_layers s in
    (
      record g { node = map (with_backend build ngl s.n_layer) g.node },
      record s { n_gpu_layers = ngl },
    )
