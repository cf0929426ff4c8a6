-- ===== src/Graph/Backward.antt =====
-- Graphs that are made by the builders of `src/graph.c` alone.
use tinyllama_c.Prelude.{
  ℕ, suc, ◌+◌, ◌<◌, ◌^◌, ◌≡◌, refl, Bool, true, false, List, [], ◌∷◌, ◌++◌, none, some, length,
  length-append, arith, ◌∙◌, ltb, inl, inr, Bool-cases, if◌then◌else◌,
}
use mathlib.Core.Path.{subst}
use tinyllama_c.Graph.{
  GraphOp, GraphNode, Graph, Session, backend_cpu, graph_new, node_add, node_add_extern, new_node,
  graph_set_layer, graph_state,
}
use tinyllama_c.Graph.Builders.{
  Node, Weight, unless, SsmDelta, Mamba2Scan, graph_copy, graph_layer_boundary, graph_input,
  graph_rms_norm, graph_rms_norm_heads, graph_mul_mat, graph_binary, graph_silu, graph_gelu,
  graph_softmax, graph_scale, graph_softcap, graph_bias, graph_sigmoid_gate, graph_ssm_conv,
  graph_ssm_delta, graph_mamba2_conv, graph_mamba2_scan, graph_attn, graph_rope, graph_rope_norm,
  graph_embed,
}

-- A handle of one of the first `n` nodes, or NULL.
abbrev pub Below : ℕ → Node → Type 0
Below n none = Unit {0}
Below n (some i) = i < n

abbrev pub EveryBelow : ℕ → List Node → Type 0
EveryBelow n [] = Unit {0}
EveryBelow n (p ∷ ps) = Below n p × EveryBelow n ps

-- From number `i` on, each node has its place as `idx`, and sources before it.
abbrev pub Numbered : ℕ → List GraphNode → Type 0
Numbered i [] = Unit {0}
Numbered i (n ∷ ns) = ((n.idx ≡ i) × EveryBelow i n.src) × Numbered (suc i) ns

pub record IsBackward (g : Graph) : Type 0 where
  pub count : g.n_node ≡ length g.node
  pub nodes : Numbered 0 g.node

append-Numbered :
    (i k : ℕ) (ns : List GraphNode) (n : GraphNode)
    → Numbered i ns
    → i + length ns ≡ k
    → n.idx ≡ k
    → EveryBelow k n.src
    → Numbered i (ns ++ n ∷ [])
append-Numbered i k [] n h e idx src =
    let same : k ≡ i = omega arith in ((idx ∙ same, subst (λ j. EveryBelow j n.src) same src), tt)
append-Numbered i k (m ∷ ns) n (here, h) e idx src =
    (here, append-Numbered (suc i) k ns n h (omega (arith, e)) idx src)

-- One call of a builder.
pub data Call : Type 0 where
  set_layer : ℕ → Call
  state : Call
  copy : Node → ℕ → Call
  layer_boundary : Node → Session → ℕ → Call
  input : ℕ → Call
  rms_norm : Node → Weight → Call
  rms_norm_heads : Node → Weight → ℕ → ℕ → ℕ → ℕ → Call
  mul_mat : Node → Weight → Bool → Call
  binary : GraphOp → Node → Node → Call
  silu gelu softmax : Node → Call
  scale softcap : Node → ℕ → Call
  bias : Node → Weight → Call
  sigmoid_gate : Node → Node → ℕ → ℕ → Call
  ssm_conv : Node → Weight → ℕ → ℕ → Call
  ssm_delta : SsmDelta → Call
  mamba2_conv : Node → Weight → Weight → ℕ → ℕ → ℕ → ℕ → ℕ → ℕ → Call
  mamba2_scan : Node → Node → Mamba2Scan → Call
  attn : Node → Node → Node → ℕ → ℕ → Call
  rope rope_norm : Node → ℕ → ℕ → ℕ → ℕ → Call
  embed : Node → Weight → ℕ → Call

-- The graph after a call.
unfoldable pub perform : Call → Graph → Graph
perform (set_layer l) g = graph_set_layer g l
perform state g = (graph_state g).1
perform (copy src dst) g = (graph_copy g src dst).1
perform (layer_boundary src s l) g = (graph_layer_boundary g src s l).1
perform (input n) g = (graph_input g n).1
perform (rms_norm src w) g = (graph_rms_norm g src w).1
perform (rms_norm_heads src w a b c d) g = (graph_rms_norm_heads g src w a b c d).1
perform (mul_mat src w t) g = (graph_mul_mat g src w t).1
perform (binary op a b) g = (graph_binary g op a b).1
perform (silu src) g = (graph_silu g src).1
perform (gelu src) g = (graph_gelu g src).1
perform (softmax src) g = (graph_softmax g src).1
perform (scale src x) g = (graph_scale g src x).1
perform (softcap src x) g = (graph_softcap g src x).1
perform (bias src w) g = (graph_bias g src w).1
perform (sigmoid_gate a b n d) g = (graph_sigmoid_gate g a b n d).1
perform (ssm_conv src w s k) g = (graph_ssm_conv g src w s k).1
perform (ssm_delta a) g = (graph_ssm_delta g a).1
perform (mamba2_conv src w b s k d n t h) g = (graph_mamba2_conv g src w b s k d n t h).1
perform (mamba2_scan c p a) g = (graph_mamba2_scan g c p a).1
perform (attn q k v l w) g = (graph_attn g q k v l w).1
perform (rope src t n d r) g = (graph_rope g src t n d r).1
perform (rope_norm src t n d r) g = (graph_rope_norm g src t n d r).1
perform (embed src w n) g = (graph_embed g src w n).1

-- The nodes that a call is given.
abbrev pub call_sources : Call → List Node
call_sources (set_layer l) = []
call_sources state = []
call_sources (copy src dst) = src ∷ []
call_sources (layer_boundary src s l) = src ∷ []
call_sources (input n) = []
call_sources (rms_norm src w) = src ∷ []
call_sources (rms_norm_heads src w a b c d) = src ∷ []
call_sources (mul_mat src w t) = src ∷ []
call_sources (binary op a b) = a ∷ b ∷ []
call_sources (silu src) = src ∷ []
call_sources (gelu src) = src ∷ []
call_sources (softmax src) = src ∷ []
call_sources (scale src x) = src ∷ []
call_sources (softcap src x) = src ∷ []
call_sources (bias src w) = src ∷ []
call_sources (sigmoid_gate a b n d) = a ∷ b ∷ []
call_sources (ssm_conv src w s k) = src ∷ []
call_sources (ssm_delta a) = a.fused ∷ a.alpha ∷ a.beta ∷ []
call_sources (mamba2_conv src w b s k d n t h) = src ∷ []
call_sources (mamba2_scan c p a) = c ∷ p ∷ []
call_sources (attn q k v l w) = q ∷ k ∷ v ∷ []
call_sources (rope src t n d r) = src ∷ []
call_sources (rope_norm src t n d r) = src ∷ []
call_sources (embed src w n) = src ∷ []

module _ {g : Graph} (b : IsBackward g) (small : g.n_node + 1 < 2 ^ 32) where
  node_add_extern-IsBackward :
      (op : GraphOp) (src : List Node) (ws : List Weight) (params : List ℕ) (ne : ℕ)
      → EveryBelow g.n_node src
      → IsBackward (node_add_extern g (new_node g op src ws params ne))
  unfolding node_add_extern new_node
  node_add_extern-IsBackward op src ws params ne known =
      let n = new_node g op src ws params ne in
      record {
        count = omega (arith, b.count, length-append g.node (n ∷ []));
        nodes = append-Numbered 0 g.n_node g.node n b.nodes (omega (arith, b.count)) refl known;
      }

  node_add-IsBackward :
      (op : GraphOp) (src : List Node) (ws : List Weight) (params : List ℕ) (ne : ℕ)
      → EveryBelow g.n_node src
      → IsBackward (node_add g op src ws params ne).1
  unfolding node_add
  node_add-IsBackward op src ws params ne known = elim (Bool-cases (ltb 16 (length params))) [
    | inl many ↦ rw many b
    | inr few ↦ rw few (node_add_extern-IsBackward op src ws params ne known)
  ]

  -- A builder that refuses, or adds a node of known sources.
  adds :
      (refused : Bool) (op : GraphOp) (src : List Node) (ws : List Weight) (params : List ℕ)
      (ne : ℕ)
      → EveryBelow g.n_node src
      → IsBackward (unless g refused (node_add g op src ws params ne)).1
  adds true op src ws params ne known = b
  adds false op src ws params ne known = node_add-IsBackward op src ws params ne known

  boundary :
      (stay : Bool) (src : Node) (dst : ℕ)
      → Below g.n_node src
      → IsBackward (if stay then (src, g) else graph_copy g src dst).1
  unfolding graph_copy
  boundary true src dst known = b
  boundary false src dst known = adds _ _ _ _ _ _ (known, (tt, (tt, (tt, tt))))

  -- A call that is given nodes of the graph adds one whose sources are among them, or none.
  perform-IsBackward : (c : Call) → EveryBelow g.n_node (call_sources c) → IsBackward (perform c g)
  unfolding perform graph_set_layer graph_state graph_copy graph_layer_boundary graph_input
      graph_rms_norm graph_rms_norm_heads graph_mul_mat graph_binary graph_silu graph_gelu
      graph_softmax graph_scale graph_softcap graph_bias graph_sigmoid_gate graph_ssm_conv
      graph_ssm_delta graph_mamba2_conv graph_mamba2_scan graph_attn graph_rope graph_rope_norm
      graph_embed
  perform-IsBackward (set_layer l) h = record { count = b.count; nodes = b.nodes }
  perform-IsBackward state h = record { count = b.count; nodes = b.nodes }
  perform-IsBackward (copy src dst) h = adds _ _ _ _ _ _ (h.0, (tt, (tt, (tt, tt))))
  perform-IsBackward (layer_boundary src s l) h = boundary _ src backend_cpu h.0
  perform-IsBackward (input n) h = adds _ _ _ _ _ _ (tt, (tt, (tt, (tt, tt))))
  perform-IsBackward (rms_norm src w) h = adds _ _ _ _ _ _ (h.0, (tt, (tt, (tt, tt))))
  perform-IsBackward (rms_norm_heads src w x y z u) h = adds _ _ _ _ _ _ (h.0, (tt, (tt, (tt, tt))))
  perform-IsBackward (mul_mat src w t) h = adds _ _ _ _ _ _ (h.0, (tt, (tt, (tt, tt))))
  perform-IsBackward (binary op x y) h = adds _ _ _ _ _ _ (h.0, (h.1.0, (tt, (tt, tt))))
  perform-IsBackward (silu src) h = adds _ _ _ _ _ _ (h.0, (tt, (tt, (tt, tt))))
  perform-IsBackward (gelu src) h = adds _ _ _ _ _ _ (h.0, (tt, (tt, (tt, tt))))
  perform-IsBackward (softmax src) h = adds _ _ _ _ _ _ (h.0, (tt, (tt, (tt, tt))))
  perform-IsBackward (scale src x) h = adds _ _ _ _ _ _ (h.0, (tt, (tt, (tt, tt))))
  perform-IsBackward (softcap src x) h = adds _ _ _ _ _ _ (h.0, (tt, (tt, (tt, tt))))
  perform-IsBackward (bias src w) h = adds _ _ _ _ _ _ (h.0, (tt, (tt, (tt, tt))))
  perform-IsBackward (sigmoid_gate x y n d) h = adds _ _ _ _ _ _ (h.0, (h.1.0, (tt, (tt, tt))))
  perform-IsBackward (ssm_conv src w s k) h = adds _ _ _ _ _ _ (h.0, (tt, (tt, (tt, tt))))
  perform-IsBackward (ssm_delta a) h = adds _ _ _ _ _ _ (h.0, (h.1.0, (h.1.1.0, (tt, tt))))
  perform-IsBackward (mamba2_conv src w x s k d n t y) h =
      adds _ _ _ _ _ _ (h.0, (tt, (tt, (tt, tt))))
  perform-IsBackward (mamba2_scan c p a) h = adds _ _ _ _ _ _ (h.0, (h.1.0, (tt, (tt, tt))))
  perform-IsBackward (attn q k v l w) h = adds _ _ _ _ _ _ (h.0, (h.1.0, (h.1.1.0, (tt, tt))))
  perform-IsBackward (rope src t n d r) h = adds _ _ _ _ _ _ (h.0, (tt, (tt, (tt, tt))))
  perform-IsBackward (rope_norm src t n d r) h = adds _ _ _ _ _ _ (h.0, (tt, (tt, (tt, tt))))
  perform-IsBackward (embed src w n) h = adds _ _ _ _ _ _ (h.0, (tt, (tt, (tt, tt))))

-- A graph that is made by calls on its own nodes, of which there are fewer than 2^32.
pub data Makes : Graph → Type 0 where
  new : Makes graph_new
  call :
      {g : Graph} (c : Call)
      → Makes g
      → g.n_node + 1 < 2 ^ 32
      → EveryBelow g.n_node (call_sources c)
      → Makes (perform c g)

-- Every graph that the builders make numbers its nodes in order, and each of its nodes has sources
-- before itself only.
pub Makes-IsBackward : {g : Graph} → Makes g → IsBackward g
unfolding graph_new
Makes-IsBackward new = record { count = refl; nodes = tt }
Makes-IsBackward (call c made small known) =
    perform-IsBackward (Makes-IsBackward made) small c known
