-- ===== src/Graph/Builders.antt =====
-- The graph builders of `src/graph.c`. A float parameter is its bit pattern.
use tinyllama_c.Prelude.{
  ℕ, ◌+◌, ◌*◌, ◌%◌, ◌^◌, Bool, true, false, ◌||◌, ◌&&◌, not, List, [], ◌∷◌, Option, none, some, ltb,
  leb, ◌==◌, if◌then◌else◌, length, get_elem?,
}
use tinyllama_c.Gguf.Model.{TensorInfo}
use tinyllama_c.Graph.{
  GraphOp, Graph, Built, Session, node_add, backend_cpu, not_positive, input, add, mul, matmul,
  matmul_t, scale, rms_norm, rms_norm_heads, sigmoid_gate, rope_neox, rope_norm, softmax, silu,
  gelu, embed, bias, attn, ssm_conv, ssm_delta, mamba2_conv, mamba2_scan, softcap, h2d, d2h,
}

abbrev pub Node : Type 0
Node = Option ℕ

abbrev pub Weight : Type 0
Weight = Option TensorInfo

-- `!p`
abbrev pub missing {ℓ} : {A : Type ℓ} → Option A → Bool
missing none = true
missing (some a) = false

abbrev pub sources : Node → Node → Node → List Node
sources a b c = a ∷ b ∷ c ∷ none ∷ []

abbrev no_weights : List Weight
no_weights = none ∷ none ∷ none ∷ none ∷ []

abbrev one_weight : Weight → List Weight
one_weight w = w ∷ none ∷ none ∷ none ∷ []

-- `weight->ndim < n`, of a tensor that may be NULL.
abbrev fewer_dims : Weight → ℕ → Bool
fewer_dims none n = true
fewer_dims (some w) n = ltb (length w.dim) n

-- An early return of `GRAPH_NODE_NONE`, or else a new node.
abbrev pub unless : Graph → Bool → Built → Built
unless g refused built = if refused then (none, g) else built

unfoldable pub graph_copy : Graph → Node → ℕ → Built
graph_copy g src dst = unless g (missing src) (
    node_add g (if dst == backend_cpu then d2h else h2d) (sources src none none) no_weights
      (dst ∷ []) 0)

unfoldable pub graph_layer_boundary : Graph → Node → Session → ℕ → Built
graph_layer_boundary g src s layer =
    if missing src
      || not_positive s.n_gpu_layers
      || leb s.n_layer s.n_gpu_layers
      || not ((layer + 1) % 2 ^ 32 == s.n_gpu_layers)
    then (src, g)
    else graph_copy g src backend_cpu

unfoldable pub graph_input : Graph → ℕ → Built
graph_input g n_tokens =
    unless g (n_tokens == 0) (node_add g input (sources none none none) no_weights [] n_tokens)

unfoldable pub graph_rms_norm : Graph → Node → Weight → Built
graph_rms_norm g src weight =
    unless g (missing src || missing weight)
      (node_add g rms_norm (sources src none none) (one_weight weight) [] 0)

unfoldable pub graph_rms_norm_heads : Graph → Node → Weight → ℕ → ℕ → ℕ → ℕ → Built
graph_rms_norm_heads g src weight n_heads head_dim in_stride out_stride =
    unless g
      (missing src
        || missing weight
        || n_heads == 0
        || head_dim == 0
        || ltb in_stride head_dim
        || ltb out_stride head_dim)
      (node_add g rms_norm_heads (sources src none none) (one_weight weight)
        (n_heads ∷ head_dim ∷ in_stride ∷ out_stride ∷ []) 0)

unfoldable pub graph_mul_mat : Graph → Node → Weight → Bool → Built
graph_mul_mat g src weight trans = unless g (missing src || fewer_dims weight 2) (
    node_add g (if trans then matmul_t else matmul) (sources src none none) (one_weight weight) []
      0)

unfoldable pub is_binary : GraphOp → Bool
is_binary add = true
is_binary mul = true
is_binary _ = false

unfoldable pub graph_binary : Graph → GraphOp → Node → Node → Built
graph_binary g op a b =
    unless g (not (is_binary op) || missing a || missing b)
      (node_add g op (sources a b none) no_weights [] 0)

-- A node of one source, no weight and some parameters.
abbrev unary : Graph → GraphOp → Node → List ℕ → Built
unary g op src params =
    unless g (missing src) (node_add g op (sources src none none) no_weights params 0)

unfoldable pub graph_silu : Graph → Node → Built
graph_silu g src = unary g silu src []

unfoldable pub graph_gelu : Graph → Node → Built
graph_gelu g src = unary g gelu src []

unfoldable pub graph_softmax : Graph → Node → Built
graph_softmax g src = unary g softmax src []

unfoldable pub graph_scale : Graph → Node → ℕ → Built
graph_scale g src bits = unary g scale src (bits ∷ [])

-- `x <= 0.0f` for a float of these bits: a zero, or a negative number.
unfoldable pub float_not_positive : ℕ → Bool
float_not_positive bits = bits == 0 || (leb 0x80000000 bits && leb bits 0xff800000)

unfoldable pub graph_softcap : Graph → Node → ℕ → Built
graph_softcap g src bits =
    unless g (missing src || float_not_positive bits)
      (node_add g softcap (sources src none none) no_weights (bits ∷ []) 0)

unfoldable pub graph_bias : Graph → Node → Weight → Built
graph_bias g src weight =
    unless g (missing src || fewer_dims weight 1)
      (node_add g bias (sources src none none) (one_weight weight) [] 0)

unfoldable pub graph_sigmoid_gate : Graph → Node → Node → ℕ → ℕ → Built
graph_sigmoid_gate g a gate n_heads head_dim =
    unless g (missing a || missing gate || n_heads == 0 || head_dim == 0)
      (node_add g sigmoid_gate (sources a gate none) no_weights (n_heads ∷ head_dim ∷ []) 0)

unfoldable pub graph_ssm_conv : Graph → Node → Weight → ℕ → ℕ → Built
graph_ssm_conv g src weight state kernel =
    unless g (missing src || missing weight || kernel == 0 || leb g.n_state state)
      (node_add g ssm_conv (sources src none none) (one_weight weight) (state ∷ kernel ∷ []) 0)

-- `GraphSsmDelta`
pub record SsmDelta : Type 0 where
  pub fused : Node
  pub alpha : Node
  pub beta : Node
  pub ssm_a : Weight
  pub dt_bias : Weight
  pub norm : Weight
  pub state : ℕ
  pub n_v_heads : ℕ
  pub n_k_heads : ℕ
  pub head_dim : ℕ

unfoldable pub graph_ssm_delta : Graph → SsmDelta → Built
graph_ssm_delta g a =
    unless g
      (missing a.fused
        || missing a.alpha
        || missing a.beta
        || missing a.ssm_a
        || missing a.dt_bias
        || a.n_v_heads == 0
        || a.head_dim == 0
        || a.n_k_heads == 0
        || not (a.n_v_heads % a.n_k_heads == 0)
        || leb g.n_state a.state)
      (node_add g ssm_delta (sources a.fused a.alpha a.beta)
        (a.ssm_a ∷ a.dt_bias ∷ a.norm ∷ none ∷ [])
        (a.state ∷ a.n_v_heads ∷ a.n_k_heads ∷ a.head_dim ∷ []) 0)

unfoldable pub graph_mamba2_conv : Graph → Node → Weight → Weight → ℕ → ℕ → ℕ → ℕ → ℕ → ℕ → Built
graph_mamba2_conv g src weight bias' state kernel d_inner n_group d_state n_head =
    unless g
      (missing src
        || missing weight
        || kernel == 0
        || d_inner == 0
        || n_group == 0
        || d_state == 0
        || n_head == 0
        || leb g.n_state state)
      (node_add g mamba2_conv (sources src none none) (weight ∷ bias' ∷ none ∷ none ∷ [])
        (state ∷ kernel ∷ d_inner ∷ n_group ∷ d_state ∷ n_head ∷ []) 0)

-- The tensors of `graph_mamba2_scan`, and its sizes.
pub record Mamba2Scan : Type 0 where
  pub ssm_a : Weight
  pub ssm_d : Weight
  pub dt_bias : Weight
  pub norm : Weight
  pub state : ℕ
  pub n_head : ℕ
  pub head_dim : ℕ
  pub d_state : ℕ
  pub n_group : ℕ
  pub d_inner : ℕ

unfoldable pub graph_mamba2_scan : Graph → Node → Node → Mamba2Scan → Built
graph_mamba2_scan g conv proj a =
    unless g
      (missing conv
        || missing proj
        || missing a.ssm_a
        || missing a.ssm_d
        || missing a.dt_bias
        || a.n_head == 0
        || a.head_dim == 0
        || a.d_state == 0
        || a.n_group == 0
        || a.d_inner == 0
        || not (a.n_head % a.n_group == 0)
        || not (a.n_head * a.head_dim % 2 ^ 32 == a.d_inner)
        || leb g.n_state a.state)
      (node_add g mamba2_scan (sources conv proj none) (a.ssm_a ∷ a.ssm_d ∷ a.dt_bias ∷ a.norm ∷ [])
        (a.state ∷ a.n_head ∷ a.head_dim ∷ a.d_state ∷ a.n_group ∷ a.d_inner ∷ []) 0)

unfoldable pub graph_attn : Graph → Node → Node → Node → ℕ → ℕ → Built
graph_attn g q k v layer window =
    unless g (missing q || missing k || missing v)
      (node_add g attn (sources q k v) no_weights (layer ∷ window ∷ []) 0)

-- Both rotations have the same checks.
abbrev rotation : GraphOp → Graph → Node → ℕ → ℕ → ℕ → ℕ → Built
rotation op g src theta n_heads head_dim rope_dim =
    unless g (missing src || head_dim == 0 || rope_dim == 0 || ltb head_dim rope_dim) (
      node_add g op (sources src none none) no_weights (theta ∷ n_heads ∷ head_dim ∷ rope_dim ∷ [])
        0)

unfoldable pub graph_rope : Graph → Node → ℕ → ℕ → ℕ → ℕ → Built
graph_rope = rotation rope_neox

unfoldable pub graph_rope_norm : Graph → Node → ℕ → ℕ → ℕ → ℕ → Built
graph_rope_norm = rotation rope_norm

unfoldable pub is_input : GraphOp → Bool
is_input input = true
is_input _ = false

-- `src->op != OP_INPUT || src->ne[0] != (int)n_tokens`; the `int` of a large number is negative.
unfoldable pub not_input_of : Graph → Node → ℕ → Bool
not_input_of g none n_tokens = true
not_input_of g (some i) n_tokens = elim (get_elem? g.node i) [
  | none ↦ true
  | some n ↦ not (is_input n.op) || not (n.ne == n_tokens) || leb (2 ^ 31) n_tokens
]

unfoldable pub graph_embed : Graph → Node → Weight → ℕ → Built
graph_embed g src weight n_tokens =
    unless g (fewer_dims weight 2 || n_tokens == 0 || not_input_of g src n_tokens)
      (node_add g embed (sources src none none) (one_weight weight) [] 0)
