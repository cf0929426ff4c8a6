-- ===== src/Graph/Plan.antt =====
-- The arena planner of `src/graph.c`: widths, byte needs, last consumers, and the slots.
pub mod Cover
pub mod Place
pub mod Step
pub mod Slots
pub mod Release
pub mod Safe
use tinyllama_c.Prelude.{
  ℕ, zero, suc, ◌+◌, ◌-◌, ◌*◌, ◌/◌, ◌%◌, ◌^◌, Bool, true, false, ◌&&◌, List, [], ◌∷◌, ◌++◌, Option,
  none, some, ltb, leb, ◌==◌, if◌then◌else◌, length, get_or, set, take, replicate, map,
}
use tinyllama_c.Gguf.Model.{TensorInfo}
use tinyllama_c.Graph.{
  GraphOp, GraphNode, Graph, Session, backend_count, input, add, mul, matmul, matmularry, matmul_t,
  scale, rms_norm, rms_norm_heads, sigmoid_gate, rope_neox, rope_norm, softmax, silu, gelu, embed,
  bias, attn, ssm_conv, ssm_delta, mamba2_conv, mamba2_scan, softcap, h2d, d2h,
}
use tinyllama_c.Graph.Builders.{is_input}

abbrev pub u32 : ℕ → ℕ
u32 n = n % 2 ^ 32

abbrev pub u64 : ℕ → ℕ
u64 n = n % 2 ^ 64

-- `(x + 15) & ~15`
unfoldable pub align16 : ℕ → ℕ
align16 x = u64 (x + 15) / 16 * 16

unfoldable pub node_cap_rows : GraphNode → Bool → ℕ → ℕ
node_cap_rows n sink n_ubatch = if is_input n.op then u32 n.ne else if sink then 1 else n_ubatch

-- `weights[0]`, which the builders of these operators require.
abbrev no_tensor : TensorInfo
no_tensor = record {
  key = [];
  dim = [];
  type = 0;
  offset = 0;
  n_element = 0;
  bytes = 0;
  padded_dim = 0;
}

abbrev weight_of : GraphNode → TensorInfo
weight_of n = elim (get_or n.weights 0 none) [ none ↦ no_tensor | some w ↦ w ]

abbrev dim_of : TensorInfo → ℕ → ℕ
dim_of w i = u32 (get_or w.dim i 0)

-- The width of the first source.
abbrev source_dim : GraphNode → List ℕ → ℕ
source_dim n dims = elim (get_or n.src 0 none) [ none ↦ 0 | some i ↦ get_or dims i 0 ]

abbrev param : GraphNode → ℕ → ℕ
param n i = get_or n.params i 0

abbrev out_dim : GraphOp → GraphNode → List ℕ → Session → ℕ
out_dim input n dims c = 0
out_dim matmul_t n dims c = dim_of (weight_of n) 1
out_dim matmul n dims c = dim_of (weight_of n) 0
out_dim matmularry n dims c = dim_of (weight_of n) 0
out_dim embed n dims c =
    let w = weight_of n in if get_or w.dim 0 0 == c.n_vocab then dim_of w 1 else dim_of w 0
out_dim rms_norm n dims c = let w = weight_of n in u32 w.n_element
out_dim rms_norm_heads n dims c = u32 (param n 0 * param n 3)
out_dim sigmoid_gate n dims c = u32 (param n 0 * param n 1)
out_dim ssm_delta n dims c = u32 (param n 1 * param n 3)
out_dim mamba2_conv n dims c = u32 (param n 2 + 2 * param n 3 * param n 4)
out_dim mamba2_scan n dims c = param n 5
out_dim attn n dims c = u32 (c.n_head * c.head_dim)
out_dim _ n dims c = source_dim n dims

unfoldable pub node_out_dim : GraphNode → List ℕ → Session → ℕ
node_out_dim n dims c = out_dim n.op n dims c

-- `dims`, of which each entry reads the earlier ones.
unfoldable pub dims_from : List GraphNode → List ℕ → Session → List ℕ
dims_from [] dims c = dims
dims_from (n ∷ ns) dims c = dims_from ns (dims ++ node_out_dim n dims c ∷ []) c

-- `sink[src] = 0`
abbrev unmark : List ℕ → Option ℕ → List ℕ
unmark sink none = sink
unmark sink (some i) = set sink i 0

unfoldable pub unmark_all : List ℕ → List (Option ℕ) → List ℕ
unmark_all sink [] = sink
unmark_all sink (p ∷ ps) = unmark_all (unmark sink p) ps

unfoldable pub sinks_from : List GraphNode → List ℕ → List ℕ
sinks_from [] sink = sink
sinks_from (n ∷ ns) sink = sinks_from ns (unmark_all sink n.src)

unfoldable pub node_need : GraphNode → ℕ → ℕ → Session → ℕ
node_need n sink dim s = align16 (
    if is_input n.op
    then u64 (n.ne * 4)
    else u64 (u64 (node_cap_rows n (ltb 0 sink) s.n_ubatch * dim) * 4))

-- `if (j > release[src]) release[src] = j`
abbrev pub note_use : ℕ → List ℕ → Option ℕ → List ℕ
note_use j release none = release
note_use j release (some i) = if ltb (get_or release i 0) j then set release i j else release

unfoldable pub note_uses : ℕ → List ℕ → List (Option ℕ) → List ℕ
note_uses j release [] = release
note_uses j release (p ∷ ps) = note_uses j (note_use j release p) ps

unfoldable pub release_from : ℕ → List GraphNode → List ℕ → List ℕ
release_from j [] release = release
release_from j (n ∷ ns) release = release_from (j + 1) ns (note_uses j release n.src)

-- `release[i] = i`, for `n` nodes from `i` on.
unfoldable pub count_up : ℕ → ℕ → List ℕ
count_up i zero = []
count_up i (suc n) = i ∷ count_up (i + 1) n

unfoldable pub releases : List GraphNode → List ℕ
releases ns = release_from 0 ns (count_up 0 (length ns))

-- What the sweep reads of a node, and its `node_off`.
pub record Slot : Type 0 where
  pub backend : ℕ
  pub need : ℕ
  pub release : ℕ
  pub off : ℕ

-- An entry of `foff` and `fsz`.
pub record Chunk : Type 0 where
  pub off : ℕ
  pub size : ℕ

abbrev pub no_chunk : Chunk
no_chunk = record { off = 0; size = 0 }

-- The placed nodes in order, and the free chunks and the bump pointer of each backend.
pub record Sweep : Type 0 where
  pub slot : List Slot
  pub free : List (List Chunk)
  pub bump : List ℕ

abbrev pub free_of : Sweep → ℕ → List Chunk
free_of s b = get_or s.free b []

abbrev pub bump_of : Sweep → ℕ → ℕ
bump_of s b = get_or s.bump b 0

-- A slot becomes a free chunk.
unfoldable pub reclaim_slot : Slot → Sweep → Sweep
reclaim_slot t s = record s {
  free = set s.free t.backend (free_of s t.backend ++ record { off = t.off; size = t.need } ∷ []);
}

unfoldable pub reclaim_ended : ℕ → Slot → Sweep → Sweep
reclaim_ended i t s = if t.release + 1 == i then reclaim_slot t s else s

-- The slots whose last consumer ran at the step before `i`.
unfoldable pub reclaim : ℕ → List Slot → Sweep → Sweep
reclaim i [] s = s
reclaim i (t ∷ ts) s = reclaim i ts (reclaim_ended i t s)

-- The scan for the smallest chunk that fits, with `best` and `best_sz`.
unfoldable pub scan_chunks : ℕ → ℕ → List Chunk → ℕ → ℕ → ℕ
scan_chunks need f [] best best_sz = best
scan_chunks need f (c ∷ cs) best best_sz =
    let fits = leb need c.size && ltb c.size best_sz in
    scan_chunks need (f + 1) cs (if fits then f else best) (if fits then c.size else best_sz)

unfoldable pub best_chunk : ℕ → List Chunk → ℕ
best_chunk need cs = scan_chunks need 0 cs (length cs) (2 ^ 64 - 1)

-- The last chunk takes the place of chunk `best`.
unfoldable pub swap_remove : List Chunk → ℕ → List Chunk
swap_remove cs best = take (length cs - 1) (set cs best (get_or cs (length cs - 1) no_chunk))

-- A reused chunk, or new room at the bump pointer.
unfoldable pub place : ℕ → ℕ → ℕ → Sweep → Sweep
place b need release s =
    let cs = free_of s b in
    let best = best_chunk need cs in
    if ltb best (length cs)
    then record s {
      slot =
          s.slot
          ++ record {
            backend = b;
            need = need;
            release = release;
            off = (get_or cs best no_chunk).off;
          }
            ∷ [];
      free = set s.free b (swap_remove cs best);
    }
    else record s {
      slot =
          s.slot ++ record { backend = b; need = need; release = release; off = bump_of s b } ∷ [];
      bump = set s.bump b (u64 (bump_of s b + need));
    }

-- What a node asks for: its backend, bytes and last consumer.
pub record Demand : Type 0 where
  pub backend : ℕ
  pub need : ℕ
  pub release : ℕ

unfoldable pub sweep_step : Demand → Sweep → Sweep
sweep_step d s = place d.backend d.need d.release (reclaim (length s.slot) s.slot s)

unfoldable pub sweep : List Demand → Sweep → Sweep
sweep [] s = s
sweep (d ∷ ds) s = sweep ds (sweep_step d s)

unfoldable pub empty_sweep : Sweep
empty_sweep = record {
  slot = [];
  free = replicate backend_count [];
  bump = replicate backend_count 0;
}

unfoldable pub demands_from : ℕ → List GraphNode → List ℕ → List ℕ → List ℕ → Session → List Demand
demands_from i [] sink dims release s = []
demands_from i (n ∷ ns) sink dims release s =
    record {
      backend = n.backend;
      need = node_need n (get_or sink i 0) (get_or dims i 0) s;
      release = get_or release i 0;
    }
    ∷ demands_from (i + 1) ns sink dims release s

-- What the nodes of a graph ask for.
unfoldable pub demands : Graph → Session → List Demand
demands g s =
    demands_from 0 g.node (sinks_from g.node (replicate (length g.node) 1)) (dims_from g.node [] s)
      (releases g.node) s

-- `arena_plan` up to the allocation: the slot of every node, and the size of each arena.
unfoldable pub arena_plan : Graph → Session → Sweep
arena_plan g s = sweep (demands g s) empty_sweep
