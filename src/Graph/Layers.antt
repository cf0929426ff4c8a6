-- ===== src/Graph/Layers.antt =====
-- Where the layers run, in `src/graph.c`.
use mathlib.Core.Option
use tinyllama_c.Prelude.{
  ℕ, zero, suc, ◌^◌, ◌≤◌, ◌<◌, ◌≡◌, ◌∙◌, ap, sym, false, List, [], ◌∷◌, some, map, get_elem?, arith,
}
use tinyllama_c.Graph.{
  GraphNode, Graph, Session, Build, gpu_build, graph_layer_backend, layer_on_gpu, gpu_layers,
  is_copy, layer_backend, with_backend, assign_backends,
}

gpu_layers-le : (s : Session) → gpu_layers s ≤ s.n_layer
unfolding gpu_layers
gpu_layers-le s = ground arith

layer_agrees :
    (s : Session) (layer : ℕ)
    → s.n_layer < 2 ^ 31
    → layer_backend gpu_build (gpu_layers s) s.n_layer layer
      ≡ graph_layer_backend gpu_build (record s { n_gpu_layers = gpu_layers s }) layer
unfolding layer_backend graph_layer_backend layer_on_gpu
layer_agrees s layer small = ground (arith, gpu_layers-le s)

mapped :
    (build : Build) (ngl n_layer : ℕ) (ns : List GraphNode) (j : ℕ) (n : GraphNode)
    → get_elem? (map (with_backend build ngl n_layer) ns) j ≡ some n
    → is_copy n.op ≡ false
    → n.backend ≡ layer_backend build ngl n_layer n.layer
unfolding with_backend
mapped build ngl n_layer [] j n h plain = absurd (cc)
mapped build ngl n_layer (m ∷ ns) zero n h plain =
    let e = Option.some-injective _ _ h in
    let op : m.op ≡ n.op = ap (λ w. w.op) e in
    let layer : m.layer ≡ n.layer = ap (λ w. w.layer) e in
    let plain' : is_copy m.op ≡ false = rw op plain in
    let there = rw plain' at (ap (λ w. w.backend) e) in
    sym there ∙ ap (layer_backend build ngl n_layer) layer
mapped build ngl n_layer (m ∷ ns) (suc j) n h plain = mapped build ngl n_layer ns j n h plain

-- In a GPU build, for a model of fewer than 2^31 layers: once the backends are assigned, every node
-- that is not a copy is where `graph_layer_backend` puts its layer, and the session keeps at most
-- as many GPU layers as there are.
pub assign_backends-agrees :
    (g : Graph) (s : Session) (j : ℕ) (n : GraphNode)
    → s.n_layer < 2 ^ 31
    → get_elem? (assign_backends gpu_build g s).0.node j ≡ some n
    → is_copy n.op ≡ false
    → (n.backend ≡ graph_layer_backend gpu_build (assign_backends gpu_build g s).1 n.layer)
      × ((assign_backends gpu_build g s).1.n_gpu_layers ≤ s.n_layer)
unfolding assign_backends
assign_backends-agrees g s j n small h plain = (
  mapped gpu_build (gpu_layers s) s.n_layer g.node j n h plain ∙ layer_agrees s n.layer small,
  gpu_layers-le s,
)
