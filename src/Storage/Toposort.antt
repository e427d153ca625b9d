-- ===== src/Storage/Toposort.antt =====
-- mdrj/storage.py `toposort`: the ids of the events in an order that follows the edges.
pub mod Counts
pub mod Relax
pub mod Sound
pub mod Total
use hashgraph.Prelude.{
  ℕ, zero, suc, ◌+◌, ◌-◌, ◌≡◌, String, Bool, true, false, ◌&&◌, not, Option, none, some, List, [],
  ◌∷◌, ◌++◌, map, string_eq, nat_eq, if◌then◌else◌, ◌==◌, length, Result, ok, err,
}
use hashgraph.Dict.{Dict, get_or, has, put}

abbrev pub Edges : Type 0
Edges = List (String × String)

abbrev pub Graph : Type 0
Graph = Dict String (List String)

abbrev pub Degrees : Type 0
Degrees = Dict String ℕ

-- {row["id"]: [] for row in rows} and {node: 0 for node in graph}
unfoldable pub empty_graph : List String → Graph
empty_graph [] = []
empty_graph (k ∷ ids) = (k, []) ∷ empty_graph ids

unfoldable pub zero_degrees : List String → Degrees
zero_degrees [] = []
zero_degrees (k ∷ ids) = (k, 0) ∷ zero_degrees ids

-- One edge of the loop: an edge between known events.
unfoldable pub add_edge : String × String → Graph × Degrees → Graph × Degrees
add_edge (parent, child) (graph, indegree) =
    if has parent graph && has child graph
    then (
      put parent (get_or parent [] graph ++ child ∷ []) graph,
      put child (get_or child 0 indegree + 1) indegree,
    )
    else (graph, indegree)

unfoldable pub add_edges : Edges → Graph × Degrees → Graph × Degrees
unfolding add_edge
add_edges [] built = built
add_edges (e ∷ edges) built = add_edges edges (add_edge e built)

-- [node for node, deg in indegree.items() if deg == 0]
unfoldable pub ready : Degrees → List String
ready [] = []
ready ((node, deg) ∷ rest) = let more = ready rest in if deg == 0 then node ∷ more else more

-- The loop over the children: the counts and the queue.
unfoldable pub relax : List String → Degrees × List String → Degrees × List String
relax [] state = state
relax (child ∷ children) (indegree, queue) =
    let deg = get_or child 0 indegree - 1 in
    relax children (put child deg indegree, if deg == 0 then queue ++ child ∷ [] else queue)

-- The loop over the queue. A node is queued once, so the number of nodes is fuel enough.
unfoldable pub drain : ℕ → Graph → Degrees → List String → List String → List String
drain zero graph indegree queue order = order
drain (suc fuel) graph indegree [] order = order
drain (suc fuel) graph indegree (node ∷ queue) order =
    let (indegree', queue') = relax (get_or node [] graph) (indegree, queue) in
    drain fuel graph indegree' queue' (order ++ node ∷ [])

pub data CycleError : Type 0 where
  cycle_detected : CycleError

unfoldable pub toposort : List String → Edges → Result CycleError (List String)
unfolding empty_graph zero_degrees add_edges ready drain
toposort ids edges =
    let (graph, indegree) = add_edges edges (empty_graph ids, zero_degrees ids) in
    let order = drain (length ids) graph indegree (ready indegree) [] in
    if length order == length graph then ok order else err cycle_detected
