-- ===== src/Tests/Sorting.antt =====
-- Runs of the theorems on the sort of the stored events.
use hashgraph.Prelude.{
  ℕ, ◌≡◌, ◌≢◌, refl, String, List, [], ◌∷◌, string_eq, nat_eq, ◌==◌, if◌then◌else◌, ok, err, nodup,
  contains, all,
}
use hashgraph.Dict.{get, get_or, has, put}
use hashgraph.Storage.Toposort.{
  Edges, cycle_detected, empty_graph, zero_degrees, add_edge, add_edges, ready, relax, drain,
  toposort,
}
use hashgraph.Storage.Toposort.Total.{IsSorted, toposort-IsSorted, toposort_total}

abbrev three_ids : List String
three_ids = "c" ∷ "b" ∷ "a" ∷ []

abbrev chain : Edges
chain = ("a", "b") ∷ ("b", "c") ∷ ("a", "c") ∷ ("z", "a") ∷ []

abbrev rank : String → ℕ
rank k = if k == "c" then 2 else if k == "b" then 1 else 0

sorted_chain : toposort three_ids chain ≡ ok ("a" ∷ "b" ∷ "c" ∷ [])
unfolding toposort empty_graph zero_degrees add_edge add_edges ready relax drain get get_or has put
sorted_chain = refl

cycle_found : toposort ("a" ∷ "b" ∷ []) (("a", "b") ∷ ("b", "a") ∷ []) ≡ err cycle_detected
unfolding toposort empty_graph zero_degrees add_edge add_edges ready relax drain get get_or has put
cycle_found = refl

toposort-IsSorted_example : IsSorted three_ids chain ("a" ∷ "b" ∷ "c" ∷ [])
unfolding nodup contains
toposort-IsSorted_example =
    toposort-IsSorted three_ids chain ("a" ∷ "b" ∷ "c" ∷ []) refl sorted_chain

toposort_total_example : toposort three_ids chain ≢ err cycle_detected
unfolding nodup contains all
toposort_total_example = toposort_total rank three_ids chain refl refl
