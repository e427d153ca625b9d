-- ===== src/Storage/Toposort/Sound.antt =====
-- The loop over the queue: what holds of the order, of the queue and of the counts.
use mathlib.Core.List.{append-nil, append_assoc}
use hashgraph.Prelude.{
  ℕ, zero, suc, ◌+◌, ◌-◌, ◌≤◌, ◌<◌, ◌≡◌, ◌∙◌, ap, String, Bool, true, false, ◌&&◌, ◌||◌, not, List,
  [], ◌∷◌, ◌++◌, arith, string_eq, nat_eq, ◌==◌, length, count_if, contains, contains-append, nodup,
  ltb, ◌⊎◌, inl, inr, length-append,
}
use hashgraph.Dict.{get_or}
use hashgraph.Storage.Toposort.{Edges, Graph, Degrees, relax, drain}
use hashgraph.Storage.Toposort.Counts.{children, incoming, times}
use hashgraph.Storage.Toposort.Relax.{get_or-relax, contains-relax, nodup-relax}
use hashgraph.Storage.Insert.Hops.{nodup-snoc}

-- The edges to a node whose parent is not in the list.
abbrev pub open_edges : List String → Edges → List String → String → ℕ
open_edges ids edges order k = incoming ids edges (λ p. not (contains order p)) k

-- No node of the list has an edge from a node that does not come before it.
unfoldable pub placed : List String → Edges → List String → List String → Bool
placed ids edges seen [] = true
placed ids edges seen (node ∷ rest) =
    open_edges ids edges seen node == 0 && placed ids edges (seen ++ node ∷ []) rest

placed-snoc :
    (ids : List String) (edges : Edges) (seen xs : List String) (n : String)
    → placed ids edges seen xs ≡ true
    → open_edges ids edges (seen ++ xs) n ≡ 0
    → placed ids edges seen (xs ++ n ∷ []) ≡ true
unfolding placed
placed-snoc ids edges seen [] n h k =
    ground (arith, k, ap (λ l. open_edges ids edges l n) (append-nil seen))
placed-snoc ids edges seen (x ∷ xs) n h k = ground (
  arith,
  h,
  placed-snoc ids edges (seen ++ x ∷ []) xs n (ground (arith, h))
      (ap (λ l. open_edges ids edges l n) (append_assoc seen (x ∷ []) xs) ∙ k),
)

-- The node leaves with its edges.
open_edges-snoc :
    (ids : List String) (edges : Edges) (order : List String) (n v : String)
    → contains order n ≡ false
    → open_edges ids edges order v
      ≡ open_edges ids edges (order ++ n ∷ []) v + times v (children ids edges n)
unfolding incoming children count_if contains
open_edges-snoc ids [] order n v h = omega arith
open_edges-snoc ids ((p, c) ∷ edges) order n v h = ground (
  arith,
  open_edges-snoc ids edges order n v h,
  contains-append order (n ∷ []) p,
  string_eq.beq_iff p n,
  string_eq.beq_iff n p,
)

-- Only events of the store have edges.
contains-children :
    (ids : List String) (edges : Edges) (n v : String)
    → 0 < times v (children ids edges n)
    → contains ids v ≡ true
unfolding children count_if
contains-children ids [] n v h = ground (arith, h)
contains-children ids ((p, c) ∷ edges) n v h =
    ground (arith, h, contains-children ids edges n v, string_eq.beq_iff c v)

-- The state between two turns of the loop.
pub record Inv (ids : List String) (edges : Edges) (indegree : Degrees) (queue order : List String)
    : Type 0 where
  pub order_once : nodup order ≡ true
  pub queue_once : nodup queue ≡ true
  pub apart : (v : String) → contains order v ≡ true → contains queue v ≡ false
  pub left : (v : String) → get_or v 0 indegree ≡ open_edges ids edges order v
  pub free :
      (v : String)
      → (contains order v || contains queue v) ≡ (contains ids v && get_or v 0 indegree == 0)
  pub in_order : placed ids edges [] order ≡ true

turn :
    (ids : List String) (edges : Edges) (graph : Graph) (indegree : Degrees) (node : String)
    (queue order : List String)
    → get_or node [] graph ≡ children ids edges node
    → Inv ids edges indegree (node ∷ queue) order
    → Inv ids edges
        (relax (get_or node [] graph) (indegree, queue)).0
        (relax (get_or node [] graph) (indegree, queue)).1
        (order ++ node ∷ [])
unfolding contains nodup
turn ids edges graph indegree node queue order g i =
    let cs = children ids edges node in
    let fresh : contains order node ≡ false =
      ground (arith, i.apart node, string_eq.beq_iff node node) in
    let gone : (v : String)
        → open_edges ids edges order v ≡ open_edges ids edges (order ++ node ∷ []) v + times v cs =
      λ v. open_edges-snoc ids edges order node v fresh in
    let enough : (v : String) → times v cs ≤ get_or v 0 indegree =
      λ v. omega (arith, gone v, i.left v) in
    let added : (v : String)
        → contains (order ++ node ∷ []) v ≡ (contains order v || contains (node ∷ []) v) =
      λ v. contains-append order (node ∷ []) v in
    let queued : (v : String)
        → contains (relax cs (indegree, queue)).1 v
          ≡ (contains queue v || (ltb 0 (times v cs) && times v cs == get_or v 0 indegree)) =
      λ v. contains-relax cs indegree queue v enough in
    let counted : (v : String)
        → get_or v 0 (relax cs (indegree, queue)).0 ≡ get_or v 0 indegree - times v cs =
      λ v. get_or-relax cs indegree queue v in
    rw g (record {
      order_once = nodup-snoc order node i.order_once fresh;
      queue_once =
          nodup-relax cs indegree queue enough (λ v m. ground (arith, i.free v, enough v, m))
            (ground (arith, i.queue_once));
      apart = λ v m. ground (
        arith,
        added v,
        queued v,
        i.free v,
        i.apart v,
        m,
        i.queue_once,
        string_eq.beq_iff node v,
        enough v,
      );
      left = λ v. omega (arith, counted v, gone v, i.left v);
      free = λ v. ground (
        arith,
        counted v,
        added v,
        queued v,
        i.free v,
        enough v,
        contains-children ids edges node v,
      );
      in_order =
          placed-snoc ids edges [] order node i.in_order
            (ground (arith, i.left node, i.free node, string_eq.beq_iff node node));
    })

-- The order that the loop returns.
pub record Ends (ids : List String) (edges : Edges) (out : List String) : Type 0 where
  pub once : nodup out ≡ true
  pub inside : (v : String) → contains out v ≡ true → contains ids v ≡ true
  pub sorted : placed ids edges [] out ≡ true
  pub finished :
      (length out ≡ length ids)
      ⊎ ((v : String) → contains out v ≡ (contains ids v && open_edges ids edges out v == 0))

pub drain-Ends :
    (ids : List String) (edges : Edges) (graph : Graph)
    → ((k : String) → get_or k [] graph ≡ children ids edges k)
    → (fuel : ℕ) (indegree : Degrees) (queue order : List String) → length order + fuel ≡ length ids
    → Inv ids edges indegree queue order
    → Ends ids edges (drain fuel graph indegree queue order)
unfolding drain contains
drain-Ends ids edges graph g zero indegree queue order l i = record {
  once = i.order_once;
  inside = λ v m. ground (arith, i.free v, m);
  sorted = i.in_order;
  finished = inl (omega (arith, l));
}
drain-Ends ids edges graph g (suc fuel) indegree [] order l i = record {
  once = i.order_once;
  inside = λ v m. ground (arith, i.free v, m);
  sorted = i.in_order;
  finished = inr (λ v. ground (arith, i.free v, i.left v));
}
drain-Ends ids edges graph g (suc fuel) indegree (node ∷ queue) order l i =
    drain-Ends ids edges graph g fuel (relax (get_or node [] graph) (indegree, queue)).0
      (relax (get_or node [] graph) (indegree, queue)).1 (order ++ node ∷ [])
      (omega (arith, l, length-append order (node ∷ [])))
      (turn ids edges graph indegree node queue order (g node) i)
