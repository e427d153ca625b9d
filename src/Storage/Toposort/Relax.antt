-- ===== src/Storage/Toposort/Relax.antt =====
-- What the loop over the children of a node does to the counts and to the queue.
use hashgraph.Prelude.{
  ◌-◌, ◌≤◌, ◌≡◌, String, true, false, ◌&&◌, ◌||◌, List, [], ◌∷◌, ◌++◌, arith, string_eq, nat_eq,
  if◌then◌else◌, ◌==◌, count_if, contains, contains-append, nodup, Bool-cases, inl, inr, ltb,
}
use hashgraph.Dict.{get_or, put, get_or-put}
use hashgraph.Storage.Toposort.{Degrees, relax}
use hashgraph.Storage.Toposort.Counts.{times}
use hashgraph.Storage.Insert.Hops.{nodup-snoc}

-- Each child's count goes down by the number of edges to it.
pub get_or-relax :
    (cs : List String) (indegree : Degrees) (queue : List String) (v : String)
    → get_or v 0 (relax cs (indegree, queue)).0 ≡ get_or v 0 indegree - times v cs
unfolding relax count_if
get_or-relax [] indegree queue v = omega arith
get_or-relax (c ∷ cs) indegree queue v = ground (
  arith,
  get_or-relax cs (put c (get_or c 0 indegree - 1) indegree)
      (if get_or c 0 indegree - 1 == 0 then queue ++ c ∷ [] else queue) v,
  get_or-put c v (get_or c 0 indegree - 1) 0 indegree,
  string_eq.beq_iff c v,
)

-- The counts are at least the numbers of edges.
abbrev pub IsEnough : List String → Degrees → Type 0
IsEnough cs indegree = (v : String) → times v cs ≤ get_or v 0 indegree

IsEnough-left :
    (c : String) (cs : List String) (indegree : Degrees)
    → IsEnough (c ∷ cs) indegree
    → IsEnough cs (put c (get_or c 0 indegree - 1) indegree)
unfolding count_if
IsEnough-left c cs indegree h v =
    ground (arith, h v, get_or-put c v (get_or c 0 indegree - 1) 0 indegree, string_eq.beq_iff c v)

-- A node comes to the queue when the last edge to it goes.
pub contains-relax :
    (cs : List String) (indegree : Degrees) (queue : List String) (v : String)
    → IsEnough cs indegree
    → contains (relax cs (indegree, queue)).1 v
      ≡ (contains queue v || (ltb 0 (times v cs) && times v cs == get_or v 0 indegree))
unfolding relax count_if contains
contains-relax [] indegree queue v h = ground arith
contains-relax (c ∷ cs) indegree queue v h = ground (
  arith,
  contains-relax cs (put c (get_or c 0 indegree - 1) indegree)
      (if get_or c 0 indegree - 1 == 0 then queue ++ c ∷ [] else queue) v
      (IsEnough-left c cs indegree h),
  get_or-put c v (get_or c 0 indegree - 1) 0 indegree,
  string_eq.beq_iff c v,
  contains-append queue (c ∷ []) v,
  h v,
  h c,
)

-- A node is queued once.
pub nodup-relax :
    (cs : List String) (indegree : Degrees) (queue : List String)
    → IsEnough cs indegree
    → ((v : String) → contains queue v ≡ true → times v cs ≡ 0)
    → nodup queue ≡ true
    → nodup (relax cs (indegree, queue)).1 ≡ true
unfolding relax count_if contains
nodup-relax [] indegree queue h k n = n
nodup-relax (c ∷ cs) indegree queue h k n =
    let deg = get_or c 0 indegree - 1 in
    let fresh : contains queue c ≡ false = ground (arith, k c, string_eq.beq_iff c c) in
    elim (Bool-cases (deg == 0)) [
      | inl last ↦
          nodup-relax cs (put c deg indegree) (if deg == 0 then queue ++ c ∷ [] else queue)
            (IsEnough-left c cs indegree h)
            (λ v m.
              ground (
                arith,
                k v,
                h v,
                h c,
                last,
                contains-append queue (c ∷ []) v,
                string_eq.beq_iff c v,
              ))
            (rw last (nodup-snoc queue c n fresh))
      | inr more ↦
          nodup-relax cs (put c deg indegree) (if deg == 0 then queue ++ c ∷ [] else queue)
            (IsEnough-left c cs indegree h)
            (λ v m. ground (arith, k v, more, m, string_eq.beq_iff c v)) (rw more n)
    ]
