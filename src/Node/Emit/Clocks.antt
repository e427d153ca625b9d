-- ===== src/Node/Emit/Clocks.antt =====
-- The clock of a new event comes after the node's and after those of its parents.
use hashgraph.Prelude.{
  Bool, all, All, some_inj, ◌≡◌, refl, sym, String, true, Option, none, some, List, [], ◌∷◌,
  string_eq, nat_eq, arith, ◌==◌, contains, Bool-cases, inl, inr, beq_self, subst,
}
use hashgraph.Dict.{Dict}
use hashgraph.VectorClock.{Clock, increment, merge, happened_before}
use hashgraph.VectorClock.Laws.{IsDict, counter-merge, counter-increment}
use hashgraph.VectorClock.Causality.{LeClock, before_iff}
use hashgraph.Models.{Event, EventClass, Json}
use hashgraph.Models.Create.{Digests, create}
use hashgraph.Storage.{StoredEvent, id_of}
use hashgraph.Storage.Insert.{find_event, get_event, read_back}
use hashgraph.Node.Emit.{choose_parents, merge_parents, Local, Emitter, new_event}

-- The clocks in the table are dicts.
abbrev pub HasDictClocks : List StoredEvent → Type 0
HasDictClocks rows = All (λ row. IsDict row.event.vclock) rows

find_event-IsDict :
    (rows : List StoredEvent) (k : String) (e : Event)
    → HasDictClocks rows
    → find_event k rows ≡ some e
    → IsDict e.vclock
unfolding find_event
find_event-IsDict [] k e a h = cc
find_event-IsDict (row ∷ rows) k e a h = elim (Bool-cases (id_of row == k)) [
  | inl q ↦ subst (λ z. IsDict z.vclock) (some_inj (rw q at h)) a.0
  | inr q ↦ find_event-IsDict rows k e a.1 (rw q at h)
]

get_event-IsDict :
    (rows : List StoredEvent) (k : String) (e : Event)
    → HasDictClocks rows
    → get_event k rows ≡ some e
    → IsDict e.vclock
unfolding get_event read_back
get_event-IsDict rows k e a h = go (find_event k rows) refl h
  where
    go :
        (found : Option Event)
        → find_event k rows ≡ found
        → (elim found [ none ↦ none | some event ↦ some (read_back event) ]) ≡ some e
        → IsDict e.vclock
    go none f q = cc
    go (some event) f q =
        subst (λ z. IsDict z.vclock) (some_inj q) (find_event-IsDict rows k event a f)

le_merge_left : (c d : Clock) → IsDict d → LeClock c (merge c d)
le_merge_left c d h k = omega (arith, counter-merge c d k h)

le_merge_right : (c d : Clock) → IsDict d → LeClock d (merge c d)
le_merge_right c d h k = omega (arith, counter-merge c d k h)

abbrev with_parent : Clock → Option Event → Clock
with_parent clock none = clock
with_parent clock (some event) = merge clock event.vclock

le_with_parent :
    (clock : Clock) (found : Option Event)
    → ((e : Event) → found ≡ some e → IsDict e.vclock)
    → LeClock clock (with_parent clock found)
le_with_parent clock none h k = omega arith
le_with_parent clock (some e) h k = le_merge_left clock e.vclock (h e refl) k

le_found :
    (clock : Clock) (found : Option Event) (e : Event)
    → found ≡ some e
    → IsDict e.vclock
    → LeClock e.vclock (with_parent clock found)
le_found clock found e q h k = rw q (le_merge_right clock e.vclock h k)

merge_parents-le :
    (clock : Clock) (parents : List String) (rows : List StoredEvent)
    → HasDictClocks rows
    → LeClock clock (merge_parents clock parents rows)
unfolding merge_parents
merge_parents-le clock [] rows h k = omega arith
merge_parents-le clock (p ∷ parents) rows h k = omega (
  arith,
  le_with_parent clock (get_event p rows) (λ e. get_event-IsDict rows p e h) k,
  merge_parents-le (with_parent clock (get_event p rows)) parents rows h k,
)

merge_parents-parent :
    (clock : Clock) (parents : List String) (rows : List StoredEvent) (p : String) (e : Event)
    → HasDictClocks rows
    → contains parents p ≡ true
    → get_event p rows ≡ some e
    → LeClock e.vclock (merge_parents clock parents rows)
unfolding merge_parents contains
merge_parents-parent clock [] rows p e h c g k = cc
merge_parents-parent clock (q ∷ parents) rows p e h c g k = elim (Bool-cases (q == p)) [
  | inl same ↦
      let found = subst (λ z. get_event z rows ≡ some e) (sym ((string_eq.beq_iff q p).0 same)) g in
      omega (
        arith,
        le_found clock (get_event q rows) e found (get_event-IsDict rows q e h found) k,
        merge_parents-le (with_parent clock (get_event q rows)) parents rows h k,
      )
  | inr other ↦
      merge_parents-parent (with_parent clock (get_event q rows)) parents rows p e h (ground arith)
        g k
]

-- Counting up after a merge goes strictly past what was merged.
increment-after :
    (c d : Clock) (node_id : String) → LeClock c d → happened_before c (increment d node_id) ≡ true
increment-after c d node_id h = (before_iff c (increment d node_id)).1 (
  λ k. ground (arith, h k, counter-increment d node_id k, string_eq.beq_iff node_id k),
  λ back.
      ground
        (arith, h node_id, back node_id, counter-increment d node_id node_id, beq_self node_id),
)

-- The clock comes after that of the event, where there is one.
abbrev pub is_after : Clock → Option Event → Bool
is_after clock none = true
is_after clock (some event) = happened_before event.vclock clock

after_all :
    (rows : List StoredEvent) (before clock : Clock) (parents : List String) (node_id : String)
    → HasDictClocks rows
    → ((p : String) (e : Event)
        → contains parents p ≡ true
        → get_event p rows ≡ some e
        → LeClock e.vclock before)
    → clock ≡ increment before node_id
    → all (λ p. is_after clock (get_event p rows)) parents ≡ true
unfolding all contains
after_all rows before clock [] node_id h le q = refl
after_all rows before clock (p ∷ parents) node_id h le q = ground (
  arith,
  go (get_event p rows) (λ e. le p e (ground (arith, beq_self p))),
  after_all rows before clock parents node_id h (λ k e m. le k e (ground (arith, m))) q,
)
  where
    go :
        (found : Option Event)
        → ((e : Event) → found ≡ some e → LeClock e.vclock before)
        → is_after clock found ≡ true
    go none f = refl
    go (some e) f = rw q (increment-after e.vclock before node_id (f e refl))

module _ (digests : Digests) (choose : List String → String) (s : Emitter) where
  -- Where the stored clocks are dicts, the clock of a new event comes after the node's own clock, and
  -- after the clock of each of its parents that is stored.
  pub new_event-after :
      (cls : EventClass) (payload : Dict String Json) (local : Local)
      → HasDictClocks local.database.events
      → (happened_before local.clock (new_event digests choose s cls payload local).vclock ≡ true)
        × (all
              (λ p.
                is_after
                  (new_event digests choose s cls payload local).vclock
                  (get_event p local.database.events))
              (new_event digests choose s cls payload local).parents
            ≡ true)
  unfolding new_event create
  new_event-after cls payload local h =
      let rows = local.database.events in
      let parents = choose_parents choose s.node_id s.anchors rows in
      (
        increment-after local.clock _ s.node_id (merge_parents-le local.clock parents rows h),
        after_all rows (merge_parents local.clock parents rows) _ parents s.node_id h
            (λ p e c g. merge_parents-parent local.clock parents rows p e h c g) refl,
      )
