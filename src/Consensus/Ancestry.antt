-- ===== src/Consensus/Ancestry.antt =====
-- Who descends from whom: `_ancestor_ids` and `_can_see`.
pub mod Exact
pub mod Cached
use hashgraph.Prelude.{
  ℕ, zero, suc, ◌+◌, ◌≤◌, ◌<◌, ◌≡◌, ◌↔◌, refl, String, Bool, true, false, ◌||◌, Option, none, some,
  List, [], ◌∷◌, ◌++◌, arith, ◌==◌, string_eq, if◌then◌else◌, contains, contains-append, length,
}
use hashgraph.Dict.{Dict, get, put}
use hashgraph.Models.{Event}

abbrev pub Events : Type 0
Events = Dict String Event

-- The loop over the parents: each parent, and what the recursive call finds above it.
abbrev pub gather : (String → List String) → List String → List String
gather above [] = []
gather above (parent ∷ rest) = parent ∷ (above parent ++ gather above rest)

abbrev pub above_event : (String → List String) → Option Event → List String
above_event above none = []
above_event above (some event) = gather above event.parents

-- Without the cache. A recursion deeper than the fuel finds nothing.
pub ancestor_ids : ℕ → Events → String → List String
ancestor_ids zero by_id event_id = []
ancestor_ids (suc fuel) by_id event_id = above_event (ancestor_ids fuel by_id) (get event_id by_id)

-- The number of events is fuel enough: a chain of parents is no longer.
unfoldable pub can_see : Events → String → String → Bool
can_see by_id observer target =
    observer == target || contains (ancestor_ids (length by_id) by_id observer) target

abbrev pub Cache : Type 0
Cache = Dict String (List String)

-- The loop over the parents, which hands the cache on.
abbrev pub gather_cached :
    (String → Cache → List String × Cache) → List String → Cache → List String × Cache
gather_cached above [] cache = ([], cache)
gather_cached above (parent ∷ rest) cache =
    let (up, cache') = above parent cache in
    let (others, cache'') = gather_cached above rest cache' in (parent ∷ (up ++ others), cache'')

-- cache[event_id] = seen; return seen
abbrev pub remember : String → List String × Cache → List String × Cache
remember event_id (seen, cache) = (seen, put event_id seen cache)

abbrev pub above_event_cached :
    (String → Cache → List String × Cache) → String → Option Event → Cache → List String × Cache
above_event_cached above event_id none cache = remember event_id ([], cache)
above_event_cached above event_id (some event) cache =
    remember event_id (gather_cached above event.parents cache)

abbrev pub hit_or : Option (List String) → Cache → List String × Cache → List String × Cache
hit_or (some seen) cache miss = (seen, cache)
hit_or none cache miss = miss

-- `_ancestor_ids` as it stands, with the cache as a state.
pub ancestor_ids_cached : ℕ → Events → String → Cache → List String × Cache
ancestor_ids_cached zero by_id event_id cache = ([], cache)
ancestor_ids_cached (suc fuel) by_id event_id cache =
    hit_or (get event_id cache) cache
      (above_event_cached (ancestor_ids_cached fuel by_id) event_id (get event_id by_id) cache)
