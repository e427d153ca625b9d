-- ===== src/Consensus/Order.antt =====
-- `total_order`: by round received, then consensus time, then id; missing values last.
pub mod Laws
use hashgraph.Prelude.{
  ℕ, suc, String, Option, none, some, List, [], ◌∷◌, map, string_eq, nat_ord, text_ord, option_ord,
  pair_ord, sort_on, is_empty,
}
use hashgraph.Dict.{Dict, get}
use hashgraph.Models.{Event, Time}

-- What `recompute` has worked out for each event: the round received and the time.
abbrev pub Resolved : Type 0
Resolved = Dict String (Option ℕ × Option Time)

abbrev pub or_stored : Event → Option (Option ℕ × Option Time) → Option ℕ × Option Time
or_stored event none = (event.round_received, event.consensus_ts)
or_stored event (some found) = found

-- (rr_key, ts_key)
unfoldable pub placement : Resolved → Event → Option ℕ × Option Time
placement resolved event = or_stored event (get event.id resolved)

abbrev pub Key : Type 0
Key = Option ℕ × (Option Time × (String × ℕ))

-- (rr_key, ts_key, id, index), of an event with its index
unfoldable pub key_of : Resolved → ℕ × Event → Key
key_of resolved (index, event) =
    let (round_received, consensus_ts) = placement resolved event in
    (round_received, (consensus_ts, (event.id, index)))

-- enumerate(events)
unfoldable pub enumerate : ℕ → List Event → List (ℕ × Event)
enumerate index [] = []
enumerate index (event ∷ events) = (index, event) ∷ enumerate (suc index) events

unfoldable pub total_order : Resolved → List Event → List Event
unfolding key_of placement enumerate
total_order resolved events = map (λ d. d.1) (sort_on (key_of resolved) (enumerate 0 events))
