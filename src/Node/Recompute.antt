-- ===== src/Node/Recompute.antt =====
-- mdrj/node.py `_recompute_consensus`: the consensus states of the stored events are computed anew
-- and written to their rows. The members of the snapshot are an argument. The rows of
-- `SELECT id FROM events` come in the order of the table.
pub mod Written
use hashgraph.Prelude.{
  ℕ, String, Bool, true, false, not, Option, none, some, List, [], ◌∷◌, map, string_eq,
  if◌then◌else◌, ◌==◌, keep, is_empty, strip, Result, ok, err, ◌>>=◌,
}
use hashgraph.Dict.{Dict, get, put}
use hashgraph.Models.{Event, Envelope, Time, Hop}
use hashgraph.Consensus.Membership.{MembershipEntry}
use hashgraph.Consensus.Ancestry.{Events}
use hashgraph.Consensus.Recompute.{ConsensusState, index_events, recompute}
use hashgraph.Storage.{StoredEvent, Database}
use hashgraph.Storage.Rows.{row_ids}
use hashgraph.Storage.Insert.{all_events, get_envelope, replace_consensus_state}
use hashgraph.Storage.Toposort.{CycleError, toposort}

abbrev path_of : Option Envelope → List Hop
path_of none = []
path_of (some envelope) = envelope.path_meta

-- The loop over the events.
unfoldable pub path_meta_by_event :
    Database → Dict String (List Hop) → List Event → Dict String (List Hop)
path_meta_by_event db paths [] = paths
path_meta_by_event db paths (event ∷ events) =
    path_meta_by_event db (put event.id (path_of (get_envelope event.id db)) paths) events

-- The members of the snapshot that have an id.
unfoldable pub membership_of : List MembershipEntry → List MembershipEntry
membership_of members =
    map
      (λ item. record {
        node_id = strip item.node_id;
        address = item.address;
        role = if item.role == "" then "node" else item.role;
        is_self = item.is_self;
      })
      (keep (λ item. not (strip item.node_id == "")) members)

-- [by_id[event_id] for event_id in order_ids if event_id in by_id]
unfoldable pub pick_events : Events → List String → List Event
pick_events by_id [] = []
pick_events by_id (event_id ∷ order_ids) =
    let rest = pick_events by_id order_ids in
    elim (get event_id by_id) [ none ↦ rest | some event ↦ event ∷ rest ]

module _ (sha256 : String → List ℕ) (midpoint : Time → Time → Time) (node_id : String)
    (members : List MembershipEntry) where
  -- The states, in the order that the sort gives.
  unfoldable pub states_along : Database → List String → List ConsensusState
  unfolding path_meta_by_event membership_of pick_events
  states_along db order_ids =
      let events = all_events db.events in
      recompute sha256 midpoint node_id (membership_of members) (path_meta_by_event db [] events)
        (pick_events (index_events [] events) order_ids)

  unfoldable pub recompute_consensus : Database → Result CycleError Database
  unfolding states_along
  recompute_consensus db =
      if is_empty (all_events db.events)
      then ok db
      else toposort (row_ids db.events) db.edges >>= (λ order_ids.
        ok (record db { events = replace_consensus_state (states_along db order_ids) db.events }))
