-- ===== src/Tests/Nodes.antt =====
-- Runs of the theorems on stored envelopes, on peers, and on the emission and the retention of events.
use hashgraph.Prelude.{
  all, ◌≡◌, ◌≤◌, refl, String, true, false, none, some, List, [], ◌∷◌, string_eq, nat_eq, length,
  nodup, contains, arith,
}
use hashgraph.Dict.{Dict, get}
use hashgraph.VectorClock.{happened_before}
use hashgraph.Models.{Envelope, class_a, Json}
use hashgraph.Models.Create.{Digests}
use hashgraph.Checkpoint.Ledger.{
  Checkpoint, Ledger, confirmed, is_confirmed, get_checkpoint, is_covered,
}
use hashgraph.Storage.{StoredEvent, Database, is_eligible}
use hashgraph.Storage.Insert.{store_envelope, get_event}
use hashgraph.Storage.Insert.Hops.{IsSound, store_envelope-IsSound}
use hashgraph.Storage.Peers.{PeerRow, PeerTable}
use hashgraph.Node.Peers.{Setting, reload}
use hashgraph.Node.Peers.Gate.{IsGated}
use hashgraph.Node.Peers.Approval.{
  PeerRequest, registered, discovered, approved, rejected, dropped, ask_all,
  active_peers_are_approved,
}
use hashgraph.Node.Emit.{Local, Emitter, choose_parents, new_event}
use hashgraph.Node.Emit.Parents.{choose_parents_bounds}
use hashgraph.Node.Emit.Clocks.{is_after, new_event-after}
use hashgraph.Node.Retention.{
  RetentionSettings, run_retention_once, verify_once, latest_confirmed_checkpoint,
}
use hashgraph.Node.Retention.Tampering.{retention_reports_tampering}
use hashgraph.Tests.Samples.{first_event, second_event, hops, hashes}

abbrev first_row : StoredEvent
first_row = record {
  event = record first_event { vclock = ("a", 1) ∷ []; round_received = some 1 };
  payload_text = "{}";
  created_at = 3;
}

abbrev second_row : StoredEvent
second_row = record {
  event = record second_event {
    self_parent_id = some "a0";
    vclock = ("a", 1) ∷ ("b", 1) ∷ [];
    round_received = some 1;
  };
  payload_text = "{}";
  created_at = 5;
}

abbrev database : Database
database = record {
  events = first_row ∷ second_row ∷ [];
  envelopes = ("a0", hops) ∷ ("b0", []) ∷ [];
  edges = ("a0", "b0") ∷ [];
  skeletons = [];
}

abbrev plain_json : Dict String Json → String
plain_json payload = "{}"

abbrev incoming : Envelope
incoming = record { event = first_event; path_meta = hops }

store_envelope-IsSound_example : IsSound (store_envelope plain_json 9 incoming (some 4) database).1
unfolding nodup contains
store_envelope-IsSound_example =
    store_envelope-IsSound plain_json 9 incoming (some 4) database
      (record { events_once = refl; edges_once = refl; hops_once = (refl, (refl, tt)) })

abbrev setting : Setting
setting = record { self_address = "self:a"; node_id = "a"; auto_approve = false; now = 9 }

abbrev waiting : PeerRow
waiting = record {
  node_id = "c";
  last_seen = none;
  healthy = true;
  enabled = true;
  note = "";
  source = "mdns";
  role = "node";
  approval_status = "pending";
}

abbrev registry : PeerTable
registry = ("10.0.0.3:8000", waiting) ∷ []

abbrev asked : List PeerRequest
asked =
    discovered "10.0.0.4:8000" "d" "mdns"
    ∷ registered "10.0.0.5:8000" "" "node" "e"
    ∷ approved "10.0.0.3:8000"
    ∷ rejected "10.0.0.5:8000"
    ∷ dropped "10.0.0.4:8000"
    ∷ []

abbrev same_text : String → String
same_text s = s

active_peers_are_approved_example :
    IsGated same_text (ask_all same_text setting asked (reload same_text registry))
unfolding nodup contains
active_peers_are_approved_example =
    active_peers_are_approved same_text setting
      (record { pending = refl; approved = refl; rejected = refl }) registry asked refl

abbrev first_choice : List String → String
first_choice [] = ""
first_choice (x ∷ xs) = x

first_choice_taken :
    (x : String) (xs : List String) → contains (x ∷ xs) (first_choice (x ∷ xs)) ≡ true
unfolding contains
first_choice_taken x xs = ground (arith, string_eq.beq_iff x x)

choose_parents_bounds_example :
    (length (choose_parents first_choice "a" ("a0" ∷ []) database.events) ≤ 2)
    × (nodup (choose_parents first_choice "a" ("a0" ∷ []) database.events) ≡ true)
choose_parents_bounds_example =
    choose_parents_bounds first_choice "a" ("a0" ∷ []) database.events first_choice_taken

abbrev digests : Digests
digests = record { header_json = λ h. h.source; payload_json = plain_json; sha256 = same_text }

abbrev emitter : Emitter
emitter = record { node_id = "a"; anchors = []; sig = none; ts = 6; now = 7 }

abbrev local : Local
local = record { database = database; clock = ("a", 1) ∷ [] }

new_event-after_example :
    (happened_before local.clock (new_event digests first_choice emitter class_a [] local).vclock
      ≡ true)
    × (all
          (λ p.
            is_after
              (new_event digests first_choice emitter class_a [] local).vclock
              (get_event p local.database.events))
          (new_event digests first_choice emitter class_a [] local).parents
        ≡ true)
unfolding nodup contains
new_event-after_example =
    new_event-after digests first_choice emitter class_a [] local (refl, (refl, tt))

abbrev settings : RetentionSettings
settings = record { enabled = true; keep_class_a = false }

abbrev checkpoint : Checkpoint
checkpoint = record {
  merkle_root = "root";
  members_snapshot_hash = "members";
  signatures = [];
  status = confirmed;
  confirmed_at = some 8;
  created_at = 8;
}

abbrev ledger : Ledger
ledger = record { checkpoints = (1, checkpoint) ∷ []; confirmed_count = 1; tamper_evidence = false }

retention_reports_tampering_example :
    (verify_once hashes
      (run_retention_once same_text 20 settings 15 ledger.checkpoints database).1
      ledger).1.tamper_evidence
    ≡ true
unfolding nodup contains latest_confirmed_checkpoint get_checkpoint is_confirmed is_covered
    is_eligible get
retention_reports_tampering_example =
    retention_reports_tampering hashes same_text 20 settings 15 database ledger 1 checkpoint refl
      refl refl refl (λ h. refl, (λ h. refl, tt))
