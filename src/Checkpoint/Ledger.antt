-- ===== src/Checkpoint/Ledger.antt =====
-- mdrj/node.py and mdrj/storage.py: the table of checkpoints, proposals that are made or received,
-- and the comparison of a checkpoint with the local events. A node's members, the time and the
-- events of the database are arguments. An HMAC key is none when the configuration has none.
pub mod Safety
pub mod Runs
pub mod Ingest
pub mod Signatures
use hashgraph.Prelude.{
  ℕ, zero, suc, ◌+◌, ◌≤◌, String, Bool, true, false, ◌&&◌, ◌||◌, not, Option, none, some, List, [],
  ◌∷◌, string_eq, nat_eq, leb, if◌then◌else◌, keep, is_empty, ◌==◌, Result, ok, err, is_some,
}
use hashgraph.Dict.{Dict, get, put}
use hashgraph.Models.{Event, Time}
use hashgraph.Checkpoint.{
  CheckpointProposal, Hashes, compute_merkle_root, sign_proposal, verify_proposal_signature,
  is_quorum_reached,
}

pub data Status : Type 0 where
  pending : Status
  confirmed : Status

unfoldable pub is_confirmed : Status → Bool
is_confirmed pending = false
is_confirmed confirmed = true

-- A row of the table `checkpoints`, without its key.
pub record Checkpoint : Type 0 where
  pub merkle_root : String
  pub members_snapshot_hash : String
  pub signatures : Dict String String
  pub status : Status
  pub confirmed_at : Option Time
  pub created_at : Time

abbrev pub Table : Type 0
Table = Dict ℕ Checkpoint

-- What the checkpoint operations of a node change.
pub record Ledger : Type 0 where
  pub checkpoints : Table
  pub confirmed_count : ℕ
  pub tamper_evidence : Bool

pub data CheckpointError : Type 0 where
  no_key : CheckpointError
  no_events : CheckpointError
  invalid_signature : CheckpointError
  no_checkpoint : CheckpointError

-- The row written for a round that may have one: the first row's creation time stays.
unfoldable pub with_created : Option Checkpoint → Time → Checkpoint → Checkpoint
with_created none now row = record {
  merkle_root = row.merkle_root;
  members_snapshot_hash = row.members_snapshot_hash;
  signatures = row.signatures;
  status = row.status;
  confirmed_at = row.confirmed_at;
  created_at = now;
}
with_created (some old) now row = record {
  merkle_root = row.merkle_root;
  members_snapshot_hash = row.members_snapshot_hash;
  signatures = row.signatures;
  status = row.status;
  confirmed_at = row.confirmed_at;
  created_at = old.created_at;
}

unfoldable pub get_checkpoint : ℕ → Table → Option Checkpoint
unfolding get
get_checkpoint r table = get r table

unfoldable pub upsert_checkpoint : ℕ → Checkpoint → Time → Table → Table
unfolding with_created get_checkpoint put
upsert_checkpoint r row now table = put r (with_created (get_checkpoint r table) now row) table

-- dict(existing["signatures"]) if existing else {}
unfoldable pub stored_signatures : Option Checkpoint → Dict String String
stored_signatures none = []
stored_signatures (some row) = row.signatures

unfoldable pub was_confirmed : Option Checkpoint → Bool
unfolding is_confirmed
was_confirmed none = false
was_confirmed (some row) = is_confirmed row.status

unfoldable pub stored_confirmed_at : Option Checkpoint → Option Time
stored_confirmed_at none = none
stored_confirmed_at (some row) = row.confirmed_at

unfoldable pub is_mismatch : Option Checkpoint → String → Bool
is_mismatch none root = false
is_mismatch (some row) root = not (row.merkle_root == root)

-- The signatures of the row once the proposal is added.
unfoldable pub with_signature : Option Checkpoint → CheckpointProposal → Dict String String
unfolding stored_signatures put
with_signature existing p = put p.proposer_node_id p.signature (stored_signatures existing)

-- The row after a proposal with the same digest as the row there was.
unfoldable pub signed_row : Option Checkpoint → CheckpointProposal → List String → Time → Checkpoint
unfolding with_signature was_confirmed stored_confirmed_at
signed_row existing p members now =
    let signatures = with_signature existing p in
    let reached = is_quorum_reached signatures members in
    record {
      merkle_root = p.merkle_root;
      members_snapshot_hash = p.members_snapshot_hash;
      signatures = signatures;
      status = if reached then confirmed else if was_confirmed existing then confirmed else pending;
      confirmed_at = if reached then some now else stored_confirmed_at existing;
      created_at = now;
    }

-- 1 when the proposal confirms a checkpoint that was not confirmed.
unfoldable pub newly_confirmed : Option Checkpoint → CheckpointProposal → List String → ℕ
unfolding with_signature was_confirmed
newly_confirmed existing p members =
    if is_quorum_reached (with_signature existing p) members && not (was_confirmed existing)
    then 1
    else 0

unfoldable pub record_proposal_signature : List String → Time → CheckpointProposal → Ledger → Ledger
unfolding is_mismatch upsert_checkpoint signed_row newly_confirmed get_checkpoint
record_proposal_signature members now p ledger =
    let existing = get_checkpoint p.round_received ledger.checkpoints in
    if is_mismatch existing p.merkle_root then ledger else record {
      checkpoints =
          upsert_checkpoint p.round_received (signed_row existing p members now) now
            ledger.checkpoints;
      confirmed_count = newly_confirmed existing p members + ledger.confirmed_count;
      tamper_evidence = ledger.tamper_evidence;
    }

-- `if hmac_key`: a key that is there and not empty.
unfoldable pub usable_key : Option String → Option String
usable_key none = none
usable_key (some key) = if key == "" then none else some key

-- [e for e in events if e.round_received is not None and e.round_received <= target_round]
unfoldable pub is_covered : ℕ → Event → Bool
is_covered target event = elim event.round_received [ none ↦ false | some r ↦ leb r target ]

unfoldable pub events_up_to_round_received : ℕ → List Event → List Event
unfolding is_covered
events_up_to_round_received target events = keep (is_covered target) events

module _ (hashes : Hashes) where
  -- The proposal for the events of the database, signed with the key.
  unfoldable pub local_proposal : String → String → String → ℕ → List Event → CheckpointProposal
  local_proposal node_id members_hash hmac_key target events =
      let unsigned : CheckpointProposal = record {
        round_received = target;
        merkle_root = compute_merkle_root hashes events;
        members_snapshot_hash = members_hash;
        proposer_node_id = node_id;
        signature = "";
      } in
      record {
        round_received = target;
        merkle_root = unsigned.merkle_root;
        members_snapshot_hash = members_hash;
        proposer_node_id = node_id;
        signature = sign_proposal hashes unsigned hmac_key;
      }

  unfoldable pub propose_local_checkpoint :
      String
      → Option String
      → List String
      → String
      → Time
      → ℕ
      → List Event
      → Ledger
      → Result CheckpointError (CheckpointProposal × Ledger)
  unfolding usable_key events_up_to_round_received local_proposal record_proposal_signature
  propose_local_checkpoint node_id key members members_hash now target all_events ledger =
      elim (usable_key key) [
        | none ↦ err no_key
        | some hmac_key ↦
            let events = events_up_to_round_received target all_events in
            let proposal = local_proposal node_id members_hash hmac_key target events in
            if is_empty events
            then err no_events
            else ok (proposal, record_proposal_signature members now proposal ledger)
      ]

  -- The guard of a received proposal.
  unfoldable pub is_refused : Option String → CheckpointProposal → Bool
  unfolding usable_key
  is_refused key p = elim (usable_key key) [
    | none ↦ false
    | some hmac_key ↦
        not (p.signature == "") && not (verify_proposal_signature hashes p p.signature hmac_key)
  ]

  unfoldable pub ingest_checkpoint_proposal :
      Option String
      → List String
      → Time
      → CheckpointProposal
      → Ledger
      → Result CheckpointError Ledger
  unfolding is_refused record_proposal_signature
  ingest_checkpoint_proposal key members now p ledger =
      if is_refused key p
      then err invalid_signature
      else ok (record_proposal_signature members now p ledger)

  pub record VerificationReport : Type 0 where
    pub matches_merkle : Bool
    pub local_merkle_root : String
    pub confirmed_merkle_root : String
    pub checkpoint_round : ℕ
    pub has_tamper_evidence : Bool

  unfoldable pub report_on : ℕ → List Event → Checkpoint → VerificationReport
  unfolding is_confirmed
  report_on r events row =
      let local = if is_empty events then "" else compute_merkle_root hashes events in
      let matches = not (local == "") && (local == row.merkle_root) in
      record {
        matches_merkle = matches;
        local_merkle_root = local;
        confirmed_merkle_root = row.merkle_root;
        checkpoint_round = r;
        has_tamper_evidence = not matches && is_confirmed row.status;
      }

  unfoldable pub verify_checkpoint :
      ℕ → List Event → Ledger → Result CheckpointError (VerificationReport × Ledger)
  unfolding report_on events_up_to_round_received get_checkpoint
  verify_checkpoint r all_events ledger = elim (get_checkpoint r ledger.checkpoints) [
    | none ↦ err no_checkpoint
    | some row ↦
        let report = report_on r (events_up_to_round_received r all_events) row in
        ok (
          report,
          record {
            checkpoints = ledger.checkpoints;
            confirmed_count = ledger.confirmed_count;
            tamper_evidence = report.has_tamper_evidence;
          },
        )
  ]
