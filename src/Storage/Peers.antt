-- ===== src/Storage/Peers.antt =====
-- mdrj/storage.py, the table of peers: `upsert_peer`, `ensure_peer`, `update_peer` and
-- `delete_peer`. `lower` is str.lower of the standard library; a text column without a value
-- reads as "".
pub mod Decisions
use hashgraph.Prelude.{
  ℕ, ◌≡◌, String, Bool, true, false, ◌&&◌, ◌||◌, not, Option, none, some, List, [], ◌∷◌, string_eq,
  if◌then◌else◌, ◌==◌, strip,
}
use hashgraph.Dict.{Dict, get, put, remove}
use hashgraph.Models.{Time, or_default}

pub record PeerRow : Type 0 where
  pub node_id : String
  pub last_seen : Option Time
  pub healthy : Bool
  pub enabled : Bool
  pub note : String
  pub source : String
  pub role : String
  pub approval_status : String

pub record PeerInfo : Type 0 where
  pub address : String
  pub row : PeerRow
  pub is_self : Bool

abbrev pub PeerTable : Type 0
PeerTable = Dict String PeerRow

-- a if a is not None else b
abbrev pub given_or {ℓ} : {A : Type ℓ} → Option A → A → A
given_or none b = b
given_or (some a) b = a

abbrev pub or_else {ℓ} : {A : Type ℓ} → Option A → Option A → Option A
or_else none b = b
or_else (some a) b = some a

abbrev pub info_of : String → PeerRow → PeerInfo
info_of address row = record { address = address; row = row; is_self = row.source == "self" }

-- INSERT ... ON CONFLICT(address) DO UPDATE SET last_seen, healthy
unfoldable pub contacted : Time → Bool → Option PeerRow → PeerRow
contacted last_seen healthy none = record {
  node_id = "";
  last_seen = some last_seen;
  healthy = healthy;
  enabled = true;
  note = "";
  source = "runtime";
  role = "node";
  approval_status = "approved";
}
contacted last_seen healthy (some row) = record row {
  last_seen = some last_seen;
  healthy = healthy;
}

unfoldable pub upsert_peer : String → Time → Bool → PeerTable → PeerTable
unfolding contacted
upsert_peer address last_seen healthy table =
    put address (contacted last_seen healthy (get address table)) table

unfoldable pub delete_peer : String → PeerTable → PeerTable
delete_peer address table = remove address table

-- The arguments of `update_peer`.
pub record PeerChange : Type 0 where
  pub enabled : Option Bool
  pub note : Option String
  pub last_seen : Option Time
  pub healthy : Option Bool
  pub role : Option String
  pub node_id : Option String
  pub approval_status : Option String

module _ (lower : String → String) where
  unfoldable pub normalize_node_role : String → String
  normalize_node_role value =
      let role = lower (strip value) in
      if role == "node" || role == "responder" then role else "node"

  unfoldable pub normalize_approval_status : String → String
  normalize_approval_status value =
      let status = lower (strip value) in
      if status == "pending" || (status == "approved" || status == "rejected")
      then status
      else "approved"

  -- The row of `ensure_peer`, whose arguments `offered` holds.
  unfoldable pub ensured : PeerRow → Option PeerRow → PeerRow
  unfolding normalize_node_role normalize_approval_status
  ensured offered none = record offered {
    role = normalize_node_role offered.role;
    approval_status = normalize_approval_status offered.approval_status;
  }
  ensured offered (some row) = record {
    node_id = or_default row.node_id offered.node_id;
    last_seen = or_else offered.last_seen row.last_seen;
    healthy = offered.healthy;
    enabled = row.enabled;
    note = or_default row.note offered.note;
    source = or_default row.source offered.source;
    role = normalize_node_role row.role;
    approval_status = normalize_approval_status row.approval_status;
  }

  unfoldable pub ensure_peer : String → PeerRow → PeerTable → PeerInfo × PeerTable
  unfolding ensured
  ensure_peer address offered table =
      let row = ensured offered (get address table) in (info_of address row, put address row table)

  unfoldable pub changed : PeerChange → PeerRow → PeerRow
  unfolding normalize_node_role normalize_approval_status
  changed change row = record {
    node_id = given_or change.node_id row.node_id;
    last_seen = or_else change.last_seen row.last_seen;
    healthy = given_or change.healthy row.healthy;
    enabled = given_or change.enabled row.enabled;
    note = given_or change.note row.note;
    source = or_default row.source "runtime";
    role = normalize_node_role (given_or change.role row.role);
    approval_status =
        normalize_approval_status
          (given_or change.approval_status (or_default row.approval_status "approved"));
  }

  unfoldable pub update_peer : String → PeerChange → PeerTable → Option (PeerInfo × PeerTable)
  unfolding changed
  update_peer address change table = elim (get address table) [
    | none ↦ none
    | some row ↦
        let next = changed change row in some (info_of address next, put address next table)
  ]
