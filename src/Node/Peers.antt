-- ===== src/Node/Peers.antt =====
-- The node's peers (mdrj/node.py `_reload_peers_from_storage`, `register_peer`, `approve_peer`,
-- `reject_peer`, `_on_discovered_peer`, `update_peer`, `remove_peer` and `_quorum`, and
-- mdrj/storage.py `list_peers`): the registry in the database, and the active peers, to whom the
-- node gossips. What the operations do to the metrics and to the queue of the gossip is left out.
pub mod Entries
pub mod Gate
pub mod Registration
pub mod Approval
use hashgraph.Prelude.{
  ℕ, ◌+◌, ◌/◌, max, ◌≡◌, String, Bool, true, false, ◌&&◌, ◌||◌, not, Option, none, some, List, [],
  ◌∷◌, map, string_eq, nat_ord, text_ord, pair_ord, if◌then◌else◌, ◌==◌, sort_on, length,
}
use hashgraph.Dict.{Dict, get, put, has}
use hashgraph.Models.{Time, or_default}
use hashgraph.Storage.Peers.{
  PeerRow, PeerInfo, PeerTable, PeerChange, info_of, normalize_node_role, normalize_approval_status,
  ensure_peer, update_peer, delete_peer,
}

pub record Peers : Type 0 where
  pub registry : PeerTable
  pub active : Dict String PeerInfo

-- What the operations read of the node's configuration, and the time.
pub record Setting : Type 0 where
  pub self_address : String
  pub node_id : String
  pub auto_approve : Bool
  pub now : Time

-- is_self first, then by address
abbrev pub list_key : PeerInfo → ℕ × String
list_key peer = (if peer.is_self then 0 else 1, peer.address)

module _ (lower : String → String) where
  unfoldable pub listed : String × PeerRow → PeerInfo
  unfolding normalize_node_role normalize_approval_status
  listed (address, row) = info_of address (record row {
    source = or_default row.source "runtime";
    role = normalize_node_role lower (or_default row.role "node");
    approval_status = normalize_approval_status lower row.approval_status;
  })

  unfoldable pub list_peers : PeerTable → List PeerInfo
  unfolding listed
  list_peers registry = sort_on list_key (map listed registry)

  abbrev pub is_active : PeerInfo → Bool
  is_active peer = peer.row.enabled && (not peer.is_self && peer.row.approval_status == "approved")

  -- The loop over the registry.
  unfoldable pub collect : List PeerInfo → Dict String PeerInfo → Dict String PeerInfo
  collect [] active = active
  collect (peer ∷ peers) active =
      collect peers (if is_active peer then put peer.address peer active else active)

  unfoldable pub reload : PeerTable → Peers
  unfolding list_peers collect
  reload registry = record { registry = registry; active = collect (list_peers registry) [] }

  -- The registry after `storage.update_peer`, which a missing peer leaves as it is.
  abbrev pub after_update : PeerTable → Option (PeerInfo × PeerTable) → PeerTable
  after_update registry none = registry
  after_update registry (some (peer, table)) = table

  abbrev pub unchanged : PeerChange
  unchanged = record {
    enabled = none;
    note = none;
    last_seen = none;
    healthy = none;
    role = none;
    node_id = none;
    approval_status = none;
  }

  unfoldable pub set_approval : String → String → Peers → Peers
  unfolding reload
  set_approval status address node = reload (
      after_update node.registry (
        update_peer lower address (record unchanged { approval_status = some status })
          node.registry))

  unfoldable pub approve_peer : String → Peers → Peers
  unfolding set_approval
  approve_peer = set_approval "approved"

  unfoldable pub reject_peer : String → Peers → Peers
  unfolding set_approval
  reject_peer = set_approval "rejected"

  -- The peer that `storage.update_peer` returns goes among the active ones if it is approved.
  unfoldable pub activate : String → String → Peers → Option (PeerInfo × PeerTable) → Peers
  activate address source node none = node
  activate address source node (some (peer, table)) = record {
    registry = table;
    active =
        if peer.row.approval_status == "approved"
        then put address (record peer { row = record peer.row { source = source } }) node.active
        else node.active;
  }

  module _ (s : Setting) where
    -- The default of `approval_status`.
    abbrev pub default_status : String → Option String → String
    default_status source none =
        if source == "mdns" || source == "k8s" then "pending" else "approved"
    default_status source (some status) = status

    -- The arguments of the two calls of a registration.
    abbrev pub offer_of : String → String → String → String → String → PeerRow
    offer_of note source role node_id status = record {
      node_id = node_id;
      last_seen = some s.now;
      healthy = true;
      enabled = true;
      note = note;
      source = source;
      role = role;
      approval_status = status;
    }

    abbrev pub change_of : String → String → String → String → PeerChange
    change_of note role node_id status = record {
      enabled = some true;
      note = some note;
      last_seen = some s.now;
      healthy = some true;
      role = some role;
      node_id = some node_id;
      approval_status = some status;
    }

    unfoldable pub register_peer :
        String → String → String → String → String → Option String → Peers → Peers
    unfolding activate
    register_peer address note source role node_id approval_status node =
        let status = default_status source approval_status in
        let (ensured, table) =
          ensure_peer lower address (offer_of note source role node_id status) node.registry in
        activate address source (record node { registry = table })
          (update_peer lower address (change_of note role node_id status) table)

    unfoldable pub on_discovered_peer : String → String → String → Peers → Peers
    unfolding register_peer
    on_discovered_peer address node_id source node =
        if has address node.registry
        then node
        else register_peer address "" source "node" node_id
            (some (if s.auto_approve then "approved" else "pending")) node

    unfoldable pub change_peer : String → PeerChange → Peers → Peers
    unfolding reload
    change_peer address change node = reload (
        after_update node.registry (
          update_peer lower address
            (if address == s.self_address
              then record change {
                enabled = some true;
                node_id = some s.node_id;
                last_seen = some s.now;
                healthy = some true;
              }
              else record change { last_seen = none; healthy = none })
            node.registry))

    unfoldable pub remove_peer : String → Peers → Peers
    unfolding reload
    remove_peer address node =
        if address == s.self_address then node else reload (delete_peer address node.registry)

unfoldable pub quorum : Peers → ℕ
quorum node = max 1 ((length node.active + 1) / 2 + 1)
