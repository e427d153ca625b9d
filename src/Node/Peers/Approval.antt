-- ===== src/Node/Peers/Approval.antt =====
-- The active peers are approved and enabled in the registry, after every sequence of requests.
use hashgraph.Prelude.{
  ◌≡◌, refl, String, true, ◌||◌, not, Option, none, some, List, [], ◌∷◌, string_eq, nat_ord,
  text_ord, pair_ord, if◌then◌else◌, ◌==◌, nodup, Bool-cases, inl, inr,
}
use hashgraph.Dict.{get, has, keys}
use hashgraph.Storage.Peers.{
  PeerTable, PeerChange, normalize_approval_status, ensured, changed, ensure_peer, delete_peer,
}
use hashgraph.Storage.Peers.Decisions.{KeepsLower}
use hashgraph.Node.Peers.{
  Peers, Setting, default_status, offer_of, change_of, reload, approve_peer, reject_peer,
  register_peer, on_discovered_peer, change_peer, remove_peer,
}
use hashgraph.Node.Peers.Entries.{nodup-keys-remove}
use hashgraph.Node.Peers.Gate.{IsGated, reload-IsGated}
use hashgraph.Node.Peers.Registration.{
  or_true, after_update-once, set_approval-IsGated, update-written, approved_word, activate-IsGated,
}

-- What the HTTP API, the discovery and the operator ask of the peers.
pub data PeerRequest : Type 0 where
  registered : String → String → String → String → PeerRequest
  discovered : String → String → String → PeerRequest
  approved rejected dropped : String → PeerRequest
  edited : String → PeerChange → PeerRequest

module _ (lower : String → String) where
  module _ (s : Setting) where
    change_peer-IsGated :
        (address : String) (change : PeerChange) (node : Peers)
        → IsGated lower node
        → IsGated lower (change_peer lower s address change node)
    unfolding change_peer
    change_peer-IsGated address change node g =
        reload-IsGated lower _ (after_update-once lower node.registry address _ g.registered_once)

    remove_peer-IsGated :
        (address : String) (node : Peers)
        → IsGated lower node
        → IsGated lower (remove_peer lower s address node)
    unfolding remove_peer delete_peer
    remove_peer-IsGated address node g = elim (Bool-cases (address == s.self_address)) [
      | inl q ↦ rw q g
      | inr q ↦
          rw q (reload-IsGated lower _ (nodup-keys-remove address node.registry g.registered_once))
    ]

    -- A registration that is approved, or of an address that is new.
    register_peer-IsGated :
        KeepsLower lower
        → (address note source role node_id : String) (approval_status : Option String)
          (node : Peers)
        → ((normalize_approval_status lower (default_status lower s source approval_status)
              == "approved")
            || not (has address node.registry))
          ≡ true
        → IsGated lower node
        → IsGated lower
            (register_peer lower s address note source role node_id approval_status node)
    unfolding register_peer ensure_peer changed
    register_peer-IsGated keeps address note source role node_id approval_status node h g =
        let status = default_status lower s source approval_status in
        let row =
          ensured lower (offer_of lower s note source role node_id status)
            (get address node.registry) in
        let request = change_of lower s note role node_id status in
        rw (update-written lower address request row node.registry) (
          activate-IsGated lower address source row (changed lower request row) node refl h keeps g)

    on_discovered_peer-IsGated :
        KeepsLower lower
        → (address node_id source : String) (node : Peers) → IsGated lower node
        → IsGated lower (on_discovered_peer lower s address node_id source node)
    unfolding on_discovered_peer
    on_discovered_peer-IsGated keeps address node_id source node g =
        elim (Bool-cases (has address node.registry)) [
          | inl q ↦ rw q g
          | inr q ↦ rw q (
              register_peer-IsGated keeps address "" source "node" node_id
                (some (if s.auto_approve then "approved" else "pending")) node (rw q (or_true _)) g)
        ]

    -- One request. The API registers with the source "ui".
    unfoldable pub ask : PeerRequest → Peers → Peers
    ask (registered address note role node_id) node =
        register_peer lower s address note "ui" role node_id none node
    ask (discovered address node_id source) node =
        on_discovered_peer lower s address node_id source node
    ask (approved address) node = approve_peer lower address node
    ask (rejected address) node = reject_peer lower address node
    ask (dropped address) node = remove_peer lower s address node
    ask (edited address request) node = change_peer lower s address request node

    ask-IsGated :
        KeepsLower lower
        → (request : PeerRequest) (node : Peers) → IsGated lower node
        → IsGated lower (ask request node)
    unfolding ask approve_peer reject_peer
    ask-IsGated keeps (registered address note role node_id) node g =
        register_peer-IsGated keeps address note "ui" role node_id none node
          (rw (approved_word lower keeps) refl) g
    ask-IsGated keeps (discovered address node_id source) node g =
        on_discovered_peer-IsGated keeps address node_id source node g
    ask-IsGated keeps (approved address) node g =
        set_approval-IsGated lower "approved" address node g
    ask-IsGated keeps (rejected address) node g =
        set_approval-IsGated lower "rejected" address node g
    ask-IsGated keeps (dropped address) node g = remove_peer-IsGated address node g
    ask-IsGated keeps (edited address request) node g = change_peer-IsGated address request node g

    unfoldable pub ask_all : List PeerRequest → Peers → Peers
    unfolding ask
    ask_all [] node = node
    ask_all (request ∷ requests) node = ask_all requests (ask request node)

    -- From a registry with distinct addresses, whatever is asked of the peers, every active peer is
    -- enabled and approved in the registry.
    pub active_peers_are_approved :
        KeepsLower lower
        → (registry : PeerTable) (requests : List PeerRequest) → nodup (keys registry) ≡ true
        → IsGated lower (ask_all requests (reload lower registry))
    unfolding ask_all
    active_peers_are_approved keeps registry requests h =
        go requests (reload lower registry) (reload-IsGated lower registry h)
      where
        go :
            (requests : List PeerRequest) (node : Peers)
            → IsGated lower node
            → IsGated lower (ask_all requests node)
        go [] node g = g
        go (request ∷ requests) node g =
            go requests (ask request node) (ask-IsGated keeps request node g)
