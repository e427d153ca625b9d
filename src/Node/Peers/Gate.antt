-- ===== src/Node/Peers/Gate.antt =====
-- When a registry and its active peers agree, and that a reload makes them agree.
use hashgraph.Prelude.{
  ◌≡◌, String, Bool, true, false, ◌&&◌, Option, none, some, List, [], ◌∷◌, map, string_eq, arith,
  nat_ord, text_ord, pair_ord, ◌==◌, nodup, All, All-sort_on, Bool-cases, inl, inr,
}
use hashgraph.Dict.{Dict, get, keys}
use hashgraph.Storage.Peers.{PeerRow, PeerInfo, PeerTable, normalize_approval_status}
use hashgraph.Node.Peers.{Peers, list_key, listed, list_peers, is_active, collect, reload}
use hashgraph.Node.Peers.Entries.{entries-get, All-put}

module _ (lower : String → String) where
  abbrev pub is_good : Option PeerRow → Bool
  is_good none = false
  is_good (some row) =
      row.enabled && normalize_approval_status lower row.approval_status == "approved"

  -- The registry has the peer, enabled and approved.
  unfoldable pub is_approved : PeerTable → String → Bool
  is_approved registry address = is_good (get address registry)

  -- Each address is registered once, and the active peers are approved.
  pub record IsGated (node : Peers) : Type 0 where
    pub registered_once : nodup (keys node.registry) ≡ true
    pub active_approved : All (λ e. is_approved node.registry e.0 ≡ true) node.active

  pub collect-approved :
      (g : String → Bool) (peers : List PeerInfo) (active : Dict String PeerInfo)
      → All (λ p. is_active lower p ≡ true → g p.address ≡ true) peers
      → All (λ e. g e.0 ≡ true) active
      → All (λ e. g e.0 ≡ true) (collect lower peers active)
  unfolding collect
  collect-approved g [] active h a = a
  collect-approved g (p ∷ peers) active h a = elim (Bool-cases (is_active lower p)) [
    | inl q ↦ rw q (collect-approved g peers _ h.1 (All-put g p.address p active (h.0 q) a))
    | inr q ↦ rw q (collect-approved g peers active h.1 a)
  ]

  listed-approved :
      (registry es : PeerTable)
      → All (λ e. get e.0 registry ≡ some e.1) es
      → All
          (λ p. is_active lower p ≡ true → is_approved registry p.address ≡ true)
          (map (listed lower) es)
  unfolding listed is_approved
  listed-approved registry [] a = tt
  listed-approved registry (e ∷ es) a =
      (λ h. rw a.0 (ground arith), listed-approved registry es a.1)

  pub reload-IsGated :
      (registry : PeerTable) → nodup (keys registry) ≡ true → IsGated (reload lower registry)
  unfolding reload list_peers
  reload-IsGated registry h = record {
    registered_once = h;
    active_approved =
        collect-approved (is_approved registry) (list_peers lower registry) []
          (All-sort_on list_key
            (λ p. is_active lower p ≡ true → is_approved registry p.address ≡ true)
            (map (listed lower) registry)
            (listed-approved registry registry (entries-get registry h)))
          tt;
  }
