-- ===== src/Node/Members.antt =====
-- mdrj/node.py `_membership_entries_from_registry`: the members of the consensus, as the
-- registry of peers lists them.
use hashgraph.Prelude.{
  ◌≡◌, refl, ◌∙◌, ap, String, Bool, true, false, ◌&&◌, ◌||◌, not, List, [], ◌∷◌, ◌++◌, map, arith,
  string_eq, nat_ord, text_ord, pair_ord, if◌then◌else◌, ◌==◌, sort_on, Bool-cases, inl, inr,
  contains, nodup, strip, contains-append, contains-sort_on, nodup-sort_on,
}
use hashgraph.Consensus.Membership.{MembershipEntry}
use hashgraph.Storage.Peers.{PeerInfo, PeerTable, normalize_node_role}
use hashgraph.Node.Peers.{list_peers}
use hashgraph.Storage.Insert.Hops.{nodup-snoc}

abbrev pub entry_of : PeerInfo → MembershipEntry
entry_of peer = record {
  node_id = strip peer.row.node_id;
  address = peer.address;
  role = peer.row.role;
  is_self = peer.is_self;
}

-- A disabled peer other than the node itself is passed over, and one without an id.
abbrev pub may_join : PeerInfo → Bool
may_join peer = (peer.row.enabled || peer.is_self) && not (strip peer.row.node_id == "")

-- The loop over the peers; `seen` holds the ids of the entries.
unfoldable pub entries_from : List String → List PeerInfo → List MembershipEntry
entries_from seen [] = []
entries_from seen (peer ∷ peers) =
    let node_id = strip peer.row.node_id in
    let added = entries_from (node_id ∷ seen) peers in
    let rest = entries_from seen peers in
    if may_join peer && not (contains seen node_id) then entry_of peer ∷ added else rest

abbrev pub node_ids : List MembershipEntry → List String
node_ids entries = map (λ entry. entry.node_id) entries

-- The role of the first peer that is the node itself, else that of the profile.
unfoldable pub role_among : (String → String) → String → List PeerInfo → String
unfolding normalize_node_role
role_among lower profile_role [] = normalize_node_role lower profile_role
role_among lower profile_role (peer ∷ peers) =
    let rest = role_among lower profile_role peers in
    if peer.is_self then normalize_node_role lower peer.row.role else rest

module _ (lower : String → String) (self self_address profile_role : String) where
  abbrev current_role : PeerTable → String
  current_role registry = role_among lower profile_role (list_peers lower registry)

  unfoldable pub membership_entries_from_registry : PeerTable → List MembershipEntry
  unfolding entries_from role_among
  membership_entries_from_registry registry =
      let entries = entries_from [] (list_peers lower registry) in
      let own : MembershipEntry = record {
        node_id = self;
        address = self_address;
        role = current_role registry;
        is_self = true;
      } in
      sort_on (λ (entry : MembershipEntry). entry.node_id)
        (if contains (node_ids entries) self then entries else entries ++ own ∷ [])

-- Some of the peers may join under the id.
unfoldable pub offers : String → List PeerInfo → Bool
offers k [] = false
offers k (peer ∷ peers) = (may_join peer && strip peer.row.node_id == k) || offers k peers

contains-entries_from :
    (k : String) (seen : List String) (peers : List PeerInfo)
    → contains (node_ids (entries_from seen peers)) k ≡ (not (contains seen k) && offers k peers)
unfolding entries_from contains offers
contains-entries_from k seen [] = ground arith
contains-entries_from k seen (peer ∷ peers) = ground (
  arith,
  contains-entries_from k seen peers,
  contains-entries_from k (strip peer.row.node_id ∷ seen) peers,
  string_eq.beq_iff (strip peer.row.node_id) k,
)

nodup-entries_from :
    (seen : List String) (peers : List PeerInfo) → nodup (node_ids (entries_from seen peers)) ≡ true
unfolding entries_from contains nodup
nodup-entries_from seen [] = refl
nodup-entries_from seen (peer ∷ peers) = ground (
  arith,
  nodup-entries_from seen peers,
  nodup-entries_from (strip peer.row.node_id ∷ seen) peers,
  contains-entries_from (strip peer.row.node_id) (strip peer.row.node_id ∷ seen) peers,
  string_eq.beq_iff (strip peer.row.node_id) (strip peer.row.node_id),
)

module _ (lower : String → String) (self self_address profile_role : String)
    (registry : PeerTable) where
  abbrev from_peers : List MembershipEntry
  from_peers = entries_from [] (list_peers lower registry)

  abbrev members : List MembershipEntry
  members = membership_entries_from_registry lower self self_address profile_role registry

  node_ids-append :
      (xs ys : List MembershipEntry) → node_ids (xs ++ ys) ≡ node_ids xs ++ node_ids ys
  node_ids-append [] ys = refl
  node_ids-append (x ∷ xs) ys = ap (◌∷◌ x.node_id) (node_ids-append xs ys)

  -- The members are the node itself and the ids of the peers that are enabled, whatever
  -- their approval status, each once.
  pub members_lem :
      (nodup (node_ids members) ≡ true)
      × ((k : String)
          → contains (node_ids members) k ≡ (self == k || offers k (list_peers lower registry)))
  unfolding membership_entries_from_registry contains
  members_lem = elim (Bool-cases (contains (node_ids from_peers) self)) [
    | inl there ↦ rw there (
      nodup-sort_on (λ (entry : MembershipEntry). entry.node_id) (λ entry. entry.node_id) from_peers
          ∙ nodup-entries_from [] (list_peers lower registry),
      λ k.
          contains-sort_on (λ (entry : MembershipEntry). entry.node_id) (λ entry. entry.node_id) k
            from_peers
          ∙ ground (
            arith,
            there,
            contains-entries_from k [] (list_peers lower registry),
            string_eq.beq_iff self k,
          ),
    )
    | inr missing ↦ rw missing (
      nodup-sort_on (λ (entry : MembershipEntry). entry.node_id) (λ entry. entry.node_id)
            (from_peers ++ _ ∷ [])
          ∙ ap nodup (node_ids-append from_peers _)
          ∙ nodup-snoc (node_ids from_peers) self
              (nodup-entries_from [] (list_peers lower registry)) missing,
      λ k.
          contains-sort_on (λ (entry : MembershipEntry). entry.node_id) (λ entry. entry.node_id) k
            (from_peers ++ _ ∷ [])
          ∙ ap (λ l. contains l k) (node_ids-append from_peers _)
          ∙ contains-append (node_ids from_peers) (self ∷ []) k
          ∙ ground (arith, contains-entries_from k [] (list_peers lower registry)),
    )
  ]
