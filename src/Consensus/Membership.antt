-- ===== src/Consensus/Membership.antt =====
-- The members that consensus counts, and the supermajority threshold.
use hashgraph.Prelude.{
  ℕ, ◌+◌, ◌*◌, ◌/◌, ◌≤◌, ◌<◌, max, ◌≡◌, refl, String, Bool, true, false, ◌||◌, ◌&&◌, List, [], ◌∷◌,
  ◌++◌, arith, ◌==◌, string_eq, if◌then◌else◌, contains, nodup, strip, contains-append,
}

pub record MembershipEntry : Type 0 where
  pub node_id : String
  pub address : String
  pub role : String
  pub is_self : Bool

-- One entry: an empty id and an id that is there are passed over.
abbrev add_member : List String → String → List String
add_member seen node_id =
    if node_id == "" || contains seen node_id then seen else seen ++ node_id ∷ []

-- The loop: `seen` and `normalized` hold the same ids.
normalize_from : List String → List MembershipEntry → List String
normalize_from seen [] = seen
normalize_from seen (entry ∷ rest) = normalize_from (add_member seen (strip entry.node_id)) rest

unfoldable pub normalize_membership : String → List MembershipEntry → List String
unfolding normalize_from
normalize_membership self membership =
    let normalized = normalize_from [] membership in
    if contains normalized self then normalized else normalized ++ self ∷ []

unfoldable pub supermajority_threshold : ℕ → ℕ
supermajority_threshold members = max 1 (2 * members / 3 + 1)

nodup_snoc :
    (xs : List String) (a : String)
    → nodup xs ≡ true
    → contains xs a ≡ false
    → nodup (xs ++ a ∷ []) ≡ true
unfolding nodup contains
nodup_snoc [] a h k = refl
nodup_snoc (x ∷ xs) a h k = ground (
  arith,
  nodup_snoc xs a,
  contains-append xs (a ∷ []) x,
  string_eq.beq_iff x a,
  string_eq.beq_iff a x,
)

normalize_from-nodup :
    (seen : List String) (es : List MembershipEntry)
    → nodup seen ≡ true
    → nodup (normalize_from seen es) ≡ true
unfolding normalize_from
normalize_from-nodup seen [] h = h
normalize_from-nodup seen (entry ∷ rest) h =
    normalize_from-nodup (add_member seen (strip entry.node_id)) rest
      (ground (arith, nodup_snoc seen (strip entry.node_id)))

-- The entry names the node `k`.
abbrev pub names : String → List MembershipEntry → Bool
names k [] = false
names k (entry ∷ rest) = (strip entry.node_id == k) || names k rest

contains-add_member :
    (seen : List String) (node_id k : String)
    → contains (add_member seen node_id) k
      ≡ (contains seen k || (node_id == k && (if k == "" then false else true)))
unfolding contains
contains-add_member seen node_id k = ground (
  arith,
  contains-append seen (node_id ∷ []) k,
  string_eq.beq_iff node_id k,
  string_eq.beq_iff node_id "",
  string_eq.beq_iff k "",
)

contains-normalize_from :
    (seen : List String) (es : List MembershipEntry) (k : String)
    → contains (normalize_from seen es) k
      ≡ (contains seen k || (names k es && (if k == "" then false else true)))
unfolding normalize_from
contains-normalize_from seen [] k = ground arith
contains-normalize_from seen (entry ∷ rest) k =
    let node_id = strip entry.node_id in
    ground (
      arith,
      contains-normalize_from (add_member seen node_id) rest k,
      contains-add_member seen node_id k,
    )

-- The members are distinct, and they are this node and the non-empty ids of the entries.
pub normalize_membership_lem :
    (self : String) (es : List MembershipEntry)
    → (nodup (normalize_membership self es) ≡ true)
      × ((k : String)
          → contains (normalize_membership self es) k
            ≡ ((self == k) || (names k es && (if k == "" then false else true))))
unfolding normalize_membership contains nodup
normalize_membership_lem self es = (
  ground (arith, normalize_from-nodup [] es refl, nodup_snoc (normalize_from [] es) self),
  λ k. ground (
    arith,
    contains-normalize_from [] es k,
    contains-normalize_from [] es self,
    contains-append (normalize_from [] es) (self ∷ []) k,
    string_eq.beq_iff self k,
  ),
)

-- More than two thirds of the members, and never more than all of them.
pub supermajority_threshold_bounds :
    (n : ℕ)
    → 0 < n
    → (2 * n < 3 * supermajority_threshold n)
      × (3 * supermajority_threshold n ≤ 2 * n + 3)
      × (supermajority_threshold n ≤ n)
unfolding supermajority_threshold
supermajority_threshold_bounds n h = (omega arith, omega arith, omega arith)
