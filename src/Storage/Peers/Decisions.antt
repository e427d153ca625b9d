-- ===== src/Storage/Peers/Decisions.antt =====
-- What the operations on peers leave of an operator's decision.
use hashgraph.Prelude.{
  ◌≡◌, ◌⊎◌, inl, inr, refl, sym, ◌∙◌, ap, subst, String, Bool, true, ◌||◌, Option, some, List, [],
  ◌∷◌, arith, string_eq, ◌==◌, strip, Bool-cases,
}
use hashgraph.Dict.{get, put, get-put}
use hashgraph.Models.{Time}
use hashgraph.Storage.Peers.{
  PeerRow, PeerTable, normalize_approval_status, contacted, upsert_peer, ensured, ensure_peer,
}

-- What the code relies on of str.lower: words in lower case stay as they are.
pub record KeepsLower (lower : String → String) : Type 0 where
  pub pending : lower "pending" ≡ "pending"
  pub approved : lower "approved" ≡ "approved"
  pub rejected : lower "rejected" ≡ "rejected"

abbrev pub is_status : String → Bool
is_status s = s == "pending" || (s == "approved" || s == "rejected")

is_status-cases :
    (s : String) → is_status s ≡ true → ("pending" ≡ s) ⊎ (("approved" ≡ s) ⊎ ("rejected" ≡ s))
is_status-cases s h = elim (Bool-cases (s == "pending")) [
  | inl e ↦ inl (sym ((string_eq.beq_iff s "pending").0 e))
  | inr e ↦ elim (Bool-cases (s == "approved")) [
    | inl f ↦ inr (inl (sym ((string_eq.beq_iff s "approved").0 f)))
    | inr f ↦ inr (inr (sym ((string_eq.beq_iff s "rejected").0 (ground (arith, h)))))
  ]
]

-- A row that is written from the row there was keeps the decision on every peer, if the writing does.
rewritten :
    (at : String) (write : Option PeerRow → PeerRow) (table : PeerTable) (address : String)
    (row : PeerRow)
    → get address table ≡ some row
    → (write (some row)).approval_status ≡ row.approval_status
    → (write (some row)).enabled ≡ row.enabled
    → (new : PeerRow) × (get address (put at (write (get at table)) table) ≡ some new)
      × (new.approval_status ≡ row.approval_status)
      × (new.enabled ≡ row.enabled)
rewritten at write table address row g a e = elim (Bool-cases (at == address)) [
  | inl same ↦
      let here : get at table ≡ some row =
        subst (λ k. get k table ≡ some row) (sym ((string_eq.beq_iff at address).0 same)) g in
      (
        write (some row),
        ground (arith, get-put at address (write (get at table)) table, here),
        a,
        e,
      )
  | inr other ↦ (row, ground (arith, get-put at address (write (get at table)) table), refl, refl)
]

-- What is heard of peers: a contact, or an offer with the arguments of `ensure_peer`.
pub data Report : Type 0 where
  contact : String → Time → Bool → Report
  offer : String → PeerRow → Report

module _ (lower : String → String) where
  -- The reports that come in, one after the other.
  unfoldable pub hear : PeerTable → List Report → PeerTable
  unfolding upsert_peer ensure_peer
  hear table [] = table
  hear table (contact address last_seen healthy ∷ reports) =
      hear (upsert_peer address last_seen healthy table) reports
  hear table (offer address offered ∷ reports) =
      hear (ensure_peer lower address offered table).1 reports

  module _ (keeps : KeepsLower lower) where
    normalize_status : (s : String) → is_status s ≡ true → normalize_approval_status lower s ≡ s
    unfolding normalize_approval_status strip
    normalize_status s h = elim (is_status-cases s h) [
      | inl e ↦ subst (λ t. normalize_approval_status lower t ≡ t) e (rw keeps.pending refl)
      | inr (inl e) ↦ subst (λ t. normalize_approval_status lower t ≡ t) e (rw keeps.approved refl)
      | inr (inr e) ↦ subst (λ t. normalize_approval_status lower t ≡ t) e (rw keeps.rejected refl)
    ]

    -- Whatever is heard of a peer, through contacts and offers of peers in any number and order, the
    -- stored decision on it stays: its approval status and whether it is enabled.
    pub decision_kept :
        (reports : List Report) (table : PeerTable) (address : String) (row : PeerRow)
        → get address table ≡ some row
        → is_status row.approval_status ≡ true
        → (new : PeerRow) × (get address (hear table reports) ≡ some new)
          × (new.approval_status ≡ row.approval_status)
          × (new.enabled ≡ row.enabled)
    unfolding hear upsert_peer ensure_peer contacted ensured
    decision_kept [] table address row g h = (row, g, refl, refl)
    decision_kept (contact at last_seen healthy ∷ reports) table address row g h =
        let (mid, there, a, e) =
          rewritten at (contacted last_seen healthy) table address row g refl refl in
        let still = ap is_status a ∙ h in
        let (new, there', a', e') =
          decision_kept reports (upsert_peer at last_seen healthy table) address mid there still in
        (new, there', a' ∙ a, e' ∙ e)
    decision_kept (offer at offered ∷ reports) table address row g h =
        let (mid, there, a, e) =
          rewritten at (ensured lower offered) table address row g
            (normalize_status row.approval_status h) refl in
        let still = ap is_status a ∙ h in
        let (new, there', a', e') =
          decision_kept reports (ensure_peer lower at offered table).1 address mid there still in
        (new, there', a' ∙ a, e' ∙ e)
