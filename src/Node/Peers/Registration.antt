-- ===== src/Node/Peers/Registration.antt =====
-- What the writes of the registry keep: a change of a row, and the two writes of a registration.
use hashgraph.Prelude.{
  ◌≡◌, refl, sym, String, Bool, true, false, ◌||◌, not, Option, none, some, string_eq, arith,
  nat_ord, text_ord, pair_ord, if◌then◌else◌, ◌==◌, nodup, All, Bool-cases, inl, inr, beq_self,
  strip, subst,
}
use hashgraph.Dict.{get, put, has, keys, get-put, get-put_self, nodup-keys-put}
use hashgraph.Storage.Peers.{
  PeerRow, PeerTable, PeerChange, info_of, normalize_approval_status, changed, update_peer,
}
use hashgraph.Storage.Peers.Decisions.{KeepsLower}
use hashgraph.Node.Peers.{Peers, after_update, set_approval, activate}
use hashgraph.Node.Peers.Entries.{All-put, All-mono}
use hashgraph.Node.Peers.Gate.{is_approved, IsGated, reload-IsGated}

pub or_true : (b : Bool) → (b || true) ≡ true
or_true b = ground arith

pub contradiction : (b c : Bool) → (b || not c) ≡ true → b ≡ false → c ≡ true → ⊥
contradiction b c h k l = ground arith

module _ (lower : String → String) where
  pub after_update-once :
      (registry : PeerTable) (address : String) (change : PeerChange)
      → nodup (keys registry) ≡ true
      → nodup (keys (after_update lower registry (update_peer lower address change registry)))
        ≡ true
  unfolding update_peer
  after_update-once registry address change h = go (get address registry)
    where
      go :
          (found : Option PeerRow)
          → nodup (
              keys (
                after_update lower registry (elim found [
                  | none ↦ none
                  | some row ↦ some (
                    info_of address (changed lower change row),
                    put address (changed lower change row) registry,
                  )
                ])))
            ≡ true
      go none = h
      go (some row) = nodup-keys-put address _ registry h

  pub set_approval-IsGated :
      (status address : String) (node : Peers)
      → IsGated lower node
      → IsGated lower (set_approval lower status address node)
  unfolding set_approval
  set_approval-IsGated status address node g =
      reload-IsGated lower _ (after_update-once node.registry address _ g.registered_once)

  pub update-written :
      (address : String) (request : PeerChange) (row : PeerRow) (registry : PeerTable)
      → update_peer lower address request (put address row registry)
        ≡ some (
          info_of address (changed lower request row),
          put address (changed lower request row) (put address row registry),
        )
  unfolding update_peer
  update-written address request row registry =
      rw (update_peer, get-put_self address row registry) refl

  pub approved_word : KeepsLower lower → normalize_approval_status lower "approved" ≡ "approved"
  unfolding normalize_approval_status strip
  approved_word keeps = rw keeps.approved refl

  pub is_approved-has :
      (registry : PeerTable) (k : String)
      → is_approved lower registry k ≡ true
      → has k registry ≡ true
  unfolding is_approved has
  is_approved-has registry k h = ground arith

  -- A peer that is written twice and becomes active if it is approved.
  pub activate-IsGated :
      (address source : String) (row next : PeerRow) (node : Peers)
      → next.enabled ≡ true
      → ((next.approval_status == "approved") || not (has address node.registry)) ≡ true
      → KeepsLower lower
      → IsGated lower node
      → IsGated lower (
          activate lower address source
            (record node { registry = put address row node.registry })
            (some (info_of address next, put address next (put address row node.registry))))
  unfolding activate is_approved
  activate-IsGated address source row next node e h keeps g = record {
    registered_once =
        nodup-keys-put address next _ (nodup-keys-put address row node.registry g.registered_once);
    active_approved = go (next.approval_status == "approved") refl;
  }
    where
      after : PeerTable
      after = put address next (put address row node.registry)

      at : (k : String) → get k after ≡ (if address == k then some next else get k node.registry)
      at k = ground (
        arith,
        get-put address k next (put address row node.registry),
        get-put address k row node.registry,
      )

      good : (next.approval_status == "approved") ≡ true → is_approved lower after address ≡ true
      good q =
          rw
            (
              is_approved,
              at address,
              beq_self address,
              e,
              (string_eq.beq_iff next.approval_status "approved").0 q,
              approved_word keeps,
            )
            refl

      kept :
          (k : String)
          → is_approved lower node.registry k ≡ true
          → ((address == k) ≡ true → is_approved lower after address ≡ true)
          → is_approved lower after k ≡ true
      kept k a f = elim (Bool-cases (address == k)) [
        | inl q ↦
            subst (λ z. is_approved lower after z ≡ true) ((string_eq.beq_iff address k).0 q) (f q)
        | inr q ↦ rw (is_approved, at k, q) a
      ]

      absent :
          (next.approval_status == "approved") ≡ false
          → (k : String) → is_approved lower node.registry k ≡ true
          → (address == k) ≡ true
          → is_approved lower after address ≡ true
      absent q k a same =
          let here =
            subst (λ z. is_approved lower node.registry z ≡ true)
              (sym ((string_eq.beq_iff address k).0 same)) a in
          absurd (contradiction _ _ h q (is_approved-has node.registry address here))

      go :
          (b : Bool)
          → (next.approval_status == "approved") ≡ b
          → All
              (λ e. is_approved lower after e.0 ≡ true)
              (if b
                then put address
                    (record (info_of address next) { row = record next { source = source } })
                    node.active
                else node.active)
      go true q = All-put (is_approved lower after) address _ node.active (good q) (
          All-mono (is_approved lower node.registry) (is_approved lower after) node.active
            (λ k a. kept k a (λ same. good q)) g.active_approved)
      go false q =
          All-mono (is_approved lower node.registry) (is_approved lower after) node.active
            (λ k a. kept k a (λ same. absent q k a same)) g.active_approved
