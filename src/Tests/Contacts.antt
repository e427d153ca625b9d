-- ===== src/Tests/Contacts.antt =====
-- A run of the theorem on what is heard of peers.
use hashgraph.Prelude.{◌≡◌, refl, String, true, false, none, some, List, [], ◌∷◌, string_eq}
use hashgraph.Dict.{get}
use hashgraph.Storage.Peers.{PeerRow, PeerTable}
use hashgraph.Storage.Peers.Decisions.{Report, contact, offer, hear, decision_kept}

abbrev rejected_row : PeerRow
rejected_row = record {
  node_id = "b";
  last_seen = none;
  healthy = false;
  enabled = false;
  note = "";
  source = "runtime";
  role = "node";
  approval_status = "rejected";
}

abbrev table : PeerTable
table = ("10.0.0.2:8000", rejected_row) ∷ []

abbrev plain : String → String
plain s = s

abbrev reports : List Report
reports =
    contact "10.0.0.2:8000" 9 true
    ∷ offer "10.0.0.2:8000" (record rejected_row { approval_status = "approved"; enabled = true })
    ∷ []

decision_kept_example :
    (new : PeerRow) × (get "10.0.0.2:8000" (hear plain table reports) ≡ some new)
    × (new.approval_status ≡ "rejected")
    × (new.enabled ≡ false)
unfolding get
decision_kept_example =
    decision_kept plain (record { pending = refl; approved = refl; rejected = refl }) reports table
      "10.0.0.2:8000" rejected_row refl refl
