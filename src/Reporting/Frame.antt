-- ===== src/Reporting/Frame.antt =====
-- A report touches no table but its own.
use dn42_utils.Base.{String, ◌≡◌, refl, [], Option, none, some, Bool-cases, inl, inr}
use dn42_utils.Json.{Fields}
use dn42_utils.Database.Schema.{ManagedNode, NodeReport, Tables}
use dn42_utils.Database.Connection.{Connection, execute}
use dn42_utils.Database.Connection.Atomic.{IsClosed}
use dn42_utils.Database.Connection.Keeps.{Keeps, Keeps-execute, keeps_rules}
use dn42_utils.Database.Peers.{has_node}
use dn42_utils.Managed.Nodes
use dn42_utils.Managed.Reports
use dn42_utils.Managed.Reports.{insert_report, add_row, read_back, or_missing}
use dn42_utils.Reporting.{submit_report, require_node}

-- The tables without the reports.
abbrev pub business : Tables → Tables
business t = record t { reports = []; reports_seq = 0 }

module _ (b : Tables) where
  abbrev Same : Tables → Type 0
  Same t = business t ≡ b

  insert_report-Same :
      (now node_id kind : String) (payload : Fields)
      → Keeps Same (execute (insert_report now node_id kind payload))
  insert_report-Same now node_id kind payload = Keeps-execute _ λ t h.
      elim (Bool-cases (has_node node_id t)) [
        | inl known ↦ rw known h
        | inr unknown ↦ rw unknown tt
      ]

  or_missing-Same : (message : String) (o : Option NodeReport) → Keeps Same (or_missing message o)
  or_missing-Same message none = search keeps_rules
  or_missing-Same message (some r) = search keeps_rules

  require_node-Same : (o : Option ManagedNode) → Keeps Same (require_node o)
  require_node-Same none = search keeps_rules
  require_node-Same (some n) = search keeps_rules

  add-Same :
      (now node_id kind : String) (payload : Fields)
      → Keeps Same (Reports.add now node_id kind payload)
  unfolding Reports.add Reports.get add_row read_back
  add-Same now node_id kind payload =
      search (keeps_rules, insert_report-Same, or_missing-Same) depth 12

  submit_report-Same :
      (now node_id kind : String) (payload : Fields)
      → Keeps Same (submit_report now node_id kind payload)
  unfolding submit_report Nodes.get
  submit_report-Same now node_id kind payload =
      search (keeps_rules, add-Same, require_node-Same) depth 9

-- On a connection with no open transaction, a submitted report leaves every table but the reports
-- as it was committed, whatever the report says and whichever statement fails.
pub submit_report-business :
    (now node_id kind : String) (payload : Fields) (c : Connection)
    → IsClosed c
    → business (submit_report now node_id kind payload c).1.committed ≡ business c.committed
submit_report-business now node_id kind payload c closed =
    ((submit_report-Same (business c.committed) now node_id kind payload).at c (rw closed refl)
      refl).1
