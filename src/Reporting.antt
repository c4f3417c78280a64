-- ===== src/Reporting.antt =====
-- src/dn42ctl/services/reports.py and revisions.py.
pub mod Frame
use dn42_utils.Base.{ℕ, String, not, Option, none, some, List, if◌then◌else◌}
use dn42_utils.Base.Text.{mem}
use dn42_utils.Json.{Fields}
use dn42_utils.Database.Schema.{ManagedNode, NodeReport, ConfigRevision}
use dn42_utils.Database.Connection.{M, dn42ctl_error, pure, raise, closing, ◌>>=◌, ◌>>◌}
use dn42_utils.Managed.Nodes
use dn42_utils.Managed.Reports
use dn42_utils.Managed.Reports.{valid_report_kinds}
use dn42_utils.Managed.Revisions

abbrev pub require_node : Option ManagedNode → M (Unit {0})
require_node none = raise (dn42ctl_error "managed node 不存在")
require_node (some n) = pure tt

-- A payload of `Fields` is an object that can be serialised.
unfoldable pub submit_report : String → String → String → Fields → M NodeReport
submit_report now node_id kind payload =
    if not (mem kind valid_report_kinds)
    then raise (dn42ctl_error "非法 report kind")
    else closing
        (do node ← Nodes.get node_id; require_node node; Reports.add now node_id kind payload)

unfoldable pub list_reports : String → Option String → ℕ → M (List NodeReport)
list_reports node_id kind limit = closing (Reports.list_for_node node_id kind limit)

abbrev require_report : Option NodeReport → M NodeReport
require_report none = raise (dn42ctl_error "report 不存在")
require_report (some r) = pure r

unfoldable pub get_report : ℕ → M NodeReport
get_report report_id = do r ← closing (Reports.get report_id); require_report r

unfoldable pub list_revisions : String → ℕ → M (List ConfigRevision)
list_revisions node_id limit = closing (Revisions.list_for_node node_id limit)

unfoldable pub get_pinned : String → M (Option ConfigRevision)
get_pinned node_id = closing (Revisions.get_pin node_id)

abbrev pin_target : String → String → String → Option ConfigRevision → M ConfigRevision
pin_target now node_id revision none = raise (dn42ctl_error "revision 不存在")
pin_target now node_id revision (some found) = do Revisions.pin now node_id revision; pure found

unfoldable pub rollback_to : String → String → String → M ConfigRevision
rollback_to now node_id revision =
    closing
      (do found ← Revisions.get_by_revision node_id revision; pin_target now node_id revision found)

unfoldable pub clear_rollback : String → String → M (Unit {0})
clear_rollback now node_id = closing (Revisions.unpin now node_id)
