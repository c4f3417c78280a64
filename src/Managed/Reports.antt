-- ===== src/Managed/Reports.antt =====
-- `ReportStore` of src/dn42ctl/db_managed.py.
use dn42_utils.Base.{
  ℕ, suc, String, Bool, true, not, ◌&&◌, Option, none, some, List, [], ◌∷◌, ◌++◌, leb, nat_eq,
  if◌then◌else◌, take, select, select_one, update_where, sort_by, ◌==◌, length,
}
use dn42_utils.Base.Text.{mem}
use dn42_utils.Json.{Fields}
use dn42_utils.Database.Schema.{NodeReport}
use dn42_utils.Database.Connection.{
  M, Statement, done, violated, database_error, execute, query, commit, raise, or_abort, or_raise,
  pure, ◌>>=◌, ◌>>◌,
}
use dn42_utils.Database.Peers.{has_node}
use dn42_utils.Managed.Nodes.{require_updated}

abbrev pub valid_report_kinds : List String
valid_report_kinds = "apply_result" ∷ "scan_result" ∷ "live_status" ∷ "error" ∷ []

abbrev pub is_report : ℕ → NodeReport → Bool
is_report id r = nat_eq r.id id

-- INSERT INTO node_reports; the result is `lastrowid`
abbrev pub insert_report : String → String → String → Fields → Statement ℕ
insert_report now node_id kind payload t =
    let row : NodeReport = record {
      id = suc t.reports_seq;
      node_id = node_id;
      kind = kind;
      payload = payload;
      received_at = now;
      imported_at = none;
    } in
    if has_node node_id t
    then done (suc t.reports_seq)
        (record t { reports = t.reports ++ row ∷ []; reports_seq = suc t.reports_seq })
    else violated

unfoldable pub get : ℕ → M (Option NodeReport)
get id = or_raise (query (λ t. select_one (is_report id) t.reports)) "查询 report 失败"

abbrev pub or_missing : String → Option NodeReport → M NodeReport
or_missing message none = raise (database_error message)
or_missing message (some r) = pure r

unfoldable pub read_back : ℕ → String → M NodeReport
unfolding get
read_back id message = do found ← get id; or_missing message found

unfoldable pub add_row : String → String → String → Fields → M ℕ
add_row now node_id kind payload =
    or_abort (do id ← execute (insert_report now node_id kind payload); commit; pure id)
      "插入 node_report 失败"

unfoldable pub add : String → String → String → Fields → M NodeReport
unfolding add_row read_back
add now node_id kind payload =
    if not (mem kind valid_report_kinds)
    then raise (database_error "非法 report kind")
    else do id ← add_row now node_id kind payload; read_back id "插入后无法读取 report"

abbrev has_kind : Option String → NodeReport → Bool
has_kind none r = true
has_kind (some kind) r = r.kind == kind

abbrev valid_filter : Option String → Bool
valid_filter none = true
valid_filter (some kind) = mem kind valid_report_kinds

-- ORDER BY id DESC LIMIT ?
unfoldable pub list_for_node : String → Option String → ℕ → M (List NodeReport)
list_for_node node_id kind limit =
    if not (valid_filter kind)
    then raise (database_error "非法 kind 过滤")
    else or_raise
        (query (λ t. take limit (
          sort_by (λ a b. leb b.id a.id)
            (select (λ r. r.node_id == node_id && has_kind kind r) t.reports))))
        "列出 reports 失败"

-- the result is `rowcount`
abbrev pub stamp_imported : String → ℕ → Statement ℕ
stamp_imported now id t = done (length (select (is_report id) t.reports)) (record t {
  reports = update_where (is_report id) (λ r. record r { imported_at = some now }) t.reports;
})

unfoldable pub write_imported : String → ℕ → M (Unit {0})
write_imported now id =
    or_abort
      (do rowcount ← execute (stamp_imported now id); require_updated rowcount "report 不存在"; commit)
      "更新 report imported_at 失败"

unfoldable pub mark_imported : String → ℕ → M NodeReport
unfolding write_imported read_back
mark_imported now id = do write_imported now id; read_back id "更新后无法读取 report"
