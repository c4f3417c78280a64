-- ===== src/Managed/Revisions.antt =====
-- `RevisionStore` of src/dn42ctl/db_managed.py: the snapshots of a node's desired state, and the
-- pin that a rollback sets.
pub mod Pins
pub mod Rollback
use dn42_utils.Base.{
  ℕ, suc, String, Bool, not, ◌&&◌, Option, none, some, List, [], ◌∷◌, ◌++◌, leb, nat_eq,
  if◌then◌else◌, take, select, select_one, update_where, delete_where, sort_by, any, ◌==◌, length,
}
use dn42_utils.Constants.{sync_event_desired}
use dn42_utils.Database.Schema.{ConfigRevision, Content, Pin, Tables}
use dn42_utils.Database.Connection.{
  M, Statement, done, violated, database_error, execute, query, commit, raise, or_abort, or_raise,
  pure, ◌>>=◌, ◌>>◌,
}
use dn42_utils.Database.Events.{emit_sync_event}
use dn42_utils.Database.Peers.{has_node}

abbrev pub is_revision : String → String → ConfigRevision → Bool
is_revision node_id revision r = r.node_id == node_id && r.revision == revision

-- INSERT INTO config_revisions, with UNIQUE(node_id, revision); the result is `lastrowid`
abbrev pub insert_revision : String → String → String → Content → Statement ℕ
insert_revision node_id revision generated_at payload t =
    let row : ConfigRevision = record {
      id = suc t.revisions_seq;
      node_id = node_id;
      revision = revision;
      generated_at = generated_at;
      payload = payload;
    } in
    if has_node node_id t && not (any (is_revision node_id revision) t.revisions)
    then done (suc t.revisions_seq)
        (record t { revisions = t.revisions ++ row ∷ []; revisions_seq = suc t.revisions_seq })
    else violated

unfoldable pub get : ℕ → M (Option ConfigRevision)
get id = or_raise (query (λ t. select_one (λ r. nat_eq r.id id) t.revisions)) "查询 revision 失败"

unfoldable pub get_by_revision : String → String → M (Option ConfigRevision)
get_by_revision node_id revision =
    or_raise (query (λ t. select_one (is_revision node_id revision) t.revisions)) "查询 revision 失败"

abbrev or_missing : String → Option ConfigRevision → M ConfigRevision
or_missing message none = raise (database_error message)
or_missing message (some r) = pure r

read_back : ℕ → String → M ConfigRevision
unfolding get
read_back id message = do found ← get id; or_missing message found

unfoldable pub record_row : String → String → String → Content → M ℕ
record_row node_id revision generated_at payload =
    or_abort
      (do id ← execute (insert_revision node_id revision generated_at payload); commit; pure id)
      "插入 config_revision 失败"

abbrev existing_or : M ConfigRevision → Option ConfigRevision → M ConfigRevision
existing_or insert (some existing) = pure existing
existing_or insert none = insert

-- `record`
unfoldable pub record_revision : String → String → String → Content → M ConfigRevision
unfolding get_by_revision record_row read_back
record_revision node_id revision generated_at payload = do
  existing ← get_by_revision node_id revision
  existing_or
      (do id ← record_row node_id revision generated_at payload; read_back id "插入后无法读取 revision")
      existing

-- WHERE node_id=? ORDER BY id DESC
abbrev pub newest_of : String → List ConfigRevision → List ConfigRevision
newest_of node_id rs = sort_by (λ a b. leb b.id a.id) (select (λ r. r.node_id == node_id) rs)

unfoldable pub list_for_node : String → ℕ → M (List ConfigRevision)
list_for_node node_id limit =
    or_raise (query (λ t. take limit (newest_of node_id t.revisions))) "列出 revisions 失败"

abbrev pub first_revision : List ConfigRevision → Option String
first_revision [] = none
first_revision (r ∷ rs) = some r.revision

unfoldable pub latest_revision : String → M (Option String)
latest_revision node_id =
    or_raise (query (λ t. first_revision (newest_of node_id t.revisions))) "查询最新 revision 失败"

-- `id NOT IN (…)` and `revision NOT IN (…)`
abbrev in_ids : List ConfigRevision → ConfigRevision → Bool
in_ids rs r = any (λ k. nat_eq k.id r.id) rs

abbrev pub is_pinned : String → List Pin → ConfigRevision → Bool
is_pinned node_id pins r = any (λ (p : Pin). p.node_id == node_id && p.revision == r.revision) pins

abbrev pub trims : String → ℕ → Tables → ConfigRevision → Bool
trims node_id keep_latest t r =
    r.node_id == node_id
    && (not (in_ids (take keep_latest (newest_of node_id t.revisions)) r)
        && not (is_pinned node_id t.pins r))

abbrev pub trim_rows : String → ℕ → Statement ℕ
trim_rows node_id keep_latest t =
    done (length (select (trims node_id keep_latest t) t.revisions))
      (record t { revisions = delete_where (trims node_id keep_latest t) t.revisions })

unfoldable pub trim : String → ℕ → M ℕ
trim node_id keep_latest =
    or_abort (do rowcount ← execute (trim_rows node_id keep_latest); commit; pure rowcount)
      "trim revisions 失败"

abbrev pub is_pin : String → Pin → Bool
is_pin node_id p = p.node_id == node_id

-- INSERT … ON CONFLICT(node_id) DO UPDATE SET revision, pinned_at
abbrev pub upsert_pin : String → String → String → Statement (Unit {0})
upsert_pin now node_id revision t =
    if not (has_node node_id t)
    then violated
    else done tt (record t {
      pins =
          if any (is_pin node_id) t.pins
          then update_where (is_pin node_id)
              (λ p. record p { revision = revision; pinned_at = now }) t.pins
          else t.pins ++ record { node_id = node_id; revision = revision; pinned_at = now } ∷ [];
    })

abbrev pin_existing : String → String → String → Option ConfigRevision → M (Unit {0})
pin_existing now node_id revision none = raise (database_error "revision 不存在")
pin_existing now node_id revision (some existing) =
    or_abort
      (do
        execute (upsert_pin now node_id revision)
        emit_sync_event now node_id sync_event_desired
        commit)
      "pin revision 失败"

unfoldable pub pin : String → String → String → M (Unit {0})
unfolding get_by_revision
pin now node_id revision = do
  existing ← get_by_revision node_id revision
  pin_existing now node_id revision existing

abbrev pub delete_pin : String → Statement (Unit {0})
delete_pin node_id t = done tt (record t { pins = delete_where (is_pin node_id) t.pins })

unfoldable pub unpin : String → String → M (Unit {0})
unpin now node_id =
    or_abort
      (do execute (delete_pin node_id); emit_sync_event now node_id sync_event_desired; commit)
      "unpin revision 失败"

abbrev pub follow_pin : Option Pin → M (Option ConfigRevision)
follow_pin none = pure none
follow_pin (some p) =
    or_raise (query (λ t. select_one (is_revision p.node_id p.revision) t.revisions))
      "查询 revision 失败"

-- The pin that is followed was found under `node_id`.
unfoldable pub get_pin : String → M (Option ConfigRevision)
get_pin node_id = do
  p ← or_raise (query (λ t. select_one (is_pin node_id) t.pins)) "查询 pin 失败"
  follow_pin p
