-- ===== src/Managed/Proposals.antt =====
-- `ProposalStore` of src/dn42ctl/db_managed.py.
use dn42_utils.Base.{
  ℕ, suc, String, Bool, true, not, ◌&&◌, Option, none, some, List, [], ◌∷◌, ◌++◌, leb, nat_eq,
  if◌then◌else◌, take, select, select_one, update_where, sort_by, ◌==◌, length,
}
use dn42_utils.Base.Text.{mem}
use dn42_utils.Json.{Fields}
use dn42_utils.Database.Schema.{ConfigProposal}
use dn42_utils.Database.Connection.{
  M, Statement, done, violated, database_error, execute, query, commit, raise, or_abort, or_raise,
  pure, ◌>>=◌, ◌>>◌,
}
use dn42_utils.Database.Peers.{has_node}
use dn42_utils.Managed.Nodes.{require_updated}

abbrev pub valid_proposal_sources : List String
valid_proposal_sources = "push" ∷ "scan" ∷ []

abbrev pub valid_proposal_kinds : List String
valid_proposal_kinds = "peer_add" ∷ "peer_modify" ∷ "peer_delete" ∷ []

abbrev pub valid_proposal_statuses : List String
valid_proposal_statuses = "pending" ∷ "accepted" ∷ "rejected" ∷ []

abbrev pub is_proposal : ℕ → ConfigProposal → Bool
is_proposal id p = nat_eq p.id id

-- INSERT INTO config_proposals; the result is `lastrowid`
abbrev pub insert_proposal : String → String → String → String → Fields → Statement ℕ
insert_proposal now node_id source kind payload t =
    let row : ConfigProposal = record {
      id = suc t.proposals_seq;
      node_id = node_id;
      source = source;
      kind = kind;
      payload = payload;
      status = "pending";
      received_at = now;
      decided_at = none;
      message = none;
    } in
    if has_node node_id t
    then done (suc t.proposals_seq)
        (record t { proposals = t.proposals ++ row ∷ []; proposals_seq = suc t.proposals_seq })
    else violated

unfoldable pub get : ℕ → M (Option ConfigProposal)
get id = or_raise (query (λ t. select_one (is_proposal id) t.proposals)) "查询 proposal 失败"

abbrev pub or_missing : String → Option ConfigProposal → M ConfigProposal
or_missing message none = raise (database_error message)
or_missing message (some p) = pure p

unfoldable pub read_back : ℕ → String → M ConfigProposal
unfolding get
read_back id message = do found ← get id; or_missing message found

unfoldable pub add_row : String → String → String → String → Fields → M ℕ
add_row now node_id source kind payload =
    or_abort (do id ← execute (insert_proposal now node_id source kind payload); commit; pure id)
      "插入 config_proposal 失败"

unfoldable pub add : String → String → String → String → Fields → M ConfigProposal
unfolding add_row read_back
add now node_id source kind payload =
    if not (mem source valid_proposal_sources)
    then raise (database_error "非法 source")
    else if not (mem kind valid_proposal_kinds)
    then raise (database_error "非法 kind")
    else do id ← add_row now node_id source kind payload; read_back id "插入后无法读取 proposal"

-- `AND status=?`, where a status is given
abbrev has_status : Option String → ConfigProposal → Bool
has_status none p = true
has_status (some status) p = p.status == status

abbrev valid_filter : Option String → Bool
valid_filter none = true
valid_filter (some status) = mem status valid_proposal_statuses

-- ORDER BY id DESC LIMIT ?
unfoldable pub list_for_node : String → Option String → ℕ → M (List ConfigProposal)
list_for_node node_id status limit =
    if not (valid_filter status)
    then raise (database_error "非法 status 过滤")
    else or_raise
        (query (λ t. take limit (
          sort_by (λ a b. leb b.id a.id)
            (select (λ p. p.node_id == node_id && has_status status p) t.proposals))))
        "列出 proposals 失败"

abbrev pub decide : String → String → Option String → ConfigProposal → ConfigProposal
decide now status message p = record p { status = status; decided_at = some now; message = message }

-- the result is `rowcount`
abbrev pub update_proposal : ℕ → (ConfigProposal → ConfigProposal) → Statement ℕ
update_proposal id f t =
    done (length (select (is_proposal id) t.proposals))
      (record t { proposals = update_where (is_proposal id) f t.proposals })

unfoldable pub write_status : String → ℕ → String → Option String → M (Unit {0})
write_status now id status message =
    or_abort
      (do
        rowcount ← execute (update_proposal id (decide now status message))
        require_updated rowcount "proposal 不存在"
        commit)
      "更新 proposal 状态失败"

unfoldable pub set_status : String → ℕ → String → Option String → M ConfigProposal
unfolding write_status read_back
set_status now id status message =
    if not (mem status valid_proposal_statuses)
    then raise (database_error "非法 status")
    else do write_status now id status message; read_back id "更新后无法读取 proposal"
