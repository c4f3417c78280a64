-- ===== src/Managed/Policy.antt =====
-- `validate_write_policy` of src/dn42ctl/db_managed.py.
pub mod Laws
use dn42_utils.Base.{String, List, [], ◌∷◌, ◌==◌, if◌then◌else◌, not}
use dn42_utils.Base.Text.{mem}
use dn42_utils.Database.Schema.{WritePolicy}
use dn42_utils.Database.Connection.{Exception, value_error, Outcome, ok, raised}

abbrev pub default_write_policy : WritePolicy
default_write_policy = record {
  peer_add = "review";
  peer_modify = "review";
  peer_delete = "review";
  report = "auto";
}

abbrev pub valid_policy_peer_add : List String
valid_policy_peer_add = "review" ∷ "auto_accept" ∷ []

abbrev pub valid_policy_peer_modify : List String
valid_policy_peer_modify = "review" ∷ []

abbrev pub valid_policy_peer_delete : List String
valid_policy_peer_delete = "review" ∷ []

abbrev pub valid_policy_report : List String
valid_policy_report = "review" ∷ "auto" ∷ []

-- `merged[key] = value`, for a key of the default policy
abbrev pub merge : String → String → WritePolicy → Outcome WritePolicy
merge key value p =
    if key == "peer_add"
    then ok (record p { peer_add = value })
    else if key == "peer_modify"
    then ok (record p { peer_modify = value })
    else if key == "peer_delete"
    then ok (record p { peer_delete = value })
    else if key == "report"
    then ok (record p { report = value })
    else raised (value_error "未知 write_policy 字段")

abbrev then_merge : (WritePolicy → Outcome WritePolicy) → Outcome WritePolicy → Outcome WritePolicy
then_merge f (ok p) = f p
then_merge f (raised e) = raised e

-- the loop over `policy.items()`
merge_all : List (String × String) → WritePolicy → Outcome WritePolicy
merge_all [] p = ok p
merge_all ((key, value) ∷ items) p = then_merge (merge_all items) (merge key value p)

abbrev check_policy : WritePolicy → Outcome WritePolicy
check_policy p =
    if not (mem p.peer_add valid_policy_peer_add)
    then raised (value_error "peer_add 仅允许")
    else if not (mem p.peer_modify valid_policy_peer_modify)
    then raised (value_error "peer_modify 仅允许 'review'(防止节点被入侵后篡改权威记录)")
    else if not (mem p.peer_delete valid_policy_peer_delete)
    then raised (value_error "peer_delete 仅允许 'review'(防止节点被入侵后抹除权威记录)")
    else if not (mem p.report valid_policy_report)
    then raised (value_error "report 仅允许")
    else ok p

unfoldable pub validate_write_policy : List (String × String) → Outcome WritePolicy
unfolding merge_all
validate_write_policy policy = then_merge check_policy (merge_all policy default_write_policy)
