-- ===== src/Decisions.antt =====
-- src/dn42ctl/services/proposal_decisions.py and proposals.py. Each `Database.open … close` is
-- `closing`; the peer services are an interface.
pub mod Interface
pub mod Apart
pub mod Final
pub mod Tests
use Prim.Native.String.{◌++◌ as text_append}
use dn42_utils.Base.{
  ℕ, String, Bool, true, false, not, ◌&&◌, Option, none, some, List, [], ◌∷◌, if◌then◌else◌, ◌==◌,
}
use dn42_utils.Base.Text.{mem, truthy, or_empty}
use dn42_utils.Json.{Json, Fields, get}
use dn42_utils.Database.Schema.{ConfigProposal, ManagedNode, WritePolicy}
use dn42_utils.Database.Connection.{
  M, Outcome, ok, raised, Exception, dn42ctl_error, sql, database_error, value_error, pure, raise,
  closing, ◌>>=◌, ◌>>◌,
}
use dn42_utils.Validators.{TextLibrary}
use dn42_utils.Payload.{
  BgpPeerPayload, IbgpPeerPayload, parse_bgp_peer, parse_ibgp_peer, parse_bgp_key, parse_ibgp_key,
}
use dn42_utils.Managed.Nodes
use dn42_utils.Managed.Proposals.{valid_proposal_kinds, valid_proposal_sources, set_status}
use dn42_utils.Managed.Proposals
use dn42_utils.Decisions.Interface.{PeerServices}

abbrev pub lift : {A : Type 0} → Outcome A → M A
lift r c = (r, c)

-- `payload.peer_kind`
pub data PeerKind : Type 0 where
  bgp ibgp : PeerKind

abbrev peer_kind_of : Option Json → Outcome PeerKind
peer_kind_of (some (Json.str s)) =
    if s == "bgp"
    then ok bgp
    else if s == "ibgp"
    then ok ibgp
    else raised (dn42ctl_error "payload.peer_kind 必须是 'bgp' 或 'ibgp'")
peer_kind_of v = raised (dn42ctl_error "payload.peer_kind 必须是 'bgp' 或 'ibgp'")

unfoldable pub require_peer_kind : Fields → Outcome PeerKind
require_peer_kind payload = peer_kind_of (get "peer_kind" payload)

abbrev object_of : Option Json → Outcome Fields
object_of (some (Json.obj fields)) = ok fields
object_of v = raised (dn42ctl_error "payload 缺失或不是对象")

unfoldable pub require_peer : Fields → String → Outcome Fields
require_peer payload key = object_of (get key payload)

abbrev pub require_found : Option ConfigProposal → M ConfigProposal
require_found none = raise (dn42ctl_error "proposal 不存在")
require_found (some p) = pure p

abbrev pub require_pending : ConfigProposal → M (Unit {0})
require_pending p =
    if not (p.status == "pending") then raise (dn42ctl_error "当前状态无法接受或拒绝") else pure tt

-- `except Dn42CtlError as exc`
abbrev pub handle_error : {A : Type 0} → (String → M A) → Outcome A → M A
handle_error h (ok a) = pure a
handle_error h (raised (dn42ctl_error message)) = h message
handle_error h (raised e) = raise e

unfoldable pub try_service : {A : Type 0} → M A → (String → M A) → M A
try_service m h c = handle_error h (m c).0 (m c).1

module _ (lib : TextLibrary) (services : PeerServices) where
  abbrev pub add_peer : String → PeerKind → Fields → M (Unit {0})
  add_peer target bgp peer = do
    parsed ← lift (parse_bgp_peer lib peer)
    services.create_bgp_peer target parsed
  add_peer target ibgp peer = do
    parsed ← lift (parse_ibgp_peer lib peer none)
    services.create_ibgp_peer target parsed

  unfoldable pub apply_peer_add : String → Fields → M (Unit {0})
  apply_peer_add target payload = do
    peer_kind ← lift (require_peer_kind payload)
    peer ← lift (require_peer payload "peer")
    add_peer target peer_kind peer

  abbrev pub modify_peer : String → PeerKind → Fields → M (Unit {0})
  modify_peer target bgp peer = do
    parsed ← lift (parse_bgp_peer lib peer)
    services.modify_bgp_peer target parsed
  modify_peer target ibgp peer = do
    parsed ← lift (parse_ibgp_peer lib peer (some true))
    services.modify_ibgp_peer target (record {
      name = parsed.name;
      peer_public_key = or_empty parsed.peer_public_key;
      endpoint = or_empty parsed.endpoint;
      peer_lla = or_empty parsed.peer_lla;
      peer_ip = parsed.peer_ip;
      net_backend = parsed.net_backend;
      babel_rxcost = parsed.babel_rxcost;
      babel_type = parsed.babel_type;
      listen_port = parsed.listen_port;
    })

  unfoldable pub apply_peer_modify : String → Fields → M (Unit {0})
  apply_peer_modify target payload = do
    peer_kind ← lift (require_peer_kind payload)
    peer ← lift (require_peer payload "peer")
    modify_peer target peer_kind peer

  abbrev pub delete_peer : String → PeerKind → Fields → M (Unit {0})
  delete_peer target bgp key = do
    peer_asn ← lift (parse_bgp_key lib key)
    services.delete_bgp_peer target peer_asn
  delete_peer target ibgp key = do
    name ← lift (parse_ibgp_key lib key)
    services.delete_ibgp_peer target name

  unfoldable pub apply_peer_delete : String → Fields → M (Unit {0})
  apply_peer_delete target payload = do
    peer_kind ← lift (require_peer_kind payload)
    key ← lift (require_peer payload "key")
    delete_peer target peer_kind key

  unfoldable pub apply_proposal : ConfigProposal → M (Unit {0})
  unfolding apply_peer_add apply_peer_modify apply_peer_delete
  apply_proposal proposal =
      if proposal.kind == "peer_add"
      then apply_peer_add proposal.node_id proposal.payload
      else if proposal.kind == "peer_modify"
      then apply_peer_modify proposal.node_id proposal.payload
      else if proposal.kind == "peer_delete"
      then apply_peer_delete proposal.node_id proposal.payload
      else raise (dn42ctl_error "未知 proposal kind")

  -- `now` is the time of the decision.
  unfoldable pub accept_proposal : String → ℕ → M ConfigProposal
  unfolding apply_proposal
  accept_proposal now proposal_id = do
    found ← closing (Proposals.get proposal_id)
    proposal ← require_found found
    require_pending proposal
    apply_proposal proposal
    closing (set_status now proposal_id "accepted" none)

  unfoldable pub reject_proposal : String → ℕ → String → M ConfigProposal
  reject_proposal now proposal_id reason =
      if not (truthy (lib.strip reason))
      then raise (dn42ctl_error "reject 必须提供 reason")
      else closing (do
        found ← Proposals.get proposal_id
        proposal ← require_found found
        require_pending proposal
        set_status now proposal_id "rejected" (some reason))

  -- None when the peer was added, the error's text when a service has refused it.
  abbrev pub decide_auto : String → ConfigProposal → Option String → M ConfigProposal
  decide_auto now proposal none = closing (set_status now proposal.id "accepted" none)
  decide_auto now proposal (some message) =
      closing
        (set_status now proposal.id "rejected" (some (text_append "auto_accept 校验失败: " message)))

  unfoldable pub try_auto_accept : String → ConfigProposal → WritePolicy → M ConfigProposal
  unfolding apply_proposal try_service
  try_auto_accept now proposal policy =
      if not (proposal.status == "pending")
      then pure proposal
      else if proposal.kind == "peer_add" && policy.peer_add == "auto_accept"
      then (do
        verdict ←
            try_service (do apply_proposal proposal; pure none) (λ message. pure (some message))
        decide_auto now proposal verdict)
      else pure proposal

  abbrev pub require_node : Option ManagedNode → M ManagedNode
  require_node none = raise (dn42ctl_error "managed node 不存在")
  require_node (some n) = pure n

  -- `with_config` says whether a config is given. A payload of `Fields` is an object that can be
  -- serialised.
  unfoldable pub submit_proposal :
      Bool → String → String → String → String → Fields → M ConfigProposal
  unfolding try_auto_accept
  submit_proposal with_config now node_id source kind payload =
      if not (mem kind valid_proposal_kinds)
      then raise (dn42ctl_error "非法 kind")
      else if not (mem source valid_proposal_sources)
      then raise (dn42ctl_error "非法 source")
      else do
        (proposal, policy) ← closing (do
          found ← Nodes.get node_id
          node ← require_node found
          added ← Proposals.add now node_id source kind payload
          pure (added, node.write_policy))
        if with_config then try_auto_accept now proposal policy else pure proposal

unfoldable pub get_proposal : ℕ → M ConfigProposal
get_proposal proposal_id = do found ← closing (Proposals.get proposal_id); require_found found

unfoldable pub list_proposals : String → Option String → ℕ → M (List ConfigProposal)
list_proposals node_id status limit = closing (Proposals.list_for_node node_id status limit)
