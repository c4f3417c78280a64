-- ===== src/DesiredState/Wire.antt =====
-- `DesiredState.to_dict` of src/dn42ctl/services/desired_state.py: the JSON that a node receives.
use dn42_utils.Base.{String, Option, none, some, List, [], ◌∷◌}
use dn42_utils.Json.{pos, Json, Items, nil, cons, Fields, end, field}
use dn42_utils.Database.Schema.{BgpEntry, IbgpEntry, NodeBlock}
use dn42_utils.DesiredState.{DesiredState, canonical_node}

abbrev nullable : Option String → Json
nullable none = Json.null
nullable (some s) = Json.str s

abbrev texts : List String → Items
texts [] = nil
texts (s ∷ ss) = cons (Json.str s) (texts ss)

abbrev bgp_json : BgpEntry → Json
bgp_json e = Json.obj (
    field "peer_asn" (Json.int (pos e.peer_asn)) (
      field "ifname" (Json.str e.ifname) (
        field "wg_private_key" (Json.str e.wg_private_key) (
          field "wg_public_key" (Json.str e.wg_public_key) (
            field "peer_public_key" (nullable e.peer_public_key) (
              field "endpoint" (nullable e.endpoint) (
                field "local_lla" (Json.str e.local_lla) (
                  field "peer_lla" (nullable e.peer_lla) (
                    field "listen_port" (Json.int (pos e.listen_port)) (
                      field "allowed_ips" (Json.arr (texts e.allowed_ips))
                        (field "net_backend" (Json.str e.net_backend) end)))))))))))

abbrev ibgp_json : IbgpEntry → Json
ibgp_json e = Json.obj (
    field "name" (Json.str e.name) (
      field "ifname" (Json.str e.ifname) (
        field "wg_private_key" (Json.str e.wg_private_key) (
          field "wg_public_key" (Json.str e.wg_public_key) (
            field "peer_public_key" (nullable e.peer_public_key) (
              field "endpoint" (nullable e.endpoint) (
                field "local_lla" (Json.str e.local_lla) (
                  field "peer_lla" (nullable e.peer_lla) (
                    field "peer_ip" (nullable e.peer_ip) (
                      field "has_wg" (Json.bool e.has_wg) (
                        field "listen_port" (Json.int (pos e.listen_port)) (
                          field "allowed_ips" (Json.arr (texts e.allowed_ips)) (
                            field "net_backend" (Json.str e.net_backend) (
                              field "babel_rxcost" (Json.int (pos e.babel_rxcost))
                                (field "babel_type" (Json.str e.babel_type) end)))))))))))))))

abbrev bgp_items : List BgpEntry → Items
bgp_items [] = nil
bgp_items (e ∷ es) = cons (bgp_json e) (bgp_items es)

abbrev ibgp_items : List IbgpEntry → Items
ibgp_items [] = nil
ibgp_items (e ∷ es) = cons (ibgp_json e) (ibgp_items es)

abbrev optional_field : String → Option String → Fields → Fields
optional_field key none rest = rest
optional_field key (some s) rest = field key (Json.str s) rest

-- An empty block stays out.
abbrev node_fields : Option NodeBlock → Fields
node_fields none = end
node_fields (some b) =
    field "node"
      (Json.obj (optional_field "own_ipv6" b.own_ipv6 (optional_field "router_id" b.router_id end)))
      end

unfoldable pub to_dict : DesiredState → Fields
to_dict s = field "node_id" (Json.str s.node_id) (
    field "revision" (Json.str s.revision) (
      field "generated_at" (Json.str s.generated_at) (
        field "bgp_peers" (Json.arr (bgp_items s.bgp_peers)) (
          field "ibgp_peers" (Json.arr (ibgp_items s.ibgp_peers))
            (node_fields (canonical_node s.node))))))
