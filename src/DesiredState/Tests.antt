-- ===== src/DesiredState/Tests.antt =====
-- The theorem on unchanged content at a concrete node.
use Prim.Native.String.{◌++◌ as text_append}
use Prim.Native.String.append
use dn42_utils.Base.{
  ℕ, suc, ◌+◌, String, ◌≡◌, refl, ap, arith, true, Option, none, List, [], ◌∷◌, leb, if◌then◌else◌,
}
use dn42_utils.Database.Schema.{BgpEntry, IbgpEntry, NodeBlock, Content, Tables, empty_tables}
use dn42_utils.Database.Connection.{Connection}
use dn42_utils.DesiredState.{compute_revision, build_desired_state}
use dn42_utils.DesiredState.Quiet.{Splits, build_desired_state_quiet}

-- A digest, and `rpartition` on texts that end in it.
abbrev hexdigest : String → List BgpEntry → List IbgpEntry → Option NodeBlock → String
hexdigest node_id bgp_peers ibgp_peers block = "cafe"

abbrev text_length : String → ℕ
text_length String.[] = 0
text_length (String.◌∷◌ c s) = suc (text_length s)

abbrev before : String → String
before String.[] = ""
before (String.◌∷◌ c s) =
    let rest = before s in if leb 5 (text_length s) then String.◌∷◌ c rest else ""

abbrev rpartition : String → String × (String × String)
rpartition s = (before s, ("-", "cafe"))

text_length-append : (s : String) → text_length (text_append s "-cafe") ≡ text_length s + 5
text_length-append String.[] = refl
text_length-append (String.◌∷◌ c s) =
    rw (append.cons c s "-cafe") (ground (arith, text_length-append s))

before-append : (s : String) → before (text_append s "-cafe") ≡ s
before-append String.[] = refl
before-append (String.◌∷◌ c s) =
    rw (append.cons c s "-cafe") (ground (arith, before-append s, text_length-append s))

splits : Splits hexdigest rpartition
unfolding compute_revision
splits k at = ap (λ b. (b, ("-", "cafe"))) (before-append at)

abbrev empty_content : Content
empty_content = record {
  node_id = "edge";
  bgp_peers = [];
  ibgp_peers = [];
  node = record { own_ipv6 = none; router_id = none };
}

abbrev tables : Tables
tables = record empty_tables {
  nodes = record { node_id = "edge"; created_at = "t0"; updated_at = "t0" } ∷ [];
  revisions =
      record {
        id = 1;
        node_id = "edge";
        revision = "t0-cafe";
        generated_at = "t0";
        payload = empty_content;
      }
      ∷ [];
  revisions_seq = 1;
}

abbrev start : Connection
start = record { committed = tables; working = tables; faults = [] }

build_desired_state_quiet_example :
    (build_desired_state hexdigest rpartition "t1" "edge" true 50 start).1.committed ≡ tables
unfolding compute_revision
build_desired_state_quiet_example =
    build_desired_state_quiet hexdigest rpartition "t1" "t0" "edge" 50 start splits refl refl
