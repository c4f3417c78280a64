-- ===== src/Constants.antt =====
-- src/dn42ctl/constants.py
use dn42_utils.Base.{ℕ, String, List, [], ◌∷◌}

abbrev pub max_port : ℕ
max_port = 65535

abbrev pub max_asn : ℕ
max_asn = 4294967295

abbrev pub wg_key_bytes : ℕ
wg_key_bytes = 32

abbrev pub babel_valid_types : List String
babel_valid_types = "wired" ∷ "wireless" ∷ "tunnel" ∷ []

-- WG_PORT_RANGE
abbrev pub wg_port_low : ℕ
wg_port_low = 30000

abbrev pub wg_port_high : ℕ
wg_port_high = 49999

abbrev pub sync_event_desired : String
sync_event_desired = "desired"

abbrev pub sync_event_access_revoked : String
sync_event_access_revoked = "access_revoked"

abbrev pub sync_events_keep : ℕ
sync_events_keep = 1000

abbrev pub sync_events_trim_every : ℕ
sync_events_trim_every = 256

-- An argument that defaults to `UNSET`: left alone, or given.
pub data Update {ℓ} (A : Type ℓ) : Type ℓ where
  unset : Update A
  given : A → Update A
