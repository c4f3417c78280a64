-- ===== src/Ws/Tests.antt =====
-- The round trip of an envelope at a concrete one.
use dn42_utils.Base.{some, refl, ◌≡◌, arith}
use dn42_utils.Json.{Json, pos, end, field}
use dn42_utils.Ws.{Envelope, JsonLibrary, decode, decoded, encode, to_dict}
use dn42_utils.Ws.RoundTrip.{decode-encode}

abbrev ack : Envelope
ack = record {
  type = "ack";
  payload = field "status" (Json.str "pending") end;
  id = "a1";
  re = some "b7";
  v = pos 1;
  ts = "t0";
}

-- A library for this envelope.
abbrev json : JsonLibrary
unfolding to_dict
json = record {
  dumps = λ j. "{…}";
  loads = λ s. some (Json.obj (to_dict ack));
  byte_length = λ s. 120;
}

decode-encode_example : decode json "t1" (encode json ack) ≡ decoded ack
unfolding to_dict
decode-encode_example = decode-encode json "t1" ack refl refl refl (omega arith)
