-- ===== src/Ws/RoundTrip.antt =====
-- What is encoded is decoded again.
use dn42_utils.Base.{String, ◌≡◌, ◌≤◌, arith, true, false, ltb, some}
use dn42_utils.Base.Text.{truthy}
use dn42_utils.Json.{Json}
use dn42_utils.Ws.{
  Envelope, JsonLibrary, decoded, encode, decode, envelope_of, to_dict, max_frame_bytes, ◌>>=◌,
}

envelope_of-to_dict :
    (now : String) (e : Envelope)
    → truthy e.type ≡ true
    → truthy e.id ≡ true
    → envelope_of now (Json.obj (to_dict e)) ≡ decoded e
unfolding envelope_of to_dict ◌>>=◌
envelope_of-to_dict now e typed named = ground arith

module _ (json : JsonLibrary) where
  -- An envelope with a type and an id, whose frame is not too long, is decoded to itself, whatever
  -- the time, when `loads` reads what `dumps` has written of it.
  pub decode-encode :
      (now : String) (e : Envelope)
      → json.loads (encode json e) ≡ some (Json.obj (to_dict e))
      → truthy e.type ≡ true
      → truthy e.id ≡ true
      → json.byte_length (encode json e) ≤ max_frame_bytes
      → decode json now (encode json e) ≡ decoded e
  unfolding encode decode
  decode-encode now e reads typed named short =
      let short' : ltb max_frame_bytes (json.byte_length (json.dumps (Json.obj (to_dict e))))
          ≡ false =
        ground arith in
      rw (short', reads) (envelope_of-to_dict now e typed named)
