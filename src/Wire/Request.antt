-- ===== src/Wire/Request.antt =====
-- Requests and responses on the wire, of lxmf-rs/src/rns/transport.rs. SHA-256 is a parameter, and
-- so are the two bytes of a Reticulum packet header that go into a request's id.
use Prim.Native.String.{String}
use lxmf_rs.Prelude.{ℕ, ◌≡◌, ◌∷◌, ◌++◌, Option, none, some, Bytes, take, length}
use lxmf_rs.Wire.Errors.{Result, ok, err, RnsError, msgpack, ◌>>=◌}
use lxmf_rs.Wire.Value.{
  Value, Float, Msgpack, nil, f64, binary, array, Values, end, item, value_to_f64,
  value_to_fixed_bytes, value_to_fixed_bytes_binary,
}

-- The crate `sha2`, and `header.to_meta() & 0b0000_1111` and `context as u8` of the crate `reticulum`
-- for a data packet to a single destination with the context `Request`.
pub record Hashing : Type 0 where
  pub sha256 : Bytes → Bytes
  pub length-sha256 : (b : Bytes) → length (sha256 b) ≡ 32
  pub request_meta : ℕ
  pub request_context : ℕ

pub record RnsRequest (fl : Float) : Type 0 where
  pub request_id : Bytes
  pub requested_at : fl.F64
  pub path_hash : Bytes
  pub body : Value fl

pub record RnsResponse (fl : Float) : Type 0 where
  pub request_id : Bytes
  pub body : Value fl

-- `.ok_or_else(|| RnsError::Msgpack(…))?`, and the `?` on the error of the decoder.
abbrev pub or_fail : {A : Type 0} → String → Option A → Result RnsError A
or_fail text none = err (msgpack text)
or_fail text (some a) = ok a

abbrev pub of_decoder : {A : Type 0} → Result String A → Result RnsError A
of_decoder (ok a) = ok a
of_decoder (err text) = err (msgpack text)

module _ (h : Hashing) where
  unfoldable pub truncate_sha256_bytes : Bytes → Bytes
  truncate_sha256_bytes input = take 16 (h.sha256 input)

  unfoldable pub request_id_from_packet_parts : Bytes → Bytes → Bytes
  request_id_from_packet_parts destination_hash payload =
      take 16 (h.sha256 (h.request_meta ∷ (destination_hash ++ (h.request_context ∷ payload))))

  unfoldable pub request_id_for_destination : Bytes → Bytes → Result RnsError Bytes
  request_id_for_destination destination_hash payload =
      ok (request_id_from_packet_parts destination_hash payload)

module _ {fl : Float} (codec : Msgpack fl) where
  unfoldable pub request_value : RnsRequest fl → Value fl
  request_value req =
      array (item (f64 req.requested_at) (item (binary req.path_hash) (item req.body end)))

  unfoldable pub encode_request_bytes : RnsRequest fl → Bytes
  unfolding request_value
  encode_request_bytes req = codec.write_value (request_value req)

  -- The match on the array of at least three values.
  request_of_items : Bytes → Values fl → Result RnsError (RnsRequest fl)
  request_of_items request_id (item a (item b (item c rest))) = do
    requested_at ← or_fail "invalid requested_at" (value_to_f64 a)
    path_hash ← or_fail "invalid request path hash" (value_to_fixed_bytes 16 b)
    ok (record {
      request_id = request_id;
      requested_at = requested_at;
      path_hash = path_hash;
      body = c;
    })
  request_of_items request_id _ = err (msgpack "request missing fields")

  request_of_value : Bytes → Value fl → Result RnsError (RnsRequest fl)
  unfolding request_of_items
  request_of_value request_id (array vs) = request_of_items request_id vs
  request_of_value request_id nil = err (msgpack "request must be array")
  request_of_value request_id _ = err (msgpack "request must be array")

  unfoldable pub decode_request_bytes_with_request_id :
      Bytes → Bytes → Result RnsError (RnsRequest fl)
  unfolding request_of_value
  decode_request_bytes_with_request_id bytes request_id = do
    value ← of_decoder (codec.read_value bytes)
    request_of_value request_id value

  unfoldable pub decode_request_bytes_for_destination :
      Hashing → Bytes → Bytes → Result RnsError (RnsRequest fl)
  unfolding request_id_for_destination decode_request_bytes_with_request_id
  decode_request_bytes_for_destination h destination_hash bytes = do
    request_id ← request_id_for_destination h destination_hash bytes
    decode_request_bytes_with_request_id bytes request_id

  -- A decoded request is the encoded one, under the id that the decoder was given.
  pub decode-encode_request :
      (req : RnsRequest fl) (request_id : Bytes)
      → length req.path_hash ≡ 16
      → codec.Encodable (request_value req)
      → decode_request_bytes_with_request_id (encode_request_bytes req) request_id
        ≡ ok (record req { request_id = request_id })
  unfolding decode_request_bytes_with_request_id encode_request_bytes value_to_f64
  decode-encode_request req request_id h e =
      rw (codec.read-write (request_value req) e)
        (rw (value_to_fixed_bytes_binary fl 16 req.path_hash h))

  unfoldable pub response_value : RnsResponse fl → Value fl
  response_value resp = array (item (binary resp.request_id) (item resp.body end))

  unfoldable pub encode_response_bytes : RnsResponse fl → Bytes
  unfolding response_value
  encode_response_bytes resp = codec.write_value (response_value resp)

  response_of_items : Values fl → Result RnsError (RnsResponse fl)
  response_of_items (item a (item b rest)) = do
    request_id ← or_fail "invalid response id" (value_to_fixed_bytes 16 a)
    ok (record { request_id = request_id; body = b })
  response_of_items _ = err (msgpack "response missing fields")

  response_of_value : Value fl → Result RnsError (RnsResponse fl)
  unfolding response_of_items
  response_of_value (array vs) = response_of_items vs
  response_of_value nil = err (msgpack "response must be array")
  response_of_value _ = err (msgpack "response must be array")

  unfoldable pub decode_response_bytes : Bytes → Result RnsError (RnsResponse fl)
  unfolding response_of_value
  decode_response_bytes bytes = do
    value ← of_decoder (codec.read_value bytes)
    response_of_value value

  -- A response within the format's limits, with an id of 16 bytes, comes back from the wire as it was.
  pub decode-encode_response :
      (resp : RnsResponse fl)
      → length resp.request_id ≡ 16
      → codec.Encodable (response_value resp)
      → decode_response_bytes (encode_response_bytes resp) ≡ ok resp
  unfolding decode_response_bytes encode_response_bytes
  decode-encode_response resp h e =
      rw (codec.read-write (response_value resp) e)
        (rw (value_to_fixed_bytes_binary fl 16 resp.request_id h))
