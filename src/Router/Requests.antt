-- ===== src/Router/Requests.antt =====
-- `RnsRequestManager` of lxmf-rs/src/rns/router.rs: requests that wait for a response. The id of a
-- request is the hash that lxmf-rs/src/rns/transport.rs derives from its packet: here a parameter.
pub mod Laws
use Prim.Native.String.{String}
use lxmf_rs.Prelude.{
  ℕ, ◌-◌, Bool, true, false, Option, none, some, List, [], ◌∷◌, Bytes, Bytes-discrete, leb, retain,
}
use lxmf_rs.Prelude.HashMap.{get, insert, remove, has, keys, remove_all}
use lxmf_rs.Wire.Errors.{Result, ok, RnsError, ◌>>=◌}
use lxmf_rs.Wire.Request.{
  Hashing, RnsRequest, RnsResponse, encode_request_bytes, request_id_for_destination,
  truncate_sha256_bytes,
}
use lxmf_rs.Wire.Value.{Value, Float, Msgpack}

pub record PendingRequest : Type 0 where
  pub request_id : Bytes
  pub path_hash : Bytes
  pub sent_at_ms : ℕ
  pub timeout_ms : ℕ

pub record RnsRequestManager (fl : Float) : Type 0 where
  pub pending : List (Bytes × PendingRequest)
  pub responses : List (Bytes × RnsResponse fl)

unfoldable pub is_timed_out : ℕ → Bytes × PendingRequest → Bool
is_timed_out now_ms e = leb e.1.timeout_ms (now_ms - e.1.sent_at_ms)

module _ {fl : Float} where
  unfoldable pub new : RnsRequestManager fl
  new = record { pending = []; responses = [] }

  unfoldable pub is_pending : RnsRequestManager fl → Bytes → Bool
  is_pending m request_id = has Bytes-discrete request_id m.pending

  unfoldable pub record_response :
      RnsRequestManager fl → RnsResponse fl → RnsRequestManager fl × Bool
  record_response m response = elim (get Bytes-discrete response.request_id m.pending) [
    | some _ ↦ (
      record {
        pending = remove Bytes-discrete response.request_id m.pending;
        responses = insert Bytes-discrete response.request_id response m.responses;
      },
      true,
    )
    | none ↦ (m, false)
  ]

  unfoldable pub take_response :
      RnsRequestManager fl → Bytes → RnsRequestManager fl × Option (RnsResponse fl)
  take_response m request_id = (
    record m { responses = remove Bytes-discrete request_id m.responses },
    get Bytes-discrete request_id m.responses,
  )

  unfoldable pub poll_timeouts : RnsRequestManager fl → ℕ → RnsRequestManager fl × List Bytes
  poll_timeouts m now_ms =
      let timed_out = keys Bytes-discrete (retain (is_timed_out now_ms) m.pending) in
      (record m { pending = remove_all Bytes-discrete timed_out m.pending }, timed_out)

-- `[0u8; 16]`.
abbrev pub zero_hash : Bytes
zero_hash = 0 ∷ 0 ∷ 0 ∷ 0 ∷ 0 ∷ 0 ∷ 0 ∷ 0 ∷ 0 ∷ 0 ∷ 0 ∷ 0 ∷ 0 ∷ 0 ∷ 0 ∷ 0 ∷ []

module _ {fl : Float} (h : Hashing) (codec : Msgpack fl) (utf8 : String → Bytes) where
  path_hash_of : Option String → Bytes
  path_hash_of none = zero_hash
  path_hash_of (some path) = truncate_sha256_bytes h (utf8 path)

  -- The request as it is before its id is known.
  unfoldable pub draft : Option String → Value fl → ℕ → RnsRequest fl
  unfolding path_hash_of
  draft path body now_ms = record {
    request_id = zero_hash;
    requested_at = fl.divide (fl.of_u64 now_ms) (fl.of_u64 1000);
    path_hash = path_hash_of path;
    body = body;
  }

  unfoldable pub register_request :
      RnsRequestManager fl
      → Bytes
      → Option String
      → Value fl
      → ℕ
      → ℕ
      → Result RnsError (RnsRequestManager fl × RnsRequest fl)
  unfolding draft
  register_request m destination_hash path body now_ms timeout_ms = do
    let req = draft path body now_ms
    request_id ← request_id_for_destination h destination_hash (encode_request_bytes codec req)
    let pending : PendingRequest = record {
      request_id = request_id;
      path_hash = req.path_hash;
      sent_at_ms = now_ms;
      timeout_ms = timeout_ms;
    }
    ok (
      record m { pending = insert Bytes-discrete request_id pending m.pending },
      record req { request_id = request_id },
    )
