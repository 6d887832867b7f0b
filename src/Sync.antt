-- ===== src/Sync.antt =====
-- The peer sync protocol of lxmf-rs/src/rns/peer.rs: requests, responses, the session of the side
-- that offers, and both messages on the wire.
pub mod Codec
pub mod RoundTrip
use lxmf_rs.Prelude.{ℕ, Bool, true, false, Option, List, [], Bytes}

-- `F` is the type of `f64` values.
pub data PeerSyncRequest (F : Type 0) : Type 0 where
  offer : Bytes → List Bytes → PeerSyncRequest F
  message_get_list : PeerSyncRequest F
  message_get : List Bytes → List Bytes → Option F → PeerSyncRequest F
  message_ack : List Bytes → PeerSyncRequest F

pub data PeerSyncResponse : Type 0 where
  error : ℕ → PeerSyncResponse
  bool : Bool → PeerSyncResponse
  id_list : List Bytes → PeerSyncResponse
  payload : List Bytes → PeerSyncResponse

pub data PeerSyncState : Type 0 where
  idle offering awaiting_payload completed failed : PeerSyncState

pub record PeerSyncSession : Type 0 where
  pub state : PeerSyncState
  pub available : List Bytes
  pub last_offer : List Bytes

unfoldable pub new_session : PeerSyncSession
new_session = record { state = idle; available = []; last_offer = [] }

unfoldable pub make_offer :
    {F : Type 0} → PeerSyncSession → Bytes → List Bytes → PeerSyncSession × PeerSyncRequest F
make_offer s peering_key available = (
  record { state = offering; available = available; last_offer = available },
  offer peering_key available,
)

unfoldable pub on_session_response : PeerSyncSession → PeerSyncResponse → PeerSyncSession
on_session_response s (bool true) = record s { state = awaiting_payload }
on_session_response s (id_list ids) = record s { state = awaiting_payload }
on_session_response s (bool false) = record s { state = completed }
on_session_response s (payload items) = record s { state = completed }
on_session_response s (error code) = record s { state = failed }
