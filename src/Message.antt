-- ===== src/Message.antt =====
-- lxmf-rs/src/message.rs: the record of an LXMF message. `f64` and MessagePack are parameters.
pub mod Wire
pub mod Stamps
pub mod Signed
pub mod Accepted
pub mod Packed
pub mod Container
pub mod Unpacked
use Prim.Native.String.{String}
use lxmf_rs.Prelude.{ℕ, Bool, true, false, Option, none, some, List, [], Bytes}
use lxmf_rs.Wire.Value.{Value, Float, dict, stop}

-- The states of lxmf-rs/src/constants.rs.
abbrev pub state_generating : ℕ
state_generating = 0x00

abbrev pub state_outbound : ℕ
state_outbound = 0x01

abbrev pub state_sending : ℕ
state_sending = 0x02

abbrev pub state_sent : ℕ
state_sent = 0x04

abbrev pub state_delivered : ℕ
state_delivered = 0x08

abbrev pub state_failed : ℕ
state_failed = 0xff

abbrev pub repr_unknown : ℕ
repr_unknown = 0x00

pub record LxMessage (fl : Float) : Type 0 where
  pub destination_hash : Bytes
  pub source_hash : Bytes
  pub timestamp : fl.F64
  pub title : Bytes
  pub content : Bytes
  pub fields : Value fl
  pub stamp : Option Bytes
  pub stamp_cost : Option ℕ
  pub stamp_value : Option ℕ
  pub stamp_valid : Bool
  pub stamp_checked : Bool
  pub outbound_ticket : Option Bytes
  pub include_ticket : Bool
  pub defer_stamp : Bool
  pub state : ℕ
  pub method : Option ℕ
  pub representation : ℕ
  pub transport_encrypted : Option Bool
  pub transport_encryption : Option String
  pub signature : Option Bytes
  pub message_id : Option Bytes

module _ {fl : Float} where
  unfoldable pub new : Bytes → Bytes → LxMessage fl
  new destination_hash source_hash = record {
    destination_hash = destination_hash;
    source_hash = source_hash;
    timestamp = fl.zero_f64;
    title = [];
    content = [];
    fields = dict stop;
    stamp = none;
    stamp_cost = none;
    stamp_value = none;
    stamp_valid = false;
    stamp_checked = false;
    outbound_ticket = none;
    include_ticket = false;
    defer_stamp = true;
    state = state_generating;
    method = none;
    representation = repr_unknown;
    transport_encrypted = none;
    transport_encryption = none;
    signature = none;
    message_id = none;
  }

  -- `utf8` is `str::as_bytes`.
  unfoldable pub with_strings :
      (String → Bytes) → Bytes → Bytes → fl.F64 → String → String → Value fl → LxMessage fl
  with_strings utf8 destination_hash source_hash timestamp title content fields = record {
    destination_hash = destination_hash;
    source_hash = source_hash;
    timestamp = timestamp;
    title = utf8 title;
    content = utf8 content;
    fields = fields;
    stamp = none;
    stamp_cost = none;
    stamp_value = none;
    stamp_valid = false;
    stamp_checked = false;
    outbound_ticket = none;
    include_ticket = false;
    defer_stamp = true;
    state = state_generating;
    method = none;
    representation = repr_unknown;
    transport_encrypted = none;
    transport_encryption = none;
    signature = none;
    message_id = none;
  }

  unfoldable pub set_outbound_ticket : LxMessage fl → Bytes → LxMessage fl
  set_outbound_ticket m ticket = record m { outbound_ticket = some ticket }

  unfoldable pub set_stamp_cost : LxMessage fl → ℕ → LxMessage fl
  set_stamp_cost m cost = record m { stamp_cost = some cost }

  unfoldable pub set_defer_stamp : LxMessage fl → Bool → LxMessage fl
  set_defer_stamp m defer = record m { defer_stamp = defer }
