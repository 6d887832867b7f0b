-- ===== src/Message/Container.antt =====
-- A message in a file: `packed_container` and `unpack_from_container` of lxmf-rs/src/message.rs.
use Prim.Native.String.{String}
use text.Mathlib.Text.{◌==◌}
use lxmf_rs.Prelude.{ℕ, Bool, Option, none, some, Bytes, if◌then◌else◌, ltb}
use lxmf_rs.Crypto.{Crypto}
use lxmf_rs.Wire.Errors.{Result, ok, err, ◌>>=◌, LxmfError, invalid_payload}
use lxmf_rs.Wire.Value.{
  Value, Entries, Float, Msgpack, pos, integer, boolean, string, bad_string, binary, dict, entry,
  stop, int_as_u64,
}
use lxmf_rs.Message.{LxMessage, state_generating}
use lxmf_rs.Message.Wire.{encode_with_signature, decode, of_decoder}

-- The variables of `unpack_from_container`.
pub record Found : Type 0 where
  pub lxmf_bytes : Option Bytes
  pub state : Option ℕ
  pub method : Option ℕ
  pub transport_encrypted : Option Bool
  pub transport_encryption : Option String

abbrev pub nothing_found : Found
nothing_found = record {
  lxmf_bytes = none;
  state = none;
  method = none;
  transport_encrypted = none;
  transport_encryption = none;
}

-- `u8::try_from`.
unfoldable pub as_byte : Option ℕ → Option ℕ
as_byte none = none
as_byte (some n) = if ltb n 256 then some n else none

abbrev pub state_or_generating : Option ℕ → ℕ
state_or_generating none = state_generating
state_or_generating (some state) = state

abbrev pub bytes_found : Option Bytes → Result LxmfError Bytes
bytes_found none = err invalid_payload
bytes_found (some b) = ok b

module _ {fl : Float} where
  abbrev pub method_entry : Option ℕ → Entries fl → Entries fl
  method_entry none rest = rest
  method_entry (some method) rest = entry (string "method") (integer (pos method)) rest

  abbrev pub encrypted_entry : Option Bool → Entries fl → Entries fl
  encrypted_entry none rest = rest
  encrypted_entry (some flag) rest = entry (string "transport_encrypted") (boolean flag) rest

  abbrev pub encryption_entry : Option String → Entries fl → Entries fl
  encryption_entry none rest = rest
  encryption_entry (some text) rest = entry (string "transport_encryption") (string text) rest

  unfoldable pub container_value : LxMessage fl → Bytes → Value fl
  container_value m lxmf_bytes = dict (
      entry (string "lxmf_bytes") (binary lxmf_bytes) (
        entry (string "state") (integer (pos m.state)) (
          method_entry m.method (
            encrypted_entry m.transport_encrypted (encryption_entry m.transport_encryption stop)))))

  unfoldable pub read_bytes : Found → Value fl → Found
  read_bytes f (binary b) = record f { lxmf_bytes = some b }
  read_bytes f (boolean b) = f
  read_bytes f _ = f

  unfoldable pub read_state : Found → Value fl → Found
  read_state f (integer i) = record f { state = as_byte (int_as_u64 i) }
  read_state f (boolean b) = f
  read_state f _ = f

  unfoldable pub read_method : Found → Value fl → Found
  read_method f (integer i) = record f { method = as_byte (int_as_u64 i) }
  read_method f (boolean b) = f
  read_method f _ = f

  unfoldable pub read_encrypted : Found → Value fl → Found
  read_encrypted f (boolean b) = record f { transport_encrypted = some b }
  read_encrypted f (integer i) = f
  read_encrypted f _ = f

  unfoldable pub read_encryption : Found → Value fl → Found
  read_encryption f (string s) = record f { transport_encryption = some s }
  read_encryption f (bad_string b) = record f { transport_encryption = none }
  read_encryption f _ = f

  unfoldable pub read_entry : Found → String → Value fl → Found
  unfolding read_bytes read_state read_method read_encrypted read_encryption as_byte
  read_entry f key v =
      if key == "lxmf_bytes"
      then read_bytes f v
      else if key == "state"
      then read_state f v
      else if key == "method"
      then read_method f v
      else if key == "transport_encrypted"
      then read_encrypted f v
      else if key == "transport_encryption"
      then read_encryption f v
      else f

  -- An entry whose key is no text is passed over.
  unfoldable pub read_key : Found → Value fl → Value fl → Found
  unfolding read_entry
  read_key f (string key) v = read_entry f key v
  read_key f (bad_string b) v = f
  read_key f _ v = f

  unfoldable pub read_entries : Found → Entries fl → Found
  unfolding read_key
  read_entries f stop = f
  read_entries f (entry k v es) = read_entries (read_key f k v) es

  -- `let entries = match value { … }` and the loop.
  unfoldable pub read_container : Value fl → Result LxmfError Found
  unfolding read_entries
  read_container (dict es) = ok (read_entries nothing_found es)
  read_container (boolean b) = err invalid_payload
  read_container _ = err invalid_payload

module _ {fl : Float} (codec : Msgpack fl) where
  unfoldable pub packed_container : LxMessage fl → Result LxmfError Bytes
  unfolding encode_with_signature container_value
  packed_container m = do
    lxmf_bytes ← encode_with_signature codec m
    ok (codec.write_value (container_value m lxmf_bytes))

module _ {fl : Float} (cr : Crypto) (codec : Msgpack fl) (utf8 : String → Bytes) where
  -- What stands after the loop.
  unfoldable pub decode_found : Found → Result LxmfError (LxMessage fl)
  unfolding decode
  decode_found found = do
    lxmf_bytes ← bytes_found found.lxmf_bytes
    m ← decode cr codec utf8 lxmf_bytes
    ok (record m {
      state = state_or_generating found.state;
      method = found.method;
      transport_encrypted = found.transport_encrypted;
      transport_encryption = found.transport_encryption;
    })

  unfoldable pub unpack_from_container : Bytes → Result LxmfError (LxMessage fl)
  unfolding read_container decode_found
  unpack_from_container bytes = do
    value ← of_decoder (codec.read_value bytes)
    found ← read_container value
    decode_found found
