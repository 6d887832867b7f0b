-- ===== src/Message/Stamps.antt =====
-- The stamp of a message, of lxmf-rs/src/message.rs: made by the sender, checked by the receiver. The
-- stamp follows from a ticket that both hold, or is a proof of work.
use lxmf_rs.Prelude.{
  ℕ, Bool, true, false, Option, none, some, ◌++◌, Bytes, Bytes-discrete, ◌==◌, ◌&&◌, if◌then◌else◌,
  length,
}
use lxmf_rs.Crypto.{Crypto, Signing}
use lxmf_rs.Stamp.{generate_stamp, stamp_workblock, workblock_expand_rounds}
use lxmf_rs.Stamp
use lxmf_rs.Wire.Errors.{Result, ok, err, ◌>>=◌, LxmfError, missing_signature, invalid_payload}
use lxmf_rs.Wire.Value.{Float, Msgpack}
use lxmf_rs.Message.{LxMessage}
use lxmf_rs.Message.Wire.{
  truncated_hash, message_id_of, signed_part_of, encode_with_signature, ok_or,
}

-- TICKET_LENGTH and COST_TICKET of lxmf-rs/src/constants.rs.
abbrev pub ticket_length : ℕ
ticket_length = 16

abbrev pub cost_ticket : ℕ
cost_ticket = 0x100

-- `==` on slices.
abbrev pub same_bytes : Bytes → Bytes → Bool
same_bytes a b = elim (Bytes-discrete a b) [ yes _ ↦ true | no _ ↦ false ]

-- A message with a stamp that is known to be good.
unfoldable pub with_stamp : {fl : Float} → LxMessage fl → Bytes → ℕ → LxMessage fl
with_stamp m stamp value = record m {
  stamp = some stamp;
  stamp_value = some value;
  stamp_valid = true;
  stamp_checked = true;
}

module _ {fl : Float} (cr : Crypto) (codec : Msgpack fl) (random : ℕ → Bytes) where
  -- What `generate_stamp` found, if it found a stamp.
  unfoldable pub with_found : LxMessage fl → Option Bytes × ℕ → LxMessage fl
  unfolding with_stamp
  with_found m (none, value) = m
  with_found m (some stamp, value) = with_stamp m stamp value

  -- The parts of `ensure_stamp`, each by the field of the message that it looks at.
  unfoldable pub stamp_by_cost : Option ℕ → LxMessage fl → Bytes → LxMessage fl
  unfolding with_found
  stamp_by_cost none m message_id = m
  stamp_by_cost (some cost) m message_id =
      with_found m (generate_stamp cr codec random message_id cost workblock_expand_rounds)

  unfoldable pub stamp_by_ticket : Option Bytes → LxMessage fl → Bytes → LxMessage fl
  unfolding with_stamp stamp_by_cost truncated_hash
  stamp_by_ticket none m message_id = stamp_by_cost m.stamp_cost m message_id
  stamp_by_ticket (some ticket) m message_id =
      if length ticket == ticket_length
      then with_stamp m (truncated_hash cr (ticket ++ message_id)) cost_ticket
      else stamp_by_cost m.stamp_cost m message_id

  unfoldable pub stamp_unless :
      Option Bytes → Option Bytes → LxMessage fl → Result LxmfError (LxMessage fl)
  unfolding stamp_by_ticket
  stamp_unless (some _) message_id m = ok m
  stamp_unless none message_id m = do
    id ← ok_or missing_signature message_id
    ok (stamp_by_ticket m.outbound_ticket m id)

  unfoldable pub ensure_stamp : LxMessage fl → Result LxmfError (LxMessage fl)
  unfolding stamp_unless
  ensure_stamp m = stamp_unless m.stamp m.message_id m

  -- The message is `&mut self`: it is changed on an error too.
  unfoldable pub sign_and_encode :
      (ed : Signing) → ed.SigningKey → Bytes → LxMessage fl → LxMessage fl × Result LxmfError Bytes
  unfolding encode_with_signature
  sign_and_encode ed key signed_part m =
      let m' = record m { signature = some (ed.sign key signed_part) } in
      (m', encode_with_signature codec m')

  -- `if !self.defer_stamp { self.ensure_stamp()? }`.
  unfoldable pub stamp_unless_deferred : Bool → LxMessage fl → Result LxmfError (LxMessage fl)
  unfolding ensure_stamp
  stamp_unless_deferred true m = ok m
  stamp_unless_deferred false m = ensure_stamp m

  unfoldable pub encode_signed :
      (ed : Signing) → ed.SigningKey → LxMessage fl → LxMessage fl × Result LxmfError Bytes
  unfolding sign_and_encode message_id_of signed_part_of stamp_unless_deferred
  encode_signed ed key m =
      let m1 = record m { message_id = some (message_id_of cr codec m) } in
      elim (stamp_unless_deferred m.defer_stamp m1) [
        | err e ↦ (m1, err e)
        | ok m2 ↦ sign_and_encode ed key (signed_part_of cr codec m) m2
      ]

module _ {fl : Float} (cr : Crypto) (codec : Msgpack fl) where
  unfoldable pub check_cost :
      LxMessage fl → Bytes → Bytes → Option ℕ → LxMessage fl × Result LxmfError Bool
  unfolding Stamp.stamp_valid Stamp.stamp_value
  check_cost m message_id stamp none = (record m { stamp_valid = false }, ok false)
  check_cost m message_id stamp (some cost) =
      elim (stamp_workblock cr codec message_id workblock_expand_rounds) [
        | none ↦ (m, err invalid_payload)
        | some workblock ↦
            if Stamp.stamp_valid cr workblock stamp cost
            then (
              record m {
                stamp_value = some (Stamp.stamp_value cr workblock stamp);
                stamp_valid = true;
              },
              ok true,
            )
            else (record m { stamp_valid = false }, ok false)
      ]

  unfoldable pub is_ticket_stamp : Bytes → Bytes → Bytes → Bool
  unfolding truncated_hash
  is_ticket_stamp ticket message_id stamp =
      length ticket == ticket_length
      && (length stamp == ticket_length
          && same_bytes (truncated_hash cr (ticket ++ message_id)) stamp)

  unfoldable pub check_stamp :
      LxMessage fl → Bytes → Bytes → Option ℕ → Option Bytes → LxMessage fl × Result LxmfError Bool
  unfolding check_cost is_ticket_stamp
  check_stamp m message_id stamp stamp_cost none = check_cost m message_id stamp stamp_cost
  check_stamp m message_id stamp stamp_cost (some ticket) =
      if is_ticket_stamp ticket message_id stamp
      then (record m { stamp_value = some cost_ticket; stamp_valid = true }, ok true)
      else check_cost m message_id stamp stamp_cost

  unfoldable pub validate_given :
      Option Bytes → LxMessage fl → Option ℕ → Option Bytes → LxMessage fl × Result LxmfError Bool
  unfolding check_stamp message_id_of
  validate_given none m stamp_cost ticket =
      (record m { stamp_checked = true; stamp_valid = false }, ok false)
  validate_given (some stamp) m stamp_cost ticket =
      let id = message_id_of cr codec m in
      check_stamp (record m { stamp_checked = true; message_id = some id }) id stamp stamp_cost
        ticket

  unfoldable pub validate_stamp :
      LxMessage fl → Option ℕ → Option Bytes → LxMessage fl × Result LxmfError Bool
  unfolding validate_given
  validate_stamp m stamp_cost ticket = validate_given m.stamp m stamp_cost ticket
