-- ===== src/Tests/Containers.antt =====
-- Examples for the container of a message, of lxmf-rs/src/message.rs.
use Prim.Native.String.{String}
use lxmf_rs.Prelude.{
  ◌≡◌, refl, sym, ap, Bool, true, false, some, inl, inr, ◌⊎◌, [], ◌∷◌, ◌++◌, arith, Bytes,
  replicate, ◌==◌, if◌then◌else◌,
}
use lxmf_rs.Wire.Errors.{Result, ok, LxmfError}
use lxmf_rs.Wire.Value.{Value, Msgpack, nil, dict}
use lxmf_rs.Message.{LxMessage, new}
use lxmf_rs.Message.Wire.{encode_with_signature, pack_payload, pack_payload_values}
use lxmf_rs.Message.Signed.{payload, as_received}
use lxmf_rs.Message.Container.{container_value, packed_container, unpack_from_container}
use lxmf_rs.Message.Unpacked.{unpack_from_container-packed_container}
use lxmf_rs.Tests.{toy_float, toy_crypto, no_text, hash16}

abbrev is_dict : Value toy_float → Bool
is_dict (dict es) = true
is_dict nil = false
is_dict _ = false

abbrev write_two : Value toy_float → Bytes
write_two x = (if is_dict x then 2 else 1) ∷ []

abbrev read_two : Value toy_float → Value toy_float → Bytes → Result String (Value toy_float)
read_two v w [] = ok v
read_two v w (b ∷ bs) = if b == 2 then ok w else ok v

read-write_two :
    (v w x : Value toy_float)
    → ((is_dict x ≡ true) × (x ≡ w)) ⊎ ((is_dict x ≡ false) × (x ≡ v))
    → read_two v w (write_two x) ≡ ok x
read-write_two v w x (inl h) = rw h.0 (ap ok (sym h.1))
read-write_two v w x (inr h) = rw h.0 (ap ok (sym h.1))

-- Reads one value that is a map and one that is none.
abbrev codec_of_two : Value toy_float → Value toy_float → Msgpack toy_float
codec_of_two v w = record {
  write_value = write_two;
  read_value = read_two v w;
  Encodable = λ x. ((is_dict x ≡ true) × (x ≡ w)) ⊎ ((is_dict x ≡ false) × (x ≡ v));
  read-write = read-write_two v w;
  length-write_value = λ x. omega arith;
}

abbrev signed : LxMessage toy_float
signed = record (new (hash16 1) (hash16 2)) {
  content = 73 ∷ 74 ∷ [];
  signature = some (replicate 64 7);
  state = 4;
  method = some 2;
  transport_encrypted = some true;
  transport_encryption = some "Curve25519";
}

abbrev signed_bytes : Bytes
signed_bytes = hash16 1 ++ (hash16 2 ++ (replicate 64 7 ++ 1 ∷ []))

abbrev disk : Msgpack toy_float
disk = codec_of_two (payload signed) (container_value signed signed_bytes)

ok_is : (a b : Bytes) → ◌≡◌ {A = Result LxmfError Bytes} (ok a) (ok b) → a ≡ b
ok_is a b e = cc

unpack_from_container-packed_container_example :
    (packed : Bytes) × (packed_container disk signed ≡ ok packed)
    × (unpack_from_container toy_crypto disk no_text packed
        ≡ ok (record (as_received toy_crypto disk signed) {
          state = 4;
          method = some 2;
          transport_encrypted = some true;
          transport_encryption = some "Curve25519";
        }))
unfolding container_value encode_with_signature pack_payload pack_payload_values new
unpack_from_container-packed_container_example =
    unpack_from_container-packed_container toy_crypto disk no_text signed (replicate 64 7)
      (record { length-destination = refl; length-source = refl }) refl refl (omega arith)
      (omega arith) (inr (refl, refl))
      (λ bytes h. inl (refl, ap (container_value signed) (sym (ok_is signed_bytes bytes h))))
