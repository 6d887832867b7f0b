-- ===== src/Message/Unpacked.antt =====
-- A message that is written to a file and read again, of lxmf-rs/src/message.rs.
use Prim.Native.String.{String}
use lxmf_rs.Prelude.{
  ℕ, ◌<◌, ◌≡◌, refl, sym, ap, ◌∙◌, Bool, Option, none, some, ◌++◌, arith, Bytes, length, is_some,
}
use lxmf_rs.Crypto.{Crypto}
use lxmf_rs.Wire.Errors.{Result, ok, ◌>>=◌, LxmfError}
use lxmf_rs.Wire.Value.{Float, Msgpack, Entries, stop}
use lxmf_rs.Message.{LxMessage}
use lxmf_rs.Message.Wire.{encode_with_signature, decode, pack_payload, pack_payload_values}
use lxmf_rs.Message.Signed.{IsAddressed, payload, as_received, decode-frame, decode_parts-payload}
use lxmf_rs.Message.Container.{
  Found, nothing_found, as_byte, method_entry, encrypted_entry, encryption_entry, container_value,
  read_bytes, read_state, read_method, read_encrypted, read_encryption, read_entry, read_key,
  read_entries, read_container, packed_container, decode_found, unpack_from_container,
}

abbrev pub IsByte : Option ℕ → Type 0
IsByte none = Unit
IsByte (some n) = n < 256

as_byte-some : (n : ℕ) → n < 256 → as_byte (some n) ≡ some n
unfolding as_byte
as_byte-some n h = ground arith

-- The optional entries, read one after another.
read_encryption_entry :
    (fl : Float) (f : Found) (text : Option String)
    → f.transport_encryption ≡ none
    → read_entries f (encryption_entry {fl = fl} text stop)
      ≡ record f { transport_encryption = text }
unfolding read_entries read_key read_entry read_encryption
read_encryption_entry fl f none e = rw (sym e) refl
read_encryption_entry fl f (some text) e = refl

module _ {fl : Float} where
  read_encrypted_entry :
      (f : Found) (flag : Option Bool) (rest : Entries fl)
      → f.transport_encrypted ≡ none
      → read_entries f (encrypted_entry flag rest)
        ≡ read_entries (record f { transport_encrypted = flag }) rest
  unfolding read_entries read_key read_entry read_encrypted
  read_encrypted_entry f none rest e = rw (sym e) refl
  read_encrypted_entry f (some flag) rest e = refl

  read_method_entry :
      (f : Found) (method : Option ℕ) (rest : Entries fl)
      → f.method ≡ none
      → IsByte method
      → read_entries f (method_entry method rest) ≡ read_entries (record f { method = method }) rest
  unfolding read_entries read_key read_entry read_method
  read_method_entry f none rest e h = rw (sym e) refl
  read_method_entry f (some n) rest e h =
      ap (λ o. read_entries (record f { method = o }) rest) (as_byte-some n h)

  read_container-container_value :
      (m : LxMessage fl) (bytes : Bytes)
      → m.state < 256
      → IsByte m.method
      → read_container (container_value m bytes)
        ≡ ok (record {
          lxmf_bytes = some bytes;
          state = some m.state;
          method = m.method;
          transport_encrypted = m.transport_encrypted;
          transport_encryption = m.transport_encryption;
        })
  unfolding read_container container_value read_entries read_key read_entry read_bytes read_state
  read_container-container_value m bytes h k =
      let found : Option ℕ → Found =
        λ o. record nothing_found { lxmf_bytes = some bytes; state = o } in
      let last : Entries fl = encryption_entry m.transport_encryption stop in
      let later : Entries fl = encrypted_entry m.transport_encrypted last in
      let start = found (some m.state) in
      ap (λ o. ok (read_entries (found o) (method_entry m.method later))) (as_byte-some m.state h)
      ∙ ap ok (
          read_method_entry start m.method later refl k
          ∙ read_encrypted_entry (record start { method = m.method }) m.transport_encrypted last
              refl
          ∙ read_encryption_entry fl
              (record start { method = m.method; transport_encrypted = m.transport_encrypted })
              m.transport_encryption refl)

-- The message with what its container says beside it.
abbrev marked : {fl : Float} → LxMessage fl → LxMessage fl → Result LxmfError (LxMessage fl)
marked m r = ok (record r {
  state = m.state;
  method = m.method;
  transport_encrypted = m.transport_encrypted;
  transport_encryption = m.transport_encryption;
})

module _ {fl : Float} (cr : Crypto) (codec : Msgpack fl) (utf8 : String → Bytes) where
  -- A message that is signed comes back from its container as a receiver would get it, with its
  -- state, its method and its marks of encryption; if its hashes have 16 bytes, its signature 64, its
  -- state and its method are bytes, and the payload and the container are within the limits of the
  -- format.
  pub unpack_from_container-packed_container :
      (m : LxMessage fl) (signature : Bytes)
      → IsAddressed m
      → m.signature ≡ some signature
      → length signature ≡ 64
      → m.state < 256
      → IsByte m.method
      → codec.Encodable (payload m)
      → ((bytes : Bytes)
          → encode_with_signature codec m ≡ ok bytes
          → codec.Encodable (container_value m bytes))
      → (packed : Bytes) × (packed_container codec m ≡ ok packed)
        × (unpack_from_container cr codec utf8 packed
            ≡ ok (record (as_received cr codec m) {
              state = m.state;
              method = m.method;
              transport_encrypted = m.transport_encrypted;
              transport_encryption = m.transport_encryption;
            }))
  unfolding packed_container unpack_from_container encode_with_signature pack_payload
      pack_payload_values decode_found
  unpack_from_container-packed_container m signature a s l h k p c =
      let bytes =
        m.destination_hash
        ++ (m.source_hash ++ (signature ++ pack_payload codec m (is_some m.stamp))) in
      let encoded : encode_with_signature codec m ≡ ok bytes = rw s refl in
      let decoded : decode cr codec utf8 bytes ≡ ok (as_received cr codec m) =
        decode-frame cr codec utf8 m.destination_hash m.source_hash signature _ a.length-destination
          a.length-source l (codec.length-write_value (payload m))
        ∙ decode_parts-payload cr codec utf8 m signature s p in
      (
        codec.write_value (container_value m bytes),
        rw s refl,
        rw (codec.read-write (container_value m bytes) (c bytes encoded)) (
            ap (λ r. r >>= decode_found cr codec utf8) (read_container-container_value m bytes h k)
            ∙ ap (λ r. r >>= marked m) decoded),
      )
