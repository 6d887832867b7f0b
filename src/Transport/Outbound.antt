-- ===== src/Transport/Outbound.antt =====
-- `RnsOutbound` and `RnsCryptoPolicy::check_outbound` of lxmf-rs/src/rns/transport.rs: a message is
-- checked, signed, encrypted where its mode asks for that, and becomes a packet, a resource or a URI.
-- The packets and the encryption of the crate `reticulum` are parameters.
use Prim.Native.String.{String}
use lxmf_rs.Prelude.{
  ℕ, ◌≤◌, ◌≡◌, Bool, true, false, none, some, Bytes, length, drop, leb, ◌==◌, if◌then◌else◌,
}
use lxmf_rs.Crypto.{Crypto, Signing}
use lxmf_rs.Wire.Errors.{
  Result, ok, err, LxmfError, RnsError, lxmf, invalid_destination_hash, crypto_policy_violation,
  DeliveryMode, opportunistic, direct, propagated, paper, RnsCryptoPolicy, allow_plaintext,
  enforce_ratchets,
}
use lxmf_rs.Wire.Value.{Float, Msgpack}
use lxmf_rs.Message.{LxMessage}
use lxmf_rs.Message.Stamps.{encode_signed}
use lxmf_rs.Message.Packed.{
  paper_packed_from_encrypted, propagation_packed_from_encrypted, as_uri_from_paper,
}

-- The constants of lxmf-rs/src/constants.rs.
abbrev pub repr_packet : ℕ
repr_packet = 0x01

abbrev pub repr_resource : ℕ
repr_resource = 0x02

abbrev pub method_opportunistic : ℕ
method_opportunistic = 0x01

abbrev pub method_direct : ℕ
method_direct = 0x02

abbrev pub method_propagated : ℕ
method_propagated = 0x03

abbrev pub method_paper : ℕ
method_paper = 0x05

-- `PACKET_MDU` and `PacketDataBuffer::write` of the crate `reticulum`: a buffer takes what fits.
pub record Buffers : Type 0 where
  pub packet_mdu : ℕ
  pub write : Bytes → Result RnsError Bytes
  pub write_fits : (b : Bytes) → length b ≤ packet_mdu → write b ≡ ok b

-- `EncryptHook`; the first argument of `encrypt` is the destination.
pub record EncryptHook : Type 0 where
  pub encrypt : Bytes → Bytes → Result RnsError Bytes
  pub provides_encryption : Bool

-- `NullEncryptor`.
unfoldable pub null_encryptor : EncryptHook
null_encryptor = record { encrypt = λ d plaintext. ok plaintext; provides_encryption = false }

-- The address hashes of the two destinations.
pub record RnsOutbound : Type 0 where
  pub source : Bytes
  pub destination : Bytes
  pub encryptor : EncryptHook
  pub crypto_policy : RnsCryptoPolicy

-- The rest of a packet's header is the same for all that this code makes.
pub record Packet : Type 0 where
  pub destination : Bytes
  pub payload : Bytes

pub data DeliveryOutput : Type 0 where
  packet : Packet → DeliveryOutput
  resource : Bytes → Bytes → DeliveryOutput
  paper_uri : String → DeliveryOutput

unfoldable pub with_crypto_policy : RnsOutbound → RnsCryptoPolicy → RnsOutbound
with_crypto_policy o policy = record o { crypto_policy = policy }

unfoldable pub no_lxmf_encryption : DeliveryMode → RnsError
no_lxmf_encryption mode =
    crypto_policy_violation enforce_ratchets mode
      "delivery mode does not apply LXMF-layer encryption yet"

unfoldable pub needs_encryption : DeliveryMode → Bool → Result RnsError (Unit {0})
needs_encryption mode true = ok tt
needs_encryption mode false = err (
    crypto_policy_violation enforce_ratchets mode
      "encryptor does not provide encryption (NullEncryptor?)")

unfoldable pub check_outbound :
    RnsCryptoPolicy → DeliveryMode → EncryptHook → Result RnsError (Unit {0})
unfolding no_lxmf_encryption needs_encryption
check_outbound allow_plaintext mode e = ok tt
check_outbound enforce_ratchets opportunistic e = err (no_lxmf_encryption opportunistic)
check_outbound enforce_ratchets direct e = err (no_lxmf_encryption direct)
check_outbound enforce_ratchets propagated e = needs_encryption propagated e.provides_encryption
check_outbound enforce_ratchets paper e = needs_encryption paper e.provides_encryption

unfoldable pub address_hash_to_array : Bytes → Result RnsError Bytes
address_hash_to_array hash = if length hash == 16 then ok hash else err invalid_destination_hash

unfoldable pub packet_from_payload : Buffers → Bytes → Bytes → Result RnsError Packet
packet_from_payload buf destination payload = elim (buf.write payload) [
  | ok written ↦ ok (record { destination = destination; payload = written })
  | err e ↦ err e
]

abbrev pub as_packet : Result RnsError Packet → Result RnsError DeliveryOutput
as_packet (ok p) = ok (packet p)
as_packet (err e) = err e

module _ {fl : Float} where
  unfoldable pub with_source :
      LxMessage fl → Result RnsError Bytes → LxMessage fl × Result RnsError (Unit {0})
  with_source m (ok source) = (record m { source_hash = source }, ok tt)
  with_source m (err e) = (m, err e)

  unfoldable pub with_addresses :
      LxMessage fl
      → Result RnsError Bytes
      → Result RnsError Bytes
      → LxMessage fl × Result RnsError (Unit {0})
  unfolding with_source
  with_addresses m (ok destination) source =
      with_source (record m { destination_hash = destination }) source
  with_addresses m (err e) source = (m, err e)

  unfoldable pub prepare_message :
      RnsOutbound → LxMessage fl → LxMessage fl × Result RnsError (Unit {0})
  unfolding address_hash_to_array with_addresses
  prepare_message o m =
      with_addresses m (address_hash_to_array o.destination) (address_hash_to_array o.source)

  unfoldable pub deliver_as_packet_or_resource :
      Buffers → Bytes → Bytes → LxMessage fl → LxMessage fl × Result RnsError DeliveryOutput
  unfolding packet_from_payload
  deliver_as_packet_or_resource buf destination payload m =
      if leb (length payload) buf.packet_mdu
      then (
        record m { representation = repr_packet },
        as_packet (packet_from_payload buf destination payload),
      )
      else (record m { representation = repr_resource }, ok (resource destination payload))

module _ {fl : Float} (cr : Crypto) (codec : Msgpack fl) (random : ℕ → Bytes) (ed : Signing)
    (k : ed.SigningKey) (buf : Buffers) (base64 : Bytes → String) where
  unfoldable pub deliver_propagated :
      RnsOutbound
      → LxMessage fl
      → Result RnsError Bytes
      → LxMessage fl × Result RnsError DeliveryOutput
  unfolding propagation_packed_from_encrypted deliver_as_packet_or_resource
  deliver_propagated o m (ok encrypted) =
      deliver_as_packet_or_resource buf o.destination
        (propagation_packed_from_encrypted codec m encrypted m.timestamp none) m
  deliver_propagated o m (err e) = (m, err e)

  unfoldable pub deliver_paper :
      LxMessage fl → Result RnsError Bytes → LxMessage fl × Result RnsError DeliveryOutput
  unfolding paper_packed_from_encrypted as_uri_from_paper
  deliver_paper m (ok encrypted) =
      (m, ok (paper_uri (as_uri_from_paper base64 (paper_packed_from_encrypted m encrypted))))
  deliver_paper m (err e) = (m, err e)

  -- The `match mode`.
  unfoldable pub deliver_packed :
      RnsOutbound
      → LxMessage fl
      → Bytes
      → DeliveryMode
      → LxMessage fl × Result RnsError DeliveryOutput
  unfolding deliver_propagated deliver_paper
  deliver_packed o m packed opportunistic =
      deliver_as_packet_or_resource buf o.destination (drop 16 packed)
        (record m { method = some method_opportunistic })
  deliver_packed o m packed direct =
      deliver_as_packet_or_resource buf o.destination packed
        (record m { method = some method_direct })
  deliver_packed o m packed propagated =
      deliver_propagated o (record m { method = some method_propagated })
        (o.encryptor.encrypt o.destination (drop 16 packed))
  deliver_packed o m packed paper =
      deliver_paper (record m { method = some method_paper })
        (o.encryptor.encrypt o.destination (drop 16 packed))

  unfoldable pub deliver_encoded :
      RnsOutbound
      → LxMessage fl × Result LxmfError Bytes
      → DeliveryMode
      → LxMessage fl × Result RnsError DeliveryOutput
  unfolding deliver_packed
  deliver_encoded o (m, ok packed) mode = deliver_packed o m packed mode
  deliver_encoded o (m, err e) mode = (m, err (lxmf e))

  unfoldable pub deliver_prepared :
      RnsOutbound
      → LxMessage fl × Result RnsError (Unit {0})
      → DeliveryMode
      → LxMessage fl × Result RnsError DeliveryOutput
  unfolding deliver_encoded
  deliver_prepared o (m, ok _) mode = deliver_encoded o (encode_signed cr codec random ed k m) mode
  deliver_prepared o (m, err e) mode = (m, err e)

  unfoldable pub deliver_checked :
      RnsOutbound
      → LxMessage fl
      → DeliveryMode
      → Result RnsError (Unit {0})
      → LxMessage fl × Result RnsError DeliveryOutput
  unfolding deliver_prepared prepare_message
  deliver_checked o m mode (ok _) = deliver_prepared o (prepare_message o m) mode
  deliver_checked o m mode (err e) = (m, err e)

  unfoldable pub deliver :
      RnsOutbound → LxMessage fl → DeliveryMode → LxMessage fl × Result RnsError DeliveryOutput
  unfolding deliver_checked check_outbound
  deliver o m mode = deliver_checked o m mode (check_outbound o.crypto_policy mode o.encryptor)
