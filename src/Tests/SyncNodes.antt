-- ===== src/Tests/SyncNodes.antt =====
-- Examples for the peer sync handlers of lxmf-rs/src/rns/router.rs.
use Prim.Native.String.{String}
use lxmf_rs.Prelude.{ℕ, ◌≡◌, refl, subst, Option, none, some, [], ◌∷◌, arith, Bytes, Bytes-discrete}
use lxmf_rs.Prelude.HashMap.{get, has}
use lxmf_rs.Wire.Errors.{ok}
use lxmf_rs.Wire.Value.{Msgpack}
use lxmf_rs.Propagation.{PropagationStore, PropagationEntry, get_entry}
use lxmf_rs.Propagation
use lxmf_rs.Propagation.Codec.{
  IsWhole, completed, propagation_entry_to_value, propagation_entry_to_bytes,
  propagation_entry_from_bytes, propagation_entry-from-to_bytes,
}
use lxmf_rs.Router.SyncNode.{LxmfRouter, accepts_key}
use lxmf_rs.Router.SyncNode.Payload.{apply_peer_sync_payload}
use lxmf_rs.Router.SyncNode.Taken.{AreWhole}
use lxmf_rs.Router.SyncNode.Exchange.{exchange, first_copy, get_entry-exchange}
use lxmf_rs.Router.SyncNode.Stamped.{IsKept, apply_peer_sync_payload-IsKept}
use lxmf_rs.Sync.{PeerSyncResponse, payload}
use lxmf_rs.Tests.{toy_float, toy_crypto, codec_of, hash16, hash32}

abbrev kept : PropagationEntry toy_float
kept = record {
  transient_id = hash32 1;
  lxm_data = hash32 4;
  timestamp = 10;
  destination_hash = none;
  filepath = some "path";
  msg_size = some 32;
}

abbrev wire : Msgpack toy_float
wire = codec_of (propagation_entry_to_value kept)

kept-IsWhole : IsWhole wire kept
kept-IsWhole = record { length-id = refl; hash = tt; size = omega arith; encodable = refl }

propagation_entry-from-to_bytes_example :
    propagation_entry_from_bytes wire (propagation_entry_to_bytes wire kept)
    ≡ ok (completed wire kept)
propagation_entry-from-to_bytes_example = propagation_entry-from-to_bytes wire kept kept-IsWhole

abbrev empty_node : LxmfRouter toy_float
empty_node = record {
  peers = record { peers = [] };
  propagation_store = Propagation.new;
  client_propagation_messages_served = 0;
  peering_validation = none;
  propagation_validation = none;
  locally_processed = [];
}

abbrev full_node : LxmfRouter toy_float
full_node = record empty_node {
  propagation_store = record (Propagation.new {fl = toy_float}) { entries = (hash32 1, kept) ∷ [] };
}

abbrev filename : Bytes → ℕ → ℕ → String
filename id time value = "file"

kept_is :
    (e : PropagationEntry toy_float)
    → ◌≡◌ {A = Option (PropagationEntry toy_float)} (some kept) (some e)
    → kept ≡ e
kept_is e h = cc

full_node-AreWhole : AreWhole toy_crypto wire filename full_node.propagation_store
unfolding get_entry get
full_node-AreWhole id e h = elim (Bytes-discrete (hash32 1) id) [
  | yes p ↦
      subst (λ x. IsWhole wire x × (x.transient_id ≡ id)) (kept_is e (ground arith))
        (kept-IsWhole, p)
  | no n ↦ absurd (ground arith)
]

-- The node that has a message offers it to one that has none.
get_entry-exchange_example :
    get_entry
      (exchange toy_crypto wire filename full_node empty_node
        (hash16 1)
        (hash16 2)
        (hash16 3)
        50).propagation_store
      (hash32 1)
    ≡ some (
        first_copy toy_crypto wire filename
          (get_entry empty_node.propagation_store (hash32 1))
          (completed wire kept))
unfolding accepts_key get_entry get has Bytes-discrete
get_entry-exchange_example =
    get_entry-exchange toy_crypto wire filename full_node empty_node (hash16 1) (hash16 2)
      (hash16 3) 50 (hash32 1) kept full_node-AreWhole refl refl (λ n. refl) refl

abbrev careful_node : LxmfRouter toy_float
careful_node = record empty_node {
  propagation_validation = some (record { stamp_cost = 16; stamp_cost_flex = 3 });
}

abbrev sent : PeerSyncResponse
sent = payload (propagation_entry_to_bytes wire kept ∷ [])

-- The node that asks for stamps gets a message without one.
apply_peer_sync_payload-IsKept_example :
    IsKept toy_crypto wire filename 13 careful_node.propagation_store (hash32 1) (
      get_entry
        (apply_peer_sync_payload toy_crypto wire filename careful_node
          (hash16 1)
          sent
          50).0.propagation_store
        (hash32 1))
apply_peer_sync_payload-IsKept_example =
    apply_peer_sync_payload-IsKept toy_crypto wire filename careful_node
      (record { stamp_cost = 16; stamp_cost_flex = 3 }) (hash16 1) sent 50 (hash32 1) refl
