-- ===== src/Propagation.antt =====
-- `PropagationStore` of lxmf-rs/src/rns/storage.rs: the messages that a propagation node keeps for
-- others, with the value of each stamp, a file name, and the peers that have it or are to get it. The
-- form of a file name is a parameter.
pub mod Tables
pub mod Peers
pub mod Codec
use Prim.Native.String.{String}
use lxmf_rs.Prelude.{
  ℕ, ◌+◌, ◌-◌, Bool, true, false, Option, none, some, List, [], ◌∷◌, Bytes, Bytes-discrete, leb,
  if◌then◌else◌, is_empty, length, map, retain,
}
use lxmf_rs.Prelude.HashMap.{get, insert, remove, has, keys, remove_all, contains, add, delete}
use lxmf_rs.Crypto.{Crypto}
use lxmf_rs.Stamp.{validate_pn_stamp}
use lxmf_rs.Wire.Value.{Float, Msgpack}

pub record PropagationEntry (fl : Float) : Type 0 where
  pub transient_id : Bytes
  pub lxm_data : Bytes
  pub timestamp : fl.F64
  pub destination_hash : Option Bytes
  pub filepath : Option String
  pub msg_size : Option ℕ

-- The peers of each message: `HashMap<[u8; 32], HashSet<[u8; 16]>>`.
abbrev pub PeerSets : Type 0
PeerSets = List (Bytes × List Bytes)

pub record PropagationStore (fl : Float) : Type 0 where
  pub entries : List (Bytes × PropagationEntry fl)
  pub stamp_values : List (Bytes × ℕ)
  pub filenames : List (Bytes × String)
  pub handled_peers : PeerSets
  pub unhandled_peers : PeerSets

-- `.entry(id).or_insert_with(HashSet::new).insert(peer)`, and whether the peer is new.
unfoldable pub add_to : PeerSets → Bytes → Bytes → PeerSets × Bool
add_to sets id peer = elim (get Bytes-discrete id sets) [
  | none ↦ (insert Bytes-discrete id (peer ∷ []) sets, true)
  | some peers ↦ (
    insert Bytes-discrete id (add Bytes-discrete peer peers) sets,
    if contains Bytes-discrete peer peers then false else true,
  )
]

-- A set that is left empty goes too.
unfoldable pub take_from : PeerSets → Bytes → Bytes → PeerSets
take_from sets id peer = elim (get Bytes-discrete id sets) [
  | none ↦ sets
  | some peers ↦
      let left = delete Bytes-discrete peer peers in
      if is_empty left then remove Bytes-discrete id sets else insert Bytes-discrete id left sets
]

unfoldable pub is_in : PeerSets → Bytes → Bytes → Bool
is_in sets id peer = elim (get Bytes-discrete id sets) [
  | none ↦ false
  | some peers ↦ contains Bytes-discrete peer peers
]

unfoldable pub messages_of : PeerSets → Bytes → List Bytes
messages_of sets peer = keys Bytes-discrete (retain (λ e. contains Bytes-discrete peer e.1) sets)

module _ {fl : Float} where
  unfoldable pub new : PropagationStore fl
  new = record {
    entries = [];
    stamp_values = [];
    filenames = [];
    handled_peers = [];
    unhandled_peers = [];
  }

  unfoldable pub insert_with_stamp_value_and_filename :
      PropagationStore fl → PropagationEntry fl → ℕ → String → PropagationStore fl
  insert_with_stamp_value_and_filename s entry stamp_value filename = record s {
    stamp_values = insert Bytes-discrete entry.transient_id stamp_value s.stamp_values;
    filenames = insert Bytes-discrete entry.transient_id filename s.filenames;
    entries = insert Bytes-discrete entry.transient_id entry s.entries;
  }

  unfoldable pub has_entry : PropagationStore fl → Bytes → Bool
  has_entry s transient_id = has Bytes-discrete transient_id s.entries

  unfoldable pub get_entry : PropagationStore fl → Bytes → Option (PropagationEntry fl)
  get_entry s transient_id = get Bytes-discrete transient_id s.entries

  -- The peers of the message stay.
  unfoldable pub remove_entry :
      PropagationStore fl → Bytes → PropagationStore fl × Option (PropagationEntry fl)
  remove_entry s transient_id = (
    record s {
      stamp_values = remove Bytes-discrete transient_id s.stamp_values;
      filenames = remove Bytes-discrete transient_id s.filenames;
      entries = remove Bytes-discrete transient_id s.entries;
    },
    get Bytes-discrete transient_id s.entries,
  )

  unfoldable pub stamp_value_of : PropagationStore fl → Bytes → Option ℕ
  stamp_value_of s transient_id = get Bytes-discrete transient_id s.stamp_values

  unfoldable pub filename_of : PropagationStore fl → Bytes → Option String
  filename_of s transient_id = get Bytes-discrete transient_id s.filenames

  unfoldable pub is_old : ℕ → Bytes × PropagationEntry fl → Bool
  is_old cutoff e = leb (fl.millis e.1.timestamp) cutoff

  -- The store without the old messages, and how many they were.
  unfoldable pub remove_older_than : PropagationStore fl → ℕ → ℕ → PropagationStore fl × ℕ
  unfolding is_old
  remove_older_than s now_ms max_age_ms =
      let old = keys Bytes-discrete (retain (is_old (now_ms - max_age_ms)) s.entries) in
      (
        record {
          stamp_values = remove_all Bytes-discrete old s.stamp_values;
          filenames = remove_all Bytes-discrete old s.filenames;
          handled_peers = remove_all Bytes-discrete old s.handled_peers;
          unhandled_peers = remove_all Bytes-discrete old s.unhandled_peers;
          entries = remove_all Bytes-discrete old s.entries;
        },
        length old,
      )

  unfoldable pub add_handled_peer : PropagationStore fl → Bytes → Bytes → PropagationStore fl × Bool
  unfolding add_to has_entry
  add_handled_peer s id peer =
      let added = add_to s.handled_peers id peer in
      if has_entry s id then (record s { handled_peers = added.0 }, added.1) else (s, false)

  unfoldable pub remove_handled_peer : PropagationStore fl → Bytes → Bytes → PropagationStore fl
  unfolding take_from has_entry
  remove_handled_peer s id peer =
      if has_entry s id then record s { handled_peers = take_from s.handled_peers id peer } else s

  unfoldable pub is_peer_handled : PropagationStore fl → Bytes → Bytes → Bool
  unfolding is_in
  is_peer_handled s id peer = is_in s.handled_peers id peer

  unfoldable pub add_unhandled_peer :
      PropagationStore fl → Bytes → Bytes → PropagationStore fl × Bool
  unfolding add_to has_entry
  add_unhandled_peer s id peer =
      let added = add_to s.unhandled_peers id peer in
      if has_entry s id then (record s { unhandled_peers = added.0 }, added.1) else (s, false)

  unfoldable pub remove_unhandled_peer : PropagationStore fl → Bytes → Bytes → PropagationStore fl
  unfolding take_from has_entry
  remove_unhandled_peer s id peer =
      if has_entry s id
      then record s { unhandled_peers = take_from s.unhandled_peers id peer }
      else s

  unfoldable pub is_peer_unhandled : PropagationStore fl → Bytes → Bytes → Bool
  unfolding is_in
  is_peer_unhandled s id peer = is_in s.unhandled_peers id peer

  unfoldable pub handled_messages_for_peer : PropagationStore fl → Bytes → List Bytes
  unfolding messages_of
  handled_messages_for_peer s peer = messages_of s.handled_peers peer

  unfoldable pub unhandled_messages_for_peer : PropagationStore fl → Bytes → List Bytes
  unfolding messages_of
  unhandled_messages_for_peer s peer = messages_of s.unhandled_peers peer

module _ {fl : Float} (cr : Crypto) (codec : Msgpack fl)
    (entry_filename : Bytes → fl.F64 → ℕ → String) where
  unfoldable pub insert_with_stamp_value :
      PropagationStore fl → PropagationEntry fl → ℕ → PropagationStore fl
  unfolding insert_with_stamp_value_and_filename
  insert_with_stamp_value s entry stamp_value =
      insert_with_stamp_value_and_filename s entry stamp_value
        (entry_filename entry.transient_id entry.timestamp stamp_value)

  unfoldable pub insert_entry : PropagationStore fl → PropagationEntry fl → PropagationStore fl
  unfolding validate_pn_stamp insert_with_stamp_value
  insert_entry s entry = elim (validate_pn_stamp cr codec entry.lxm_data 0) [
    | none ↦ insert_with_stamp_value s entry 0
    | some stamped ↦ insert_with_stamp_value s entry stamped.2
  ]
