-- ===== src/Propagation/Peers.antt =====
-- The peers of a message in `PropagationStore` of lxmf-rs/src/rns/storage.rs.
use lxmf_rs.Prelude.{
  ◌≡◌, refl, ap, sym, ◌∙◌, Bool, true, false, List, [], ◌∷◌, ite, arith, Bytes, Bytes-discrete,
  Bool-cases, Option-cases, none, some, inl, inr, is_empty, if◌then◌else◌,
}
use lxmf_rs.Prelude.HashMap.{
  get, insert, remove, contains, add, delete, get-insert, get-remove, contains-add, contains-delete,
}
use lxmf_rs.Wire.Value.{Float}
use lxmf_rs.Propagation.{
  PropagationStore, PeerSets, is_in, add_to, take_from, has_entry, add_handled_peer,
  remove_handled_peer, is_peer_handled, add_unhandled_peer, remove_unhandled_peer,
  is_peer_unhandled,
}

is_in-insert :
    (sets : PeerSets) (id : Bytes) (peers : List Bytes) (j q : Bytes)
    → is_in (insert Bytes-discrete id peers sets) j q
      ≡ ite (Bytes-discrete id j) (contains Bytes-discrete q peers) (is_in sets j q)
unfolding is_in
is_in-insert sets id peers j q = ground (arith, get-insert Bytes-discrete id j peers sets)

is_in-remove :
    (sets : PeerSets) (id j q : Bytes)
    → is_in (remove Bytes-discrete id sets) j q ≡ ite (Bytes-discrete id j) false (is_in sets j q)
unfolding is_in
is_in-remove sets id j q = ground (arith, get-remove Bytes-discrete id j sets)

is_in_absent :
    (sets : PeerSets) (id q : Bytes) → get Bytes-discrete id sets ≡ none → is_in sets id q ≡ false
unfolding is_in
is_in_absent sets id q e = rw (e, is_in) refl

is_in_present :
    (sets : PeerSets) (id q : Bytes) (peers : List Bytes)
    → get Bytes-discrete id sets ≡ some peers
    → is_in sets id q ≡ contains Bytes-discrete q peers
unfolding is_in
is_in_present sets id q peers e = rw (e, is_in) refl

contains_empty :
    (peers : List Bytes) (q : Bytes)
    → is_empty peers ≡ true
    → contains Bytes-discrete q peers ≡ false
unfolding contains
contains_empty [] q e = refl
contains_empty (p ∷ peers) q e = absurd (cc)

-- The peer sets as a relation: what it is after one pair is put in or taken out.
abbrev pub with_pair : (Bytes → Bytes → Bool) → Bytes → Bytes → Bool → Bytes → Bytes → Bool
with_pair holds id peer now j q =
    ite (Bytes-discrete id j) (ite (Bytes-discrete peer q) now (holds id q)) (holds j q)

is_in-add_to :
    (sets : PeerSets) (id peer j q : Bytes)
    → is_in (add_to sets id peer).0 j q ≡ with_pair (is_in sets) id peer true j q
unfolding add_to contains
is_in-add_to sets id peer j q = elim (Option-cases (get Bytes-discrete id sets)) [
  | inl e ↦
      rw (e, add_to)
        (ground (arith, is_in-insert sets id (peer ∷ []) j q, single, is_in_absent sets id q e))
  | inr (peers, e) ↦
      rw (e, add_to)
        (ground (
          arith,
          is_in-insert sets id (add Bytes-discrete peer peers) j q,
          contains-add Bytes-discrete peer q peers,
          is_in_present sets id q peers e,
        ))
]
  where
    single : contains Bytes-discrete q (peer ∷ []) ≡ ite (Bytes-discrete peer q) true false
    single = refl

is_in-take_from :
    (sets : PeerSets) (id peer j q : Bytes)
    → is_in (take_from sets id peer) j q ≡ with_pair (is_in sets) id peer false j q
unfolding take_from
is_in-take_from sets id peer j q = elim (Option-cases (get Bytes-discrete id sets)) [
  | inl e ↦
      let absent_at : id ≡ j → is_in sets j q ≡ false =
        λ p. ap (λ i. is_in sets i q) (sym p) ∙ is_in_absent sets id q e in
      rw (e, take_from) (ground (arith, absent_at, is_in_absent sets id q e))
  | inr (peers, e) ↦ elim (Bool-cases (is_empty (delete Bytes-discrete peer peers))) [
    | inl t ↦
        rw (e, take_from)
          (rw t (
            ground (
              arith,
              is_in-remove sets id j q,
              contains_empty _ q t,
              contains-delete Bytes-discrete peer q peers,
              is_in_present sets id q peers e,
            )))
    | inr t ↦
        rw (e, take_from)
          (rw t (
            ground (
              arith,
              is_in-insert sets id (delete Bytes-discrete peer peers) j q,
              contains-delete Bytes-discrete peer q peers,
              is_in_present sets id q peers e,
            )))
  ]
]

module _ {fl : Float} where
  -- Adding a peer to those that have a message makes it one of them, and taking it away makes it none,
  -- if the message is in the store; else nothing changes. No other pair of a message and a peer
  -- changes, nor do the peers that are to get a message.
  pub is_peer_handled-add-remove :
      (s : PropagationStore fl) (id peer j q : Bytes)
      → let put = (add_handled_peer s id peer).0 in
        let taken = remove_handled_peer s id peer in
        let changed = λ (now : Bool).
          if has_entry s id
          then with_pair (is_peer_handled s) id peer now j q
          else is_peer_handled s j q in
        (is_peer_handled put j q ≡ changed true)
        × (is_peer_handled taken j q ≡ changed false)
        × (is_peer_unhandled put j q ≡ is_peer_unhandled s j q)
        × (is_peer_unhandled taken j q ≡ is_peer_unhandled s j q)
  unfolding add_handled_peer remove_handled_peer is_peer_handled is_peer_unhandled
  is_peer_handled-add-remove s id peer j q = elim (Bool-cases (has_entry s id)) [
    | inl e ↦ rw e (
      is_in-add_to s.handled_peers id peer j q,
      is_in-take_from s.handled_peers id peer j q,
      refl,
      refl,
    )
    | inr e ↦ rw e (refl, refl, refl, refl)
  ]

  -- Adding a peer to those that are to get a message makes it one of them, and taking it away makes it
  -- none, if the message is in the store; else nothing changes. No other pair of a message and a peer
  -- changes, nor do the peers that have a message.
  pub is_peer_unhandled-add-remove :
      (s : PropagationStore fl) (id peer j q : Bytes)
      → let put = (add_unhandled_peer s id peer).0 in
        let taken = remove_unhandled_peer s id peer in
        let changed = λ (now : Bool).
          if has_entry s id
          then with_pair (is_peer_unhandled s) id peer now j q
          else is_peer_unhandled s j q in
        (is_peer_unhandled put j q ≡ changed true)
        × (is_peer_unhandled taken j q ≡ changed false)
        × (is_peer_handled put j q ≡ is_peer_handled s j q)
        × (is_peer_handled taken j q ≡ is_peer_handled s j q)
  unfolding add_unhandled_peer remove_unhandled_peer is_peer_handled is_peer_unhandled
  is_peer_unhandled-add-remove s id peer j q = elim (Bool-cases (has_entry s id)) [
    | inl e ↦ rw e (
      is_in-add_to s.unhandled_peers id peer j q,
      is_in-take_from s.unhandled_peers id peer j q,
      refl,
      refl,
    )
    | inr e ↦ rw e (refl, refl, refl, refl)
  ]
