-- ===== src/Peer/Table.antt =====
-- `PeerTable` of lxmf-rs/src/rns/peer.rs. An iteration over the hash map has no fixed order: here it
-- is that of the list.
use lxmf_rs.Prelude.{
  ℕ, ◌≤◌, ◌≡◌, refl, true, false, Option, none, some, List, [], ◌∷◌, ◌⊎◌, inl, inr, map, arith,
  Bytes, Bytes-discrete, leb, if◌then◌else◌, All, All-mono, retain, Option-cases, Bool-cases,
  leb→le, ◌≢◌,
}
use lxmf_rs.Prelude.HashMap.{
  get, insert, Distinct, insert-Distinct, All-remove, All-get, get-insert, get-insert_self,
}
use lxmf_rs.Peer.{Peer, new, should_sync}

pub record PeerTable (F : Type 0) : Type 0 where
  pub peers : List (Bytes × Peer F)

-- `Iterator::min_by_key`: the first of the least ones.
unfoldable pub min_by_key {ℓ} : {A : Type ℓ} → (A → ℕ) → List A → Option A
min_by_key key [] = none
min_by_key key (x ∷ xs) = elim (min_by_key key xs) [
  | none ↦ some x
  | some y ↦ if leb (key x) (key y) then some x else some y
]

module _ {F : Type 0} where
  unfoldable pub get_peer : PeerTable F → Bytes → Option (Peer F)
  get_peer t id = get Bytes-discrete id t.peers

  -- The table with an entry for `id`, and that entry; the caller goes on to change the entry.
  unfoldable pub upsert : F → PeerTable F → Bytes → ℕ → PeerTable F × Peer F
  upsert zero t id now_ms = elim (get_peer t id) [
    | some p ↦ (t, p)
    | none ↦
        let p = new zero id now_ms in (record { peers = insert Bytes-discrete id p t.peers }, p)
  ]

  -- A write through the `&mut Peer` that `upsert` and `get_mut` lend.
  unfoldable pub set_peer : PeerTable F → Peer F → PeerTable F
  set_peer t p = record { peers = insert Bytes-discrete p.id p t.peers }

  ready_peers : PeerTable F → ℕ → List (Peer F)
  ready_peers t now_ms = retain (λ p. should_sync p now_ms) (map (λ e. e.1) t.peers)

  unfoldable pub next_ready : PeerTable F → ℕ → Option Bytes
  unfolding ready_peers min_by_key
  next_ready t now_ms = elim (min_by_key (λ p. p.next_sync_ms) (ready_peers t now_ms)) [
    | none ↦ none
    | some p ↦ some p.id
  ]

  -- Every peer stands under its own id, and no id twice.
  pub record IsTable (t : PeerTable F) : Type 0 where
    pub distinct : Distinct Bytes-discrete t.peers
    pub keyed : All (λ e. e.1.id ≡ e.0) t.peers

  -- `none` says that no peer is due; an id that its peer is due, and none of those due before it.
  abbrev pub Chosen : List (Bytes × Peer F) → ℕ → Option (Peer F) → Type 0
  Chosen m now_ms none = All (λ e. should_sync e.1 now_ms ≡ false) m
  Chosen m now_ms (some p) =
      (get Bytes-discrete p.id m ≡ some p)
      × (should_sync p now_ms ≡ true)
      × All (λ e. (should_sync e.1 now_ms ≡ false) ⊎ (p.next_sync_ms ≤ e.1.next_sync_ms)) m

  best : List (Bytes × Peer F) → ℕ → Option (Peer F)
  best m now_ms =
      min_by_key (λ p. p.next_sync_ms) (retain (λ p. should_sync p now_ms) (map (λ e. e.1) m))

  -- One more peer at the front, by whether it is due.
  skip-Chosen :
      (id : Bytes) (p : Peer F) (m : List (Bytes × Peer F)) (now_ms : ℕ) (o : Option (Peer F))
      → get Bytes-discrete id m ≡ none
      → should_sync p now_ms ≡ false
      → Chosen m now_ms o
      → Chosen ((id, p) ∷ m) now_ms o
  unfolding get
  skip-Chosen id p m now_ms none d h c = (h, c)
  skip-Chosen id p m now_ms (some q) d h c = (ground (arith, c.0), c.1, (inl h, c.2))

  pick-Chosen :
      (id : Bytes) (p : Peer F) (m : List (Bytes × Peer F)) (now_ms : ℕ) (o : Option (Peer F))
      → get Bytes-discrete id m ≡ none
      → p.id ≡ id
      → should_sync p now_ms ≡ true
      → Chosen m now_ms o
      → Chosen ((id, p) ∷ m) now_ms (elim o [
        | none ↦ some p
        | some q ↦ if leb p.next_sync_ms q.next_sync_ms then some p else some q
      ])
  unfolding get
  pick-Chosen id p m now_ms none d k h c =
      (ground arith, h, (inr (omega arith), All-mono _ _ m (λ e f. inl f) c))
  pick-Chosen id p m now_ms (some q) d k h c =
      elim (Bool-cases (leb p.next_sync_ms q.next_sync_ms)) [
        | inl e ↦ rw e (
          ground arith,
          h,
          (inr (omega arith), All-mono _ _ m (λ x f. ground (arith, f, leb→le _ _ e)) c.2),
        )
        | inr e ↦ rw e (ground (arith, c.0), c.1, (inr (ground arith), c.2))
      ]

  best-Chosen :
      (m : List (Bytes × Peer F)) (now_ms : ℕ)
      → Distinct Bytes-discrete m
      → All (λ e. e.1.id ≡ e.0) m
      → Chosen m now_ms (best m now_ms)
  unfolding best min_by_key
  best-Chosen [] now_ms d k = tt
  best-Chosen ((id, p) ∷ m) now_ms d k =
      let rest : Chosen m now_ms (best m now_ms) = best-Chosen m now_ms d.1 k.1 in
      elim (Bool-cases (should_sync p now_ms)) [
        | inl e ↦ rw (e, retain) (pick-Chosen id p m now_ms (best m now_ms) d.0 k.0 e rest)
        | inr e ↦ rw (e, retain) (skip-Chosen id p m now_ms (best m now_ms) d.0 e rest)
      ]

  abbrev pub Picks : List (Bytes × Peer F) → ℕ → Option Bytes → Type 0
  Picks m now_ms none = All (λ e. should_sync e.1 now_ms ≡ false) m
  Picks m now_ms (some id) =
      (p : Peer F) × (get Bytes-discrete id m ≡ some p)
      × (should_sync p now_ms ≡ true)
      × All (λ e. (should_sync e.1 now_ms ≡ false) ⊎ (p.next_sync_ms ≤ e.1.next_sync_ms)) m

  Chosen-Picks :
      (m : List (Bytes × Peer F)) (now_ms : ℕ) (o : Option (Peer F))
      → Chosen m now_ms o
      → Picks m now_ms (elim o [ none ↦ none | some p ↦ some p.id ])
  Chosen-Picks m now_ms none c = c
  Chosen-Picks m now_ms (some p) c = (p, c.0, c.1, c.2)

  -- In a table whose peers stand under their own ids, no id twice, `next_ready` answers `None` exactly
  -- where no peer is due, and otherwise the id of a stored peer that is due and whose time no other due
  -- peer precedes.
  pub next_ready-Picks :
      (t : PeerTable F) (now_ms : ℕ) → IsTable t → Picks t.peers now_ms (next_ready t now_ms)
  unfolding next_ready best
  next_ready-Picks t now_ms v =
      Chosen-Picks t.peers now_ms (best t.peers now_ms)
        (best-Chosen t.peers now_ms v.distinct v.keyed)

  set_peer-IsTable : (t : PeerTable F) (p : Peer F) → IsTable t → IsTable (set_peer t p)
  unfolding set_peer insert
  set_peer-IsTable t p v = record {
    distinct = insert-Distinct Bytes-discrete p.id p t.peers v.distinct;
    keyed = (refl, All-remove Bytes-discrete _ p.id t.peers v.keyed);
  }

  -- What `upsert` lends, and what it leaves alone.
  abbrev pub Lends : F → PeerTable F → Bytes → ℕ → PeerTable F × Peer F → Type 0
  Lends zero t id now_ms r =
      IsTable r.0
      × (get_peer r.0 id ≡ some r.1)
      × (r.1.id ≡ id)
      × ((r.1 ≡ new zero id now_ms) ⊎ (get_peer t id ≡ some r.1))
      × ((j : Bytes) → j ≢ id → get_peer r.0 j ≡ get_peer t j)

  upsert_new-Lends :
      (zero : F) (t : PeerTable F) (id : Bytes) (now_ms : ℕ)
      → IsTable t
      → let p = new zero id now_ms in
        Lends zero t id now_ms (record { peers = insert Bytes-discrete id p t.peers }, p)
  unfolding get_peer set_peer new
  upsert_new-Lends zero t id now_ms v = (
    set_peer-IsTable t (new zero id now_ms) v,
    get-insert_self Bytes-discrete id _ t.peers,
    refl,
    inl refl,
    λ j h. ground (arith, get-insert Bytes-discrete id j (new zero id now_ms) t.peers),
  )

  upsert_absent :
      (zero : F) (t : PeerTable F) (id : Bytes) (now_ms : ℕ)
      → get_peer t id ≡ none
      → let p = new zero id now_ms in
        upsert zero t id now_ms ≡ (record { peers = insert Bytes-discrete id p t.peers }, p)
  unfolding upsert
  upsert_absent zero t id now_ms e = rw (e, upsert)

  pub upsert_present :
      (zero : F) (t : PeerTable F) (id : Bytes) (now_ms : ℕ) (p : Peer F)
      → get_peer t id ≡ some p
      → upsert zero t id now_ms ≡ (t, p)
  unfolding upsert
  upsert_present zero t id now_ms p e = rw (e, upsert)

  -- `upsert` keeps the table one, lends the entry that it stores under `id`, which is a new peer or the
  -- one that was there, and leaves every other entry alone.
  pub upsert-Lends :
      (zero : F) (t : PeerTable F) (id : Bytes) (now_ms : ℕ)
      → IsTable t
      → Lends zero t id now_ms (upsert zero t id now_ms)
  upsert-Lends zero t id now_ms v = elim (Option-cases (get_peer t id)) [
    | inl e ↦ rw (upsert_absent zero t id now_ms e) (upsert_new-Lends zero t id now_ms v)
    | inr (p, e) ↦ rw (upsert_present zero t id now_ms p e) (
      v,
      e,
      All-get Bytes-discrete _ id p t.peers v.keyed (unfold get_peer in e),
      inr e,
      λ j h. refl,
    )
  ]
