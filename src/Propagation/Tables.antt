-- ===== src/Propagation/Tables.antt =====
-- The tables of `PropagationStore` of lxmf-rs/src/rns/storage.rs agree on the messages that are there.
use Prim.Native.String.{String}
use lxmf_rs.Prelude.{
  ℕ, ◌+◌, ◌-◌, ◌≡◌, refl, Bool, not, List, [], ◌∷◌, arith, Bytes, Bytes-discrete, Bool-cases,
  retain, length, inl, inr,
}
use lxmf_rs.Prelude.HashMap.{
  insert, remove, has, keys, remove_all, Distinct, has-insert, has-remove, remove_all-keys-retain,
  retain-Distinct, insert-Distinct, remove-Distinct,
}
use lxmf_rs.Wire.Value.{Float}
use lxmf_rs.Propagation.{
  PropagationStore, PropagationEntry, new, insert_with_stamp_value_and_filename, has_entry,
  remove_entry, is_old, remove_older_than, add_handled_peer, remove_handled_peer,
  add_unhandled_peer, remove_unhandled_peer,
}

-- Two maps have the same keys.
abbrev pub SameKeys : {V W : Type 0} → List (Bytes × V) → List (Bytes × W) → Type 0
SameKeys a b = (j : Bytes) → has Bytes-discrete j a ≡ has Bytes-discrete j b

insert-SameKeys :
    {V W : Type 0} (k : Bytes) (v : V) (w : W) (a : List (Bytes × V)) (b : List (Bytes × W))
    → SameKeys a b
    → SameKeys (insert Bytes-discrete k v a) (insert Bytes-discrete k w b)
insert-SameKeys k v w a b h j =
    ground (arith, has-insert Bytes-discrete k j v a, has-insert Bytes-discrete k j w b, h j)

remove-SameKeys :
    {V W : Type 0} (k : Bytes) (a : List (Bytes × V)) (b : List (Bytes × W))
    → SameKeys a b
    → SameKeys (remove Bytes-discrete k a) (remove Bytes-discrete k b)
remove-SameKeys k a b h j =
    ground (arith, has-remove Bytes-discrete k j a, has-remove Bytes-discrete k j b, h j)

remove_all-SameKeys :
    {V W : Type 0} (ks : List Bytes) (a : List (Bytes × V)) (b : List (Bytes × W))
    → SameKeys a b
    → SameKeys (remove_all Bytes-discrete ks a) (remove_all Bytes-discrete ks b)
unfolding remove_all
remove_all-SameKeys [] a b h = h
remove_all-SameKeys (k ∷ ks) a b h =
    remove_all-SameKeys ks (remove Bytes-discrete k a) (remove Bytes-discrete k b)
      (remove-SameKeys k a b h)

length-keys-retain :
    {V : Type 0} (p : Bytes × V → Bool) (m : List (Bytes × V))
    → length (keys Bytes-discrete (retain p m)) + length (retain (λ e. not (p e)) m) ≡ length m
length-keys-retain p [] = omega arith
length-keys-retain p (e ∷ m) = ground (arith, length-keys-retain p m)

-- No id twice, and a stamp value and a file name for each message and for no other id.
pub record IsStore {fl : Float} (s : PropagationStore fl) : Type 0 where
  pub distinct : Distinct Bytes-discrete s.entries
  pub valued : SameKeys s.stamp_values s.entries
  pub named : SameKeys s.filenames s.entries

module _ {fl : Float} where
  -- The operations that change a store. The three that insert come down to one.
  pub data Step (s : PropagationStore fl) : PropagationStore fl → Type 0 where
    inserts :
        (entry : PropagationEntry fl) (stamp_value : ℕ) (filename : String)
        → Step s (insert_with_stamp_value_and_filename s entry stamp_value filename)
    removes : (id : Bytes) → Step s (remove_entry s id).0
    ages : (now_ms max_age_ms : ℕ) → Step s (remove_older_than s now_ms max_age_ms).0
    handles : (id peer : Bytes) → Step s (add_handled_peer s id peer).0
    unhandles : (id peer : Bytes) → Step s (remove_handled_peer s id peer)
    offers : (id peer : Bytes) → Step s (add_unhandled_peer s id peer).0
    withdraws : (id peer : Bytes) → Step s (remove_unhandled_peer s id peer)

  pub data Reach : PropagationStore fl → Type 0 where
    start : Reach new
    next : {s t : PropagationStore fl} → Reach s → Step s t → Reach t

  remove_older_than-IsStore :
      (s : PropagationStore fl) (now_ms max_age_ms : ℕ)
      → IsStore s
      → IsStore (remove_older_than s now_ms max_age_ms).0
  unfolding remove_older_than
  remove_older_than-IsStore s now_ms max_age_ms v =
      let old = is_old {fl = fl} (now_ms - max_age_ms) in
      let gone = keys Bytes-discrete (retain old s.entries) in
      record {
        distinct =
            rw (remove_all-keys-retain Bytes-discrete old s.entries v.distinct)
              (retain-Distinct Bytes-discrete _ s.entries v.distinct);
        valued = remove_all-SameKeys gone s.stamp_values s.entries v.valued;
        named = remove_all-SameKeys gone s.filenames s.entries v.named;
      }

  Step-IsStore : {s t : PropagationStore fl} → Step s t → IsStore s → IsStore t
  unfolding insert_with_stamp_value_and_filename remove_entry add_handled_peer remove_handled_peer
      add_unhandled_peer remove_unhandled_peer
  Step-IsStore {s} (inserts entry stamp_value filename) v = record {
    distinct = insert-Distinct Bytes-discrete entry.transient_id entry s.entries v.distinct;
    valued = insert-SameKeys entry.transient_id stamp_value entry s.stamp_values s.entries v.valued;
    named = insert-SameKeys entry.transient_id filename entry s.filenames s.entries v.named;
  }
  Step-IsStore {s} (removes id) v = record {
    distinct = remove-Distinct Bytes-discrete id s.entries v.distinct;
    valued = remove-SameKeys id s.stamp_values s.entries v.valued;
    named = remove-SameKeys id s.filenames s.entries v.named;
  }
  Step-IsStore {s} (ages now_ms max_age_ms) v = remove_older_than-IsStore s now_ms max_age_ms v
  Step-IsStore {s} (handles id peer) v = elim (Bool-cases (has_entry s id)) [
    | inl e ↦ rw e (record { distinct = v.distinct; valued = v.valued; named = v.named })
    | inr e ↦ rw e v
  ]
  Step-IsStore {s} (unhandles id peer) v = elim (Bool-cases (has_entry s id)) [
    | inl e ↦ rw e (record { distinct = v.distinct; valued = v.valued; named = v.named })
    | inr e ↦ rw e v
  ]
  Step-IsStore {s} (offers id peer) v = elim (Bool-cases (has_entry s id)) [
    | inl e ↦ rw e (record { distinct = v.distinct; valued = v.valued; named = v.named })
    | inr e ↦ rw e v
  ]
  Step-IsStore {s} (withdraws id peer) v = elim (Bool-cases (has_entry s id)) [
    | inl e ↦ rw e (record { distinct = v.distinct; valued = v.valued; named = v.named })
    | inr e ↦ rw e v
  ]

  -- After any history of a store that began empty, no message is there twice, and the tables of stamp
  -- values and of file names have an entry for each message that is there and for no other id.
  pub Reach-IsStore : {s : PropagationStore fl} → Reach s → IsStore s
  unfolding new has
  Reach-IsStore start = record { distinct = tt; valued = λ j. refl; named = λ j. refl }
  Reach-IsStore (next r s) = Step-IsStore s (Reach-IsStore r)

  -- After any history, `remove_older_than` keeps exactly the messages that are not old, in place, and
  -- returns how many it removed.
  pub remove_older_than-is_old :
      (s : PropagationStore fl) (now_ms max_age_ms : ℕ)
      → Reach s
      → let (s', removed) = remove_older_than s now_ms max_age_ms in
        (s'.entries ≡ retain (λ e. not (is_old (now_ms - max_age_ms) e)) s.entries)
        × (length s'.entries + removed ≡ length s.entries)
  unfolding remove_older_than
  remove_older_than-is_old s now_ms max_age_ms r =
      let old = is_old {fl = fl} (now_ms - max_age_ms) in
      let kept = remove_all-keys-retain Bytes-discrete old s.entries (Reach-IsStore r).distinct in
      (kept, rw kept (omega (arith, length-keys-retain old s.entries)))
