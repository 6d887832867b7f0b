-- ===== src/Router/SyncNode/Taken.antt =====
-- The messages that `handle_peer_sync_message_get` of lxmf-rs/src/rns/router.rs sends are those that
-- `apply_peer_sync_payload` takes.
use Prim.Native.String.{String}
use lxmf_rs.Prelude.{
  ℕ, ◌≡◌, refl, sym, ap, ◌∙◌, subst, true, inl, inr, Option, none, some, List, [], ◌∷◌, arith,
  Bytes, Bytes-discrete, Option-cases, length, saturating_add64,
}
use lxmf_rs.Prelude.HashMap.{contains}
use lxmf_rs.Crypto.{Crypto}
use lxmf_rs.Wire.Value.{Float, Msgpack}
use lxmf_rs.Propagation.{PropagationStore, PropagationEntry, get_entry}
use lxmf_rs.Propagation.Codec.{
  IsWhole, completed, propagation_entry_to_bytes, propagation_entry-from-to_bytes,
}
use lxmf_rs.Router.SyncNode.{add_item, collect_items, exceeds}
use lxmf_rs.Router.SyncNode.Payload.{
  Applied, check_entry, keep_entry, take_entry, take_decoded, take_item, take_items,
}
use lxmf_rs.Router.SyncNode.Stored.{
  Stands, Pending, keep_entry_new, keep_entry-Pending, take_items-Stands,
}

some_injective : {A : Type 0} {a b : A} → ◌≡◌ {A = Option A} (some a) (some b) → a ≡ b
some_injective e = cc

module _ {fl : Float} (cr : Crypto) (codec : Msgpack fl)
    (entry_filename : Bytes → fl.F64 → ℕ → String) where
  take_item_whole :
      (a : Applied fl) (e : PropagationEntry fl) (now_ms : ℕ)
      → IsWhole codec e
      → (take_item cr codec entry_filename none a
          (propagation_entry_to_bytes codec e)
          now_ms).router
        ≡ keep_entry cr codec entry_filename a.router (completed codec e) now_ms
  unfolding take_item take_decoded check_entry take_entry
  take_item_whole a e now_ms w = rw (propagation_entry-from-to_bytes codec e w) refl

  -- Every message of a store can go over the wire, and stands under its id.
  abbrev pub AreWhole : PropagationStore fl → Type 0
  AreWhole s =
      (id : Bytes) (e : PropagationEntry fl)
      → get_entry s id ≡ some e
      → IsWhole codec e × (e.transient_id ≡ id)

  -- What the one side collects, the other has taken.
  pub collect_items-Stands :
      (s : PropagationStore fl) (now_ms : ℕ) (id : Bytes) (e : PropagationEntry fl)
      → AreWhole s
      → get_entry s id ≡ some e
      → (ids : List Bytes) (a : Applied fl) (total : ℕ) → contains Bytes-discrete id ids ≡ true
      → Pending cr codec entry_filename a.router id (completed codec e)
      → Stands cr codec entry_filename
          (take_items cr codec entry_filename none
            (collect_items cr codec s none ids total).0
            now_ms
            a).router
          id
          (completed codec e)
  unfolding collect_items add_item exceeds take_items contains
  collect_items-Stands s now_ms id e w g [] a total c p = absurd (ground arith)
  collect_items-Stands s now_ms id e w g (j ∷ ids) a total c p =
      let rest = collect_items cr codec s none ids in
      let goal : Option (PropagationEntry fl) → Type 0 = λ o.
        Stands cr codec entry_filename
          (take_items cr codec entry_filename none (add_item cr codec none o total rest).0 now_ms
            a).router
          id (completed codec e) in
      elim (Option-cases (get_entry s j)) [
        | inl n ↦ subst goal (sym n) (
            collect_items-Stands s now_ms id e w g ids a total
              (others j ids c (λ q. absurd (cc (ap (get_entry s) q, n, g)))) p)
        | inr (x, n) ↦
            let bytes = propagation_entry_to_bytes codec x in
            let more = saturating_add64 total (length bytes) in
            let taken = take_item cr codec entry_filename none a bytes now_ms in
            let whole = w j x n in
            let router = take_item_whole a x now_ms whole.0 in
            subst goal (sym n) (elim (Bytes-discrete j id) [
              | yes q ↦
                  let same : x ≡ e = some_injective (sym n ∙ ap (get_entry s) q ∙ g) in
                  let first : Stands cr codec entry_filename
                      (keep_entry cr codec entry_filename a.router (completed codec e) now_ms) id
                      (completed codec e) =
                    subst
                      (λ i.
                        Pending cr codec entry_filename a.router i (completed codec e)
                        → Stands cr codec entry_filename
                            (keep_entry cr codec entry_filename a.router (completed codec e) now_ms)
                            i (completed codec e))
                      (w id e g).1
                      (keep_entry_new cr codec entry_filename a.router (completed codec e) now_ms)
                      p in
                  let put : Stands cr codec entry_filename taken.router id (completed codec e) =
                    subst (λ r. Stands cr codec entry_filename r id (completed codec e))
                      (sym router)
                      (subst
                        (λ y.
                          Stands cr codec entry_filename
                            (keep_entry cr codec entry_filename a.router (completed codec y) now_ms)
                            id (completed codec e))
                        (sym same) first) in
                  take_items-Stands cr codec entry_filename none (rest more).0 now_ms taken id
                    (completed codec e) put
              | no d ↦ collect_items-Stands s now_ms id e w g ids taken more (others j ids c d) (
                  subst (λ r. Pending cr codec entry_filename r id (completed codec e)) (sym router)
                    (keep_entry-Pending cr codec entry_filename a.router (completed codec x) now_ms
                      id (completed codec e) (λ q. d (sym whole.1 ∙ q)) p))
            ])
      ]
    where
      others :
          (j : Bytes) (ids : List Bytes)
          → contains Bytes-discrete id (j ∷ ids) ≡ true
          → ¬ (j ≡ id)
          → contains Bytes-discrete id ids ≡ true
      others j ids c n = ground arith
