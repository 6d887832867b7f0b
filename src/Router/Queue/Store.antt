-- ===== src/Router/Queue/Store.antt =====
-- `MessageStore` of lxmf-rs/src/rns/storage.rs with the store that keeps messages in memory.
use Prim.Native.String.{String}
use lxmf_rs.Prelude.{ℕ, not, List, [], ◌∷◌, ◌++◌, ◌==◌, retain}
use lxmf_rs.Message.{LxMessage}
use lxmf_rs.Wire.Errors.{DeliveryMode}
use lxmf_rs.Wire.Value.{Float}

pub record QueuedMessage (fl : Float) : Type 0 where
  pub id : ℕ
  pub message : LxMessage fl
  pub mode : DeliveryMode
  pub attempts : ℕ
  pub next_attempt_at_ms : ℕ

pub record FailedDelivery (fl : Float) : Type 0 where
  pub id : ℕ
  pub error : String
  pub message : LxMessage fl
  pub attempts : ℕ

-- The trait; `S` is the state behind `&mut self`.
pub record MessageStore (fl : Float) (S : Type 0) : Type 0 where
  pub save_outbound : S → QueuedMessage fl → S
  pub remove_outbound : S → ℕ → S
  pub load_outbound : S → List (QueuedMessage fl)
  pub save_inbound : S → LxMessage fl → S
  pub save_failed : S → FailedDelivery fl → S

pub record InMemoryStore (fl : Float) : Type 0 where
  pub outbound : List (QueuedMessage fl)
  pub inbound : List (LxMessage fl)
  pub failed : List (FailedDelivery fl)

module _ {fl : Float} where
  -- `InMemoryStore::default`.
  abbrev pub empty : InMemoryStore fl
  empty = record { outbound = []; inbound = []; failed = [] }

  unfoldable pub in_memory : MessageStore fl (InMemoryStore fl)
  in_memory = record {
    save_outbound = λ s item. record s { outbound = s.outbound ++ item ∷ [] };
    remove_outbound = λ s id. record s { outbound = retain (λ m. not (m.id == id)) s.outbound };
    load_outbound = λ s. s.outbound;
    save_inbound = λ s message. record s { inbound = s.inbound ++ message ∷ [] };
    save_failed = λ s item. record s { failed = s.failed ++ item ∷ [] };
  }
