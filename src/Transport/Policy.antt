-- ===== src/Transport/Policy.antt =====
-- What `RnsCryptoPolicy` of lxmf-rs/src/rns/transport.rs promises: under `EnforceRatchets` nothing leaves
-- that the encryptor did not make, and the queue of lxmf-rs/src/rns/router.rs drops what is refused.
use Prim.Native.String.{String}
use lxmf_rs.Prelude.{
  ℕ, ◌+◌, ◌%◌, ◌^◌, ◌≤◌, ◌≡◌, refl, sym, ap, ◌∙◌, subst, false, Option, some, List, [], ◌∷◌, ◌++◌,
  arith, Bytes, ltb,
}
use lxmf_rs.Crypto.{Crypto, Signing}
use lxmf_rs.Wire.Errors.{
  Result, ok, err, RnsError, crypto_policy_violation, DeliveryMode, opportunistic, direct,
  propagated, paper, enforce_ratchets,
}
use lxmf_rs.Wire.Value.{Float, Msgpack}
use lxmf_rs.Message.{LxMessage, state_failed}
use lxmf_rs.Router.Queue.Store.{QueuedMessage, MessageStore}
use lxmf_rs.Router.Queue.{RnsRouter, QueuedDelivery}
use lxmf_rs.Router.Queue.Send.{
  next_delivery_with_retry, send_front, send, started, succeed, retry_or_fail, give_up,
}
use lxmf_rs.Transport.Outbound.{
  Buffers, EncryptHook, RnsOutbound, DeliveryOutput, check_outbound, no_lxmf_encryption,
  needs_encryption, deliver, deliver_checked,
}

-- The policy forbids the mode with this encryptor.
pub data Violates (e : EncryptHook) : DeliveryMode → Type 0 where
  in_the_open : Violates e opportunistic
  in_the_open_directly : Violates e direct
  unencrypted : e.provides_encryption ≡ false → Violates e propagated
  unencrypted_on_paper : e.provides_encryption ≡ false → Violates e paper

-- The error of a violation.
abbrev pub IsViolation : DeliveryMode → Result RnsError (Unit {0}) → Type 0
IsViolation mode r =
    (reason : String) × (r ≡ err (crypto_policy_violation enforce_ratchets mode reason))

check_outbound-IsViolation :
    (e : EncryptHook) (mode : DeliveryMode)
    → Violates e mode
    → IsViolation mode (check_outbound enforce_ratchets mode e)
unfolding check_outbound no_lxmf_encryption needs_encryption
check_outbound-IsViolation e opportunistic in_the_open = (_, refl)
check_outbound-IsViolation e direct in_the_open_directly = (_, refl)
check_outbound-IsViolation e propagated (unencrypted p) = (_, ap (needs_encryption propagated) p)
check_outbound-IsViolation e paper (unencrypted_on_paper p) = (_, ap (needs_encryption paper) p)

module _ {fl : Float} (cr : Crypto) (codec : Msgpack fl) (random : ℕ → Bytes) (ed : Signing)
    (k : ed.SigningKey) (buf : Buffers) (base64 : Bytes → String) where
  deliver-violation :
      (o : RnsOutbound) (m : LxMessage fl) (mode : DeliveryMode)
      → o.crypto_policy ≡ enforce_ratchets
      → Violates o.encryptor mode
      → (reason : String) × (deliver cr codec random ed k buf base64 o m mode
          ≡ (m, err (crypto_policy_violation enforce_ratchets mode reason)))
  unfolding deliver deliver_checked
  deliver-violation o m mode p v =
      let (reason, e) = check_outbound-IsViolation o.encryptor mode v in
      (
        reason,
        ap
              (λ c.
                deliver_checked cr codec random ed k buf base64 o m mode
                  (check_outbound c mode o.encryptor))
              p
            ∙ ap (deliver_checked cr codec random ed k buf base64 o m mode) e,
      )

  module _ {S R : Type 0} (ms : MessageStore fl S) (show : RnsError → String)
      (o : RnsOutbound) where
    -- An attempt that was refused: the message is among the failed ones, for that error, and nowhere
    -- else.
    pub record IsRefused (r : RnsRouter fl S R) (item : QueuedMessage fl)
        (rest : List (QueuedMessage fl))
        (out : RnsRouter fl S R × Option (Result RnsError (QueuedDelivery fl DeliveryOutput)))
        : Type 0 where
      pub reason : String
      pub error : RnsError
      pub is_violation : error ≡ crypto_policy_violation enforce_ratchets item.mode reason
      pub told : out.1 ≡ some (err error)
      pub left : out.0.outbound ≡ rest
      pub failed :
          out.0.failed
          ≡ r.failed
            ++ record {
              id = item.id;
              error = show error;
              message = record item.message { state = state_failed };
              attempts = (item.attempts + 1) % 2 ^ 32;
            }
              ∷ []
      pub forgotten :
          out.0.store
          ≡ ms.save_failed (ms.remove_outbound r.store item.id) (record {
            id = item.id;
            error = show error;
            message = record item.message { state = state_failed };
            attempts = (item.attempts + 1) % 2 ^ 32;
          })

    -- `send`, once `deliver` has answered.
    abbrev answered :
        RnsRouter fl S R
        → QueuedMessage fl
        → ℕ
        → LxMessage fl × Result RnsError DeliveryOutput
        → RnsRouter fl S R × Option (Result RnsError (QueuedDelivery fl DeliveryOutput))
    answered r item now_ms sent =
        let item' = record item { message = sent.0 } in
        let send_by = deliver cr codec random ed k buf base64 o in
        elim sent.1 [
          | ok delivery ↦ succeed ms send_by show r item' delivery
          | err e ↦ (retry_or_fail ms send_by show r item' now_ms e, some (err e))
        ]

    send-IsRefused :
        (r : RnsRouter fl S R) (item : QueuedMessage fl) (rest : List (QueuedMessage fl))
        (now_ms : ℕ)
        → o.crypto_policy ≡ enforce_ratchets
        → Violates o.encryptor item.mode
        → IsRefused r item rest (
            send ms
              (deliver cr codec random ed k buf base64 o)
              show
              (record r { outbound = rest })
              (started item)
              now_ms)
    unfolding send started retry_or_fail give_up
    send-IsRefused r item rest now_ms p v =
        let (reason, e) = deliver-violation o (started item).message item.mode p v in
        let error = crypto_policy_violation enforce_ratchets item.mode reason in
        subst
          (λ sent.
            IsRefused r item rest
              (answered (record r { outbound = rest }) (started item) now_ms sent))
          (sym e)
          (record {
            reason = reason;
            error = error;
            is_violation = refl;
            told = refl;
            left = refl;
            failed = refl;
            forgotten = refl;
          })

    -- Under `EnforceRatchets` a queued message whose mode has no encryption is refused at its first
    -- attempt: when it is due and first in the queue, `next_delivery_with_retry` returns the violation,
    -- moves the message from the queue and the store of outbound messages to the failed deliveries,
    -- whatever attempts the retry policy leaves, and keeps the rest of the queue.
    pub next_delivery_with_retry-IsRefused :
        (r : RnsRouter fl S R) (item : QueuedMessage fl) (rest : List (QueuedMessage fl))
        (now_ms : ℕ)
        → o.crypto_policy ≡ enforce_ratchets
        → Violates o.encryptor item.mode
        → r.outbound ≡ item ∷ rest
        → item.next_attempt_at_ms ≤ now_ms
        → IsRefused r item rest
            (next_delivery_with_retry ms (deliver cr codec random ed k buf base64 o) show r now_ms)
    unfolding next_delivery_with_retry send_front
    next_delivery_with_retry-IsRefused r item rest now_ms p v q d =
        let due : ltb now_ms item.next_attempt_at_ms ≡ false = ground arith in
        let front = send_front ms (deliver cr codec random ed k buf base64 o) show r in
        subst (λ l. IsRefused r item rest (front l now_ms)) (sym q)
          (rw (due, send_front) (send-IsRefused r item rest now_ms p v))
