-- ===== src/Router/Queue/Accounts.antt =====
-- The books of `RnsRouter` of lxmf-rs/src/rns/router.rs balance: what holds after every history.
use Prim.Native.String.{String}
use lxmf_rs.Prelude.{ℕ, ◌+◌, max, List, ltb, if◌then◌else◌}
use lxmf_rs.Wire.Value.{Float}
use lxmf_rs.Router.Queue.Store.{MessageStore}
use lxmf_rs.Router.Queue.{RnsRouter, RetryPolicy}
use lxmf_rs.Router.Queue.Restore.{restored}
use lxmf_rs.Router.Queue.Ledger.{count, outbound_ids, failed_ids}

-- The most attempts that one message gets: at least one is made.
abbrev pub most_attempts : RetryPolicy → ℕ
most_attempts retry = max retry.max_attempts 1

-- What a router has, in all, under the id `x`.
abbrev pub held : {fl : Float} {S R : Type 0} → ℕ → RnsRouter fl S R → ℕ
held x r = count x (outbound_ids r.outbound) + count x (failed_ids r.failed)

-- How often an id is accounted for: from the id `first` on, once for each of `n` ids; below it, as
-- often as the store had it.
abbrev pub accounted : ℕ → ℕ → ℕ → ℕ → ℕ
accounted x first n stored = if ltb x first then stored else if ltb x (first + n) then 1 else 0

abbrev in_range : ℕ → ℕ → ℕ → ℕ
in_range x first n = accounted x first n 0

-- The id that the router of a store gives first, and the ids that the store has.
abbrev pub first_id : {fl : Float} {S : Type 0} → Type 0 → MessageStore fl S → S → RetryPolicy → ℕ
first_id R ms store retry = (restored {R = R} ms store retry).next_id

abbrev pub stored_ids : {fl : Float} {S : Type 0} → MessageStore fl S → S → List ℕ
stored_ids ms store = outbound_ids (ms.load_outbound store)
