-- ===== src/Escrow/Current.antt =====
-- What it is that an escrow names the event of its present status.
pub mod Transitions
pub mod Creations
use mathlib.Core.List.{Memᴰ}
use blockchain_based_e_procu.Prelude.{
  String, Bool, true, false, ◌||◌, List, ◌++◌, Option, none, some, ◌≡◌, All, All-map,
}
use blockchain_based_e_procu.Prelude.Text.{◌=s◌}
use blockchain_based_e_procu.Prelude.Store
use blockchain_based_e_procu.Lifecycle.Event.{LifecycleEvent}
use blockchain_based_e_procu.Escrow.Record.{
  EscrowRecord, EscrowStatus, escrow_created, funded, release_requested, on_hold, dispute_open,
  refunded, cancelled, settlement_instruction_ready,
}
use blockchain_based_e_procu.Escrow.Repository.{escrow_key}
use blockchain_based_e_procu.Escrow.Invariant.{Memᴰ-append}

-- The types of event that bring an escrow to a status.
abbrev pub tells : String → EscrowStatus → Bool
tells type escrow_created = type =s "escrowCreated"
tells type funded = type =s "escrowFunded"
tells type release_requested = type =s "escrowReleaseRequested"
tells type on_hold = type =s "escrowHeld"
tells type dispute_open = type =s "escrowDisputeOpened"
tells type settlement_instruction_ready =
    (type =s "escrowReleaseApproved") || (type =s "escrowArbitrationDecisionRecorded")
tells type refunded = type =s "escrowArbitrationDecisionRecorded"
tells type cancelled = type =s "escrowArbitrationDecisionRecorded"
tells type _ = false

-- An escrow that names no event has the status of its creation. The event that it names is in the
-- log, is about this escrow, and tells its status.
abbrev pub IsCurrent : List LifecycleEvent → EscrowRecord → Type 0
IsCurrent log e =
    (e.lifecycle_event_hash ≡ none → e.status ≡ escrow_created)
    × ((hash : String)
        → e.lifecycle_event_hash ≡ some hash
        → (f : LifecycleEvent) × Memᴰ f log
          × (f.payload_hash ≡ hash)
          × (f.target_id ≡ e.escrow_id)
          × (tells f.event_type e.status ≡ true))

abbrev pub AreCurrent : List LifecycleEvent → List EscrowRecord → Type 0
AreCurrent log escrows = All (IsCurrent log) escrows

pub append-AreCurrent :
    (log more : List LifecycleEvent) (escrows : List EscrowRecord)
    → AreCurrent log escrows
    → AreCurrent (log ++ more) escrows
append-AreCurrent log more escrows h =
    All-map (IsCurrent log) (IsCurrent (log ++ more))
      (λ e current. (
        current.0,
        λ hash named.
            let (f, m, q, t, s) = current.1 hash named in (f, Memᴰ-append log more m, q, t, s),
      ))
      escrows h

pub put-AreCurrent :
    (log : List LifecycleEvent) (e : EscrowRecord) (escrows : List EscrowRecord)
    → IsCurrent log e
    → AreCurrent log escrows
    → AreCurrent log (Store.put escrow_key e escrows)
put-AreCurrent log e escrows current h =
    Store.All-put escrow_key (IsCurrent log) e escrows current h
