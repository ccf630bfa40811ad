-- ===== src/Escrow/Diagram.antt =====
-- The table of `transitionSpec` (application/transition-escrow.ts) as a relation, by groups of statuses.
pub mod Listed
use blockchain_based_e_procu.Prelude.{Option, none, some, ◌≡◌, refl, ◌≢◌, arith}
use blockchain_based_e_procu.Escrow.Record.{
  EscrowStatus, escrow_created, funded, awaiting_proof, release_pending, release_ready,
  release_requested, on_hold, dispute_open, arbitration, disputed, refunded, cancelled,
  settlement_instruction_ready,
}
use blockchain_based_e_procu.Escrow.Rules.{
  Action, fund, request_release, approve_release, hold, open_dispute, record_arbitration_decision,
  ArbitrationOutcome, approve_release_outcome, refund, cancel, TransitionSpec, transition_spec,
}

-- The money is there and nobody has asked for it.
pub data IsHeldFund : EscrowStatus → Type 0 where
  at_funded : IsHeldFund funded
  at_awaiting_proof : IsHeldFund awaiting_proof
  at_release_pending : IsHeldFund release_pending
  at_release_ready : IsHeldFund release_ready

-- The escrow is open and uncontested.
pub data IsOpen : EscrowStatus → Type 0 where
  at_created : IsOpen escrow_created
  at_held : {s : EscrowStatus} → IsHeldFund s → IsOpen s
  at_requested : IsOpen release_requested

pub data IsContested : EscrowStatus → Type 0 where
  at_dispute : IsContested dispute_open
  at_arbitration : IsContested arbitration
  at_hold : IsContested on_hold
  at_disputed : IsContested disputed

-- An edge, with the action and the arbitration outcome that it takes.
pub data Step : Action → Option ArbitrationOutcome → EscrowStatus → EscrowStatus → Type 0 where
  funding : {o : Option ArbitrationOutcome} → Step fund o escrow_created funded
  request :
      {o : Option ArbitrationOutcome} {s : EscrowStatus}
      → IsHeldFund s
      → Step request_release o s release_requested
  approval :
      {o : Option ArbitrationOutcome}
      → Step approve_release o release_requested settlement_instruction_ready
  holding : {o : Option ArbitrationOutcome} {s : EscrowStatus} → IsOpen s → Step hold o s on_hold
  dispute :
      {o : Option ArbitrationOutcome} {s : EscrowStatus}
      → IsOpen s
      → Step open_dispute o s dispute_open
  dispute_hold : {o : Option ArbitrationOutcome} → Step open_dispute o on_hold dispute_open
  award :
      {s : EscrowStatus}
      → IsContested s
      → Step record_arbitration_decision
          (some approve_release_outcome)
          s
          settlement_instruction_ready
  refunding :
      {s : EscrowStatus} → IsContested s → Step record_arbitration_decision (some refund) s refunded
  cancelling :
      {s : EscrowStatus}
      → IsContested s
      → Step record_arbitration_decision (some cancel) s cancelled

ruleset edges = (
  funding, request, approval, holding, dispute, dispute_hold, award, refunding, cancelling,
  at_funded, at_awaiting_proof, at_release_pending, at_release_ready, at_created, at_held,
  at_requested, at_dispute, at_arbitration, at_hold, at_disputed,
)

-- The arbitration outcome is there where the action needs it.
abbrev pub HasOutcome : Action → Option ArbitrationOutcome → Type 0
HasOutcome record_arbitration_decision o = o ≢ none
HasOutcome _ o = Unit

-- Every entry of the table is an edge, where an arbitration decision has its outcome.
pub transition_spec-Step :
    (a : Action) (o : Option ArbitrationOutcome) (s : EscrowStatus) (spec : TransitionSpec)
    → HasOutcome a o
    → transition_spec a o s ≡ some spec
    → Step a o s spec.next_status
unfolding transition_spec
transition_spec-Step fund o s spec has h = grind (arith, edges)
transition_spec-Step request_release o s spec has h = grind (arith, edges)
transition_spec-Step approve_release o s spec has h = grind (arith, edges)
transition_spec-Step hold o s spec has h = grind (arith, edges)
transition_spec-Step open_dispute o s spec has h = grind (arith, edges)
transition_spec-Step record_arbitration_decision none s spec has h = absurd (has refl)
transition_spec-Step record_arbitration_decision (some approve_release_outcome) s spec has h =
    grind (arith, edges)
transition_spec-Step record_arbitration_decision (some refund) s spec has h = grind (arith, edges)
transition_spec-Step record_arbitration_decision (some cancel) s spec has h = grind (arith, edges)
