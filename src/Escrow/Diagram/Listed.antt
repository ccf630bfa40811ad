-- ===== src/Escrow/Diagram/Listed.antt =====
-- The transitions that docs/contracts/ESCROW_WORKFLOW_CONTRACT.md lists (section 4, "Pilot-hardening
-- transitions"), and the table of `transitionSpec` (application/transition-escrow.ts).
use blockchain_based_e_procu.Prelude.{Bool, true, false}
use blockchain_based_e_procu.Escrow.Record.{
  EscrowStatus, escrow_created, funded, awaiting_proof, release_pending, release_ready,
  release_requested, on_hold, dispute_open, arbitration, disputed, refunded, cancelled,
  settlement_instruction_ready,
}

-- The listed transitions, one for each pair of statuses.
pub data Listed : EscrowStatus → EscrowStatus → Type 0 where
  created_to_funded : Listed escrow_created funded
  funded_to_requested : Listed funded release_requested
  requested_to_ready : Listed release_requested settlement_instruction_ready
  created_to_hold : Listed escrow_created on_hold
  funded_to_hold : Listed funded on_hold
  requested_to_hold : Listed release_requested on_hold
  created_to_dispute : Listed escrow_created dispute_open
  funded_to_dispute : Listed funded dispute_open
  hold_to_dispute : Listed on_hold dispute_open
  requested_to_dispute : Listed release_requested dispute_open
  dispute_to_ready : Listed dispute_open settlement_instruction_ready
  hold_to_ready : Listed on_hold settlement_instruction_ready
  dispute_to_refunded : Listed dispute_open refunded
  hold_to_refunded : Listed on_hold refunded
  dispute_to_cancelled : Listed dispute_open cancelled
  hold_to_cancelled : Listed on_hold cancelled

ruleset listed = (
  created_to_funded, funded_to_requested, requested_to_ready, created_to_hold, funded_to_hold,
  requested_to_hold, created_to_dispute, funded_to_dispute, hold_to_dispute, requested_to_dispute,
  dispute_to_ready, hold_to_ready, dispute_to_refunded, hold_to_refunded, dispute_to_cancelled,
  hold_to_cancelled,
)

-- The statuses that the code transitions an escrow from, and the document does not.
abbrev pub is_unlisted : EscrowStatus → Bool
is_unlisted awaiting_proof = true
is_unlisted release_pending = true
is_unlisted release_ready = true
is_unlisted arbitration = true
is_unlisted disputed = true
is_unlisted _ = false
