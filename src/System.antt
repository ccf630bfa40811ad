-- ===== src/System.antt =====
-- The services together: sequences of calls on one state, each with its own input and dependencies.
-- A call that throws leaves what it wrote before.
pub mod Reached
use blockchain_based_e_procu.Prelude.{String, Bool, List, [], ◌∷◌, Option}
use blockchain_based_e_procu.Blockchain.Anchoring.{AnchorDependencies}
use blockchain_based_e_procu.Escrow.Create.{CreateEscrowInput}
use blockchain_based_e_procu.Escrow.Create.Write.{create_escrow}
use blockchain_based_e_procu.Escrow.Rules.{EscrowDependencies, TransitionInput}
use blockchain_based_e_procu.Escrow.Transition.{transition_escrow}
use blockchain_based_e_procu.Procurement.Actor.{Actor}
use blockchain_based_e_procu.Procurement.Closing.Service.{close_case}
use blockchain_based_e_procu.Procurement.Delivery.{SubmitEvidenceInput}
use blockchain_based_e_procu.Procurement.Delivery.Submit.{submit_evidence}
use blockchain_based_e_procu.Procurement.Invoicing.Reviewing.{verify_match, approve_payment}
use blockchain_based_e_procu.Procurement.Invoicing.Submit.{SubmitInvoiceInput}
use blockchain_based_e_procu.Procurement.Invoicing.Submitting.{submit_invoice}
use blockchain_based_e_procu.Procurement.Ordering.Acknowledge.{AcknowledgeInput}
use blockchain_based_e_procu.Procurement.Ordering.Acknowledge.Write.{acknowledge_order}
use blockchain_based_e_procu.Procurement.Ordering.Create.{CreateOrderInput, OrderDependencies}
use blockchain_based_e_procu.Procurement.Ordering.Create.Write.{create_order}
use blockchain_based_e_procu.Procurement.Sourcing.{
  RequisitionInput, ApproveInput, RfqInput, QuotationInput, AwardInput,
}
use blockchain_based_e_procu.Procurement.Sourcing.Awarding.{award_rfq}
use blockchain_based_e_procu.Procurement.Sourcing.Writes.{
  create_requisition, approve_requisition, issue_rfq, submit_quotation,
}
use blockchain_based_e_procu.World.{World, Platform}

-- The operations of the escrow and procurement services that write. The flag of a call says whether there is a log of lifecycle events.
pub data Operation : Type 0 where
  escrow_creation : EscrowDependencies → CreateEscrowInput → Operation
  escrow_transition : EscrowDependencies → TransitionInput → Operation
  order_creation : OrderDependencies → CreateOrderInput → Operation
  order_acknowledgement : Bool → AcknowledgeInput → Operation
  evidence_submission : Bool → AnchorDependencies → SubmitEvidenceInput → Operation
  invoice_submission : Bool → SubmitInvoiceInput → Operation
  invoice_match : Bool → String → Actor → String → Operation
  payment_approval : Bool → String → Actor → String → Operation
  requisition_creation : Bool → RequisitionInput → Operation
  requisition_approval : Bool → ApproveInput → Operation
  rfq_issue : Bool → RfqInput → Operation
  quotation_submission : Bool → QuotationInput → Operation
  rfq_award : OrderDependencies → AwardInput → Operation
  case_closing : String → Actor → Option String → Operation

-- The state after an operation.
unfoldable pub perform : Platform → Operation → World → World
perform p (escrow_creation d i) w = (create_escrow p d i w).1
perform p (escrow_transition d i) w = (transition_escrow p d i w).1
perform p (order_creation d i) w = (create_order p d i w).1
perform p (order_acknowledgement l i) w = (acknowledge_order p l i w).1
perform p (evidence_submission l a i) w = (submit_evidence p l a i w).1
perform p (invoice_submission l i) w = (submit_invoice p l i w).1
perform p (invoice_match l id a request) w = (verify_match p l id a request w).1
perform p (payment_approval l id a request) w = (approve_payment p l id a request w).1
perform p (requisition_creation l i) w = (create_requisition p l i w).1
perform p (requisition_approval l i) w = (approve_requisition p l i w).1
perform p (rfq_issue l i) w = (issue_rfq p l i w).1
perform p (quotation_submission l i) w = (submit_quotation p l i w).1
perform p (rfq_award d i) w = (award_rfq p d i w).1
perform p (case_closing id a notes) w = (close_case p id a notes w).1

-- The state after the operations, in order.
unfoldable pub run : Platform → List Operation → World → World
unfolding perform
run p [] w = w
run p (o ∷ os) w = run p os (perform p o w)
