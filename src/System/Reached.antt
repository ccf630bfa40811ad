-- ===== src/System/Reached.antt =====
-- What holds in every state that sequences of calls reach.
use mathlib.Core.List.{Memᴰ}
use blockchain_based_e_procu.Prelude.{
  String, true, List, [], ◌∷◌, some, ◌≡◌, subst, All, All-mem, Pairwise, is_some,
}
use blockchain_based_e_procu.Prelude.After.{After-world}
use blockchain_based_e_procu.Procurement.Books.{
  Passed, IsChecked, OtherSupplier, IsInvited, HasParts, IsCase, IsInvoice, IsGenerated,
}
use blockchain_based_e_procu.Procurement.Invoice.{ProcurementInvoice, payment_approved}
use blockchain_based_e_procu.Procurement.Order.{find_order}
use blockchain_based_e_procu.Procurement.SourceCase.{SourceToAwardCase}
use blockchain_based_e_procu.World.{World, Platform}
use blockchain_based_e_procu.Consistency.{IsConsistent}
use blockchain_based_e_procu.Consistency.Cases.Award.{award_rfq-Kept}
use blockchain_based_e_procu.Consistency.Cases.Calls.{
  create_requisition-Kept, approve_requisition-Kept, issue_rfq-Kept, submit_quotation-Kept,
}
use blockchain_based_e_procu.Consistency.Closings.{close_case-Kept}
use blockchain_based_e_procu.Consistency.Deliveries.{submit_evidence-Kept}
use blockchain_based_e_procu.Consistency.Escrows.{
  create_escrow-IsConsistent, transition_escrow-IsConsistent,
}
use blockchain_based_e_procu.Consistency.Invoices.Calls.{
  submit_invoice-Kept, verify_match-Kept, approve_payment-Kept,
}
use blockchain_based_e_procu.Consistency.Orders.{create_order-Kept, acknowledge_order-Kept}
use blockchain_based_e_procu.System.{Operation, perform, run}
use blockchain_based_e_procu.System

perform-IsConsistent :
    (p : Platform) (o : Operation) (w : World) → IsConsistent w → IsConsistent (perform p o w)
unfolding perform
perform-IsConsistent p (System.escrow_creation d i) w h = create_escrow-IsConsistent p d w h i
perform-IsConsistent p (System.escrow_transition d i) w h = transition_escrow-IsConsistent p d w h i
perform-IsConsistent p (System.order_creation d i) w h =
    After-world IsConsistent _ (create_order-Kept p d i w h)
perform-IsConsistent p (System.order_acknowledgement l i) w h =
    After-world IsConsistent _ (acknowledge_order-Kept p l i w h)
perform-IsConsistent p (System.evidence_submission l a i) w h =
    After-world IsConsistent _ (submit_evidence-Kept p l a i w h)
perform-IsConsistent p (System.invoice_submission l i) w h =
    After-world IsConsistent _ (submit_invoice-Kept p l i w h)
perform-IsConsistent p (System.invoice_match l id a r) w h =
    After-world IsConsistent _ (verify_match-Kept p l id a r w h)
perform-IsConsistent p (System.payment_approval l id a r) w h =
    After-world IsConsistent _ (approve_payment-Kept p l id a r w h)
perform-IsConsistent p (System.requisition_creation l i) w h =
    After-world IsConsistent _ (create_requisition-Kept p l w h i)
perform-IsConsistent p (System.requisition_approval l i) w h =
    After-world IsConsistent _ (approve_requisition-Kept p l w h i)
perform-IsConsistent p (System.rfq_issue l i) w h =
    After-world IsConsistent _ (issue_rfq-Kept p l w h i)
perform-IsConsistent p (System.quotation_submission l i) w h =
    After-world IsConsistent _ (submit_quotation-Kept p l w h i)
perform-IsConsistent p (System.rfq_award d i) w h =
    After-world IsConsistent _ (award_rfq-Kept p d i w h)
perform-IsConsistent p (System.case_closing id a notes) w h =
    After-world IsConsistent _ (close_case-Kept p id a notes w h)

run-keeps :
    (p : Platform) (os : List Operation) (w : World) → IsConsistent w → IsConsistent (run p os w)
unfolding run
run-keeps p [] w h = h
run-keeps p (o ∷ os) w h = run-keeps p os (perform p o w) (perform-IsConsistent p o w h)

-- A state without events and without records of the four kinds.
pub record IsBlank (w : World) : Type 0 where
  pub no_events : w.events ≡ []
  pub no_escrows : w.escrows ≡ []
  pub no_orders : w.orders ≡ []
  pub no_invoices : w.invoices ≡ []
  pub no_cases : w.cases ≡ []

IsBlank-IsConsistent : (w : World) → IsBlank w → IsConsistent w
IsBlank-IsConsistent w b = record {
  escrows_sound =
      rw (b.no_events, b.no_escrows)
        (record {
          intact = record { unique_ids = tt; unique_hashes = tt; linked = tt };
          unique = tt;
          one_active = tt;
          linked = tt;
        });
  orders_kept = rw (b.no_orders) tt;
  book_kept =
      rw (b.no_invoices) (record { unique_ids = tt; unique_hashes = tt; invoices_kept = tt });
  cases_kept = rw (b.no_cases) tt;
  generated = rw (b.no_cases) tt;
}

module _ (p : Platform) (os : List Operation) (w : World) (blank : IsBlank w) where
  -- From a state without events and records, every sequence of the writing operations of the
  -- escrow and procurement services leads to a consistent state, also through operations that
  -- throw halfway: the log is intact, the escrows are sound, every order, invoice and case that
  -- names a last event names one that is in the log under its own case and correlation, orders,
  -- invoices and cases are well-formed, and no two invoices have the same identifier or the same
  -- hash.
  pub run-IsConsistent : IsConsistent (run p os w)
  run-IsConsistent = run-keeps p os w (IsBlank-IsConsistent w blank)

  -- In every state that a sequence of the writing operations of the escrow and procurement
  -- services reaches from one without events and records, an invoice whose payment is approved has
  -- passed a match without issues, where the order had the amount of the invoice and delivery
  -- evidence was there, and it names who approved it and when.
  pub paid-Passed :
      (i : ProcurementInvoice)
      → Memᴰ i (run p os w).invoices
      → i.status ≡ payment_approved
      → Passed i
        × (is_some i.payment_approved_by_user_id ≡ true)
        × (is_some i.payment_approved_at ≡ true)
  paid-Passed i m paid =
      let known =
        All-mem (IsInvoice (run p os w).events) _ run-IsConsistent.book_kept.invoices_kept m in
      subst (λ s. IsChecked s i) paid known.checked

  -- In every state that a sequence of the writing operations of the escrow and procurement
  -- services reaches from one without events and records, a source-to-award case has the parts
  -- that its status wants, is never left at the status of an award without its order, and has
  -- quotations of invited suppliers only, at most one for each.
  pub case-HasParts :
      (c : SourceToAwardCase)
      → Memᴰ c (run p os w).cases
      → HasParts c.status c.rfq c.quotations c.award c.generated_order_id
        × Pairwise OtherSupplier c.quotations
        × All (IsInvited c.rfq) c.quotations
  case-HasParts c m =
      let known = All-mem (IsCase (run p os w).events) _ run-IsConsistent.cases_kept m in
      (known.parts, known.one_each, known.invited)

  -- In every state that a sequence of the writing operations of the escrow and procurement
  -- services reaches from one without events and records, the order that a source-to-award case
  -- has generated is stored.
  pub generated-stored :
      (c : SourceToAwardCase) (id : String)
      → Memᴰ c (run p os w).cases
      → c.generated_order_id ≡ some id
      → is_some (find_order id (run p os w).orders) ≡ true
  generated-stored c id m named =
      All-mem (IsGenerated (run p os w).orders) _ run-IsConsistent.generated m id named
