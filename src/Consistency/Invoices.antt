-- ===== src/Consistency/Invoices.antt =====
-- Submitting, matching and approving an invoice keeps the state consistent.
pub mod Calls
use blockchain_based_e_procu.Prelude.{
  String, Bool, true, List, [], Option, none, some, ◌≡◌, ◌≢◌, refl, sym, subst, All, All-map, arith,
  eq_iff, find-eq-none, if◌then◌else◌, Option-cases, Bool-cases, inl, inr, is_some,
}
use blockchain_based_e_procu.Prelude.Text.{◌=s◌}
use blockchain_based_e_procu.Prelude.Store
use blockchain_based_e_procu.Prelude.Effect.{pure, and_then, ◌>>=◌}
use blockchain_based_e_procu.Prelude.After.{After, After-bind}
use blockchain_based_e_procu.Json.{Json}
use blockchain_based_e_procu.Lifecycle.Event.{LifecycleEvent}
use blockchain_based_e_procu.Lifecycle.Source.{SourceAction}
use blockchain_based_e_procu.Procurement.Actor.{Actor}
use blockchain_based_e_procu.Procurement.Books.{
  Latest, IsChecked, IsInvoice, OtherHash, IsInvoiceBook,
}
use blockchain_based_e_procu.Procurement.Invoice.{
  ProcurementInvoice, InvoiceStatus, invoice_key, find_invoice, find_by_invoice_hash,
}
use blockchain_based_e_procu.Procurement.Invoice
use blockchain_based_e_procu.Procurement.Invoicing.{
  InvoiceResult, invoice_ok, invoice_event_input, invoice_after, append_invoice_event,
}
use blockchain_based_e_procu.Procurement.Invoicing.Submit.{
  SubmitInvoiceInput, NewInvoice, check_invoice,
}
use blockchain_based_e_procu.Procurement.Invoicing.Submitting.{
  new_invoice, issue_invoice, unless_existing, write_invoice, submit_invoice,
}
use blockchain_based_e_procu.World.{World, App, Platform, save_invoice, read_clock, draw_id}
use blockchain_based_e_procu.Consistency.{
  IsConsistent, Ticked-IsConsistent, IsBeside, Latest-none, Recorded, record-Recorded, Kept,
  Kept-bind, Kept-decide, Kept-record,
}

-- No invoice under another identifier has the hash of this one.
abbrev pub IsLone : ProcurementInvoice → List ProcurementInvoice → Type 0
IsLone i invoices = All (λ j. invoice_key j ≢ invoice_key i → OtherHash i j) invoices

pub save_invoice-Kept :
    (i : ProcurementInvoice) (w : World)
    → IsInvoice w.events i
    → IsLone i w.invoices
    → IsConsistent w
    → Kept (save_invoice i w)
unfolding save_invoice
save_invoice-Kept i w kept lone h = record {
  escrows_sound = h.escrows_sound;
  orders_kept = h.orders_kept;
  book_kept = record {
    unique_ids = Store.HasUniqueKeys-put invoice_key i w.invoices h.book_kept.unique_ids;
    unique_hashes =
        Store.Pairwise-put invoice_key OtherHash (λ a b n e. n (sym e)) i w.invoices
          h.book_kept.unique_ids h.book_kept.unique_hashes lone;
    invoices_kept =
        Store.All-put invoice_key (IsInvoice w.events) i w.invoices kept h.book_kept.invoices_kept;
  };
  cases_kept = h.cases_kept;
  generated = h.generated;
}

invoice_after-IsChecked :
    (s : InvoiceStatus) (event : Option LifecycleEvent) (i : ProcurementInvoice)
    → IsChecked s i
    → IsChecked s (invoice_after event i)
unfolding invoice_after
invoice_after-IsChecked Invoice.submitted event i h = h
invoice_after-IsChecked Invoice.match_passed event i h = h
invoice_after-IsChecked Invoice.match_failed event i h = h
invoice_after-IsChecked Invoice.payment_approved event i h = h
invoice_after-IsChecked Invoice.rejected event i h = h

-- An invoice that may be stored.
abbrev pub IsReady : ProcurementInvoice → World → Type 0
IsReady i w = IsConsistent w × IsInvoice w.events i × IsLone i w.invoices

module _ (p : Platform) (lifecycle : Bool) (i : ProcurementInvoice) (action : SourceAction)
    (user request : String) (metadata : Json) (w : World) (ready : IsReady i w) where
  append-IsReady :
      After IsReady IsConsistent (append_invoice_event p lifecycle i action user request metadata w)
  unfolding append_invoice_event invoice_event_input invoice_after
  append-IsReady =
      let (h, kept, lone) = ready in
      After-bind
        (Recorded p lifecycle (invoice_event_input i action user request metadata) w i.order_id
          i.latest_lifecycle_payload_hash)
        IsReady IsConsistent _ _
        (record-Recorded p lifecycle _ w i.order_id i.latest_lifecycle_payload_hash refl refl h
          kept.invoice_linked)
        (λ event v (same, linked, beside). (
          same,
          record {
            invoice_linked = linked;
            checked = invoice_after-IsChecked i.status event i kept.checked;
          },
          rw (beside.1) lone,
        ))

  -- The event of an invoice, and the write of the invoice with it.
  pub append_and_save-Kept : Kept (
      and_then
        (append_invoice_event p lifecycle i action user request metadata w)
        (λ j. save_invoice j >>= λ saved. pure (invoice_ok saved)))
  append_and_save-Kept =
      After-bind IsReady (λ r v. IsConsistent v) IsConsistent _ _ append-IsReady
        (λ j v (h, kept, lone).
          Kept-bind (save_invoice j v) _ (save_invoice-Kept j v kept lone h) λ saved u k. k)
