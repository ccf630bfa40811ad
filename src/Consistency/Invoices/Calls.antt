-- ===== src/Consistency/Invoices/Calls.antt =====
-- `submitInvoice`, `verifyInvoiceMatch` and `approveInvoicePayment` keep the state consistent.
use blockchain_based_e_procu.Prelude.{
  ap, String, Bool, true, false, List, Option, none, some, ◌≡◌, ◌≢◌, refl, sym, subst, All, All-map,
  arith, eq_iff, find-eq-none, Bool-cases, inl, inr,
}
use blockchain_based_e_procu.Prelude.Text.{◌<>◌, ◌=s◌}
use blockchain_based_e_procu.Prelude.Store
use blockchain_based_e_procu.Prelude.Guard.{pass}
use blockchain_based_e_procu.Procurement.Actor.{Actor}
use blockchain_based_e_procu.Procurement.Books.{Passed, IsChecked, IsInvoice, OtherHash}
use blockchain_based_e_procu.Procurement.Invoice.{
  ProcurementInvoice, InvoiceStatus, match_passed, match_failed, invoice_key, find_invoice,
  find_by_invoice_hash,
}
use blockchain_based_e_procu.Lifecycle.Event.{LifecycleEvent}
use blockchain_based_e_procu.Procurement.Invoice
use blockchain_based_e_procu.Procurement.Invoicing.Matching.{passes_iff, passes-no_issues}
use blockchain_based_e_procu.Procurement.Invoicing.Review.{
  Match, passes, check_match, Approval, check_approval, is_match_passed,
}
use blockchain_based_e_procu.Procurement.Invoicing.Reviewing.{
  matched_invoice, approved_invoice, write_match, verify_match, write_approval, approve_payment,
}
use blockchain_based_e_procu.Procurement.Invoicing.Submit.{
  SubmitInvoiceInput, NewInvoice, check_invoice,
}
use blockchain_based_e_procu.Procurement.Invoicing.Submitting.{
  new_invoice, issue_invoice, unless_existing, write_invoice, submit_invoice,
}
use blockchain_based_e_procu.World.{World, Platform, read_clock, draw_id}
use blockchain_based_e_procu.Consistency.{
  IsConsistent, Ticked-IsConsistent, Latest-none, Kept, Kept-decide,
}
use blockchain_based_e_procu.Consistency.Invoices.{IsLone, append_and_save-Kept}

-- An invoice whose hash is not found has the hash of no stored one.
free-IsLone :
    (i : ProcurementInvoice) (invoices : List ProcurementInvoice)
    → find_by_invoice_hash i.invoice_hash invoices ≡ none
    → IsLone i invoices
unfolding find_by_invoice_hash
free-IsLone i invoices h =
    All-map (λ j. (j.invoice_hash =s i.invoice_hash) ≡ false)
      (λ j. invoice_key j ≢ invoice_key i → OtherHash i j)
      (λ j other apart same. ground (arith, eq_iff j.invoice_hash i.invoice_hash)) invoices
      (find-eq-none (λ j. j.invoice_hash =s i.invoice_hash) invoices h)

module _ (p : Platform) (lifecycle : Bool) (request : String) (n : NewInvoice)
    (hash submitted_at : String) (w : World) (h : IsConsistent w) where
  issue_invoice-Kept :
      find_by_invoice_hash hash w.invoices ≡ none
      → Kept (issue_invoice p lifecycle request n hash submitted_at w)
  unfolding issue_invoice draw_id new_invoice
  issue_invoice-Kept free =
      append_and_save-Kept p lifecycle (new_invoice n _ hash submitted_at) _ _ request _ _ (
        Ticked-IsConsistent w _ refl h,
        record { invoice_linked = Latest-none w.events n.order.order_id; checked = tt },
        free-IsLone (new_invoice n ("invoice_" <> p.uuid w.drawn) hash submitted_at) w.invoices
            free,
      )

  unless_existing-Kept :
      (existing : Option ProcurementInvoice)
      → find_by_invoice_hash hash w.invoices ≡ existing
      → Kept (unless_existing p lifecycle request existing n hash submitted_at w)
  unfolding unless_existing
  unless_existing-Kept none free = issue_invoice-Kept free
  unless_existing-Kept (some i) found = h

-- Submitting an invoice keeps the state consistent, however the call ends.
pub submit_invoice-Kept :
    (p : Platform) (lifecycle : Bool) (i : SubmitInvoiceInput) (w : World)
    → IsConsistent w
    → Kept (submit_invoice p lifecycle i w)
unfolding submit_invoice write_invoice read_clock
submit_invoice-Kept p lifecycle i w h =
    Kept-decide (check_invoice p i w) (write_invoice p lifecycle i.request_id) w h (λ n same.
      unless_existing-Kept p lifecycle i.request_id n _ _ _ (Ticked-IsConsistent w _ refl h) _ refl)

-- An invoice that is found, with another status and times, may be stored.
module _ (w : World) (h : IsConsistent w) (id : String) (i : ProcurementInvoice)
    (found : find_invoice id w.invoices ≡ some i) where
  found-IsInvoice : IsInvoice w.events i
  unfolding find_invoice
  found-IsInvoice =
      Store.All-get invoice_key (IsInvoice w.events) id w.invoices h.book_kept.invoices_kept found

  found-IsLone : IsLone i w.invoices
  unfolding find_invoice
  found-IsLone =
      subst (λ k. All (λ j. invoice_key j ≢ k → OtherHash i j) w.invoices)
        (sym (Store.get-key invoice_key id w.invoices found))
        (Store.Pairwise-get invoice_key OtherHash (λ a b n e. n (sym e)) id w.invoices
          h.book_kept.unique_hashes found)

matched-IsChecked :
    (m : Match) (now : String) → IsChecked (matched_invoice m now).status (matched_invoice m now)
unfolding matched_invoice
matched-IsChecked m now = elim (Bool-cases (passes m)) [
  | inl good ↦
      let (amount, _, evidence, _) = (passes_iff m).0 good in
      rw good
        (refl, passes-no_issues m good, ap (λ s. some s) amount, refl, ground (arith, evidence))
  | inr bad ↦ rw bad tt
]

check_match-found :
    (p : Platform) (id : String) (a : Actor) (w : World) (m : Match)
    → check_match p id a w ≡ pass m
    → find_invoice id w.invoices ≡ some m.invoice
unfolding check_match
check_match-found p id a w m h = ground arith

check_approval-found :
    (id : String) (a : Actor) (w : World) (g : Approval)
    → check_approval id a w ≡ pass g
    → (find_invoice id w.invoices ≡ some g.invoice) × (is_match_passed g.invoice.status ≡ true)
unfolding check_approval
check_approval-found id a w g h = ground arith

approved-IsChecked :
    (g : Approval) (now : String)
    → IsChecked g.invoice.status g.invoice
    → is_match_passed g.invoice.status ≡ true
    → IsChecked (approved_invoice g now).status (approved_invoice g now)
unfolding approved_invoice is_match_passed
approved-IsChecked g now h good = (passed_of g.invoice.status g.invoice h good, refl, refl)
  where
    passed_of :
        (s : InvoiceStatus) (i : ProcurementInvoice)
        → IsChecked s i
        → is_match_passed s ≡ true
        → Passed i
    passed_of Invoice.match_passed i h good = h
    passed_of Invoice.submitted i h good = absurd (cc good)
    passed_of Invoice.match_failed i h good = absurd (cc good)
    passed_of Invoice.payment_approved i h good = absurd (cc good)
    passed_of Invoice.rejected i h good = absurd (cc good)

matched-IsInvoice :
    (m : Match) (now : String) (log : List LifecycleEvent)
    → IsInvoice log m.invoice
    → IsInvoice log (matched_invoice m now)
matched-IsInvoice m now log known = record {
  invoice_linked = unfold matched_invoice in known.invoice_linked;
  checked = matched-IsChecked m now;
}

approved-IsInvoice :
    (g : Approval) (now : String) (log : List LifecycleEvent)
    → IsInvoice log g.invoice
    → is_match_passed g.invoice.status ≡ true
    → IsInvoice log (approved_invoice g now)
approved-IsInvoice g now log known good = record {
  invoice_linked = unfold approved_invoice in known.invoice_linked;
  checked = approved-IsChecked g now known.checked good;
}

module _ (p : Platform) (lifecycle : Bool) (id : String) (a : Actor) (request : String) (w : World)
    (h : IsConsistent w) where
  -- Matching an invoice keeps the state consistent, however the call ends.
  pub verify_match-Kept : Kept (verify_match p lifecycle id a request w)
  unfolding verify_match write_match read_clock
  verify_match-Kept =
      Kept-decide (check_match p id a w) (write_match p lifecycle id a request) w h (λ m same.
        let found = check_match-found p id a w m same in
        let now = p.clock w.ticks in
        append_and_save-Kept p lifecycle (matched_invoice m now) _ _ request _ _ (
          Ticked-IsConsistent w _ refl h,
          matched-IsInvoice m now w.events (found-IsInvoice w h id m.invoice found),
          unfold matched_invoice in found-IsLone w h id m.invoice found,
        ))

  -- Approving a payment keeps the state consistent, however the call ends.
  pub approve_payment-Kept : Kept (approve_payment p lifecycle id a request w)
  unfolding approve_payment write_approval read_clock
  approve_payment-Kept =
      Kept-decide (check_approval id a w) (write_approval p lifecycle id a request) w h (λ g same.
        let (found, good) = check_approval-found id a w g same in
        let now = p.clock w.ticks in
        append_and_save-Kept p lifecycle (approved_invoice g now) _ _ request _ _ (
          Ticked-IsConsistent w _ refl h,
          approved-IsInvoice g now w.events (found-IsInvoice w h id g.invoice found) good,
          unfold approved_invoice in found-IsLone w h id g.invoice found,
        ))
