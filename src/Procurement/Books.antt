-- ===== src/Procurement/Books.antt =====
-- What holds of the stored orders, invoices and cases, and of their links to the log of events.
use mathlib.Core.List.{Memᴰ}
use blockchain_based_e_procu.Prelude.{
  String, true, List, [], ◌++◌, Option, none, some, ◌≡◌, ◌≢◌, All, All-map, Pairwise, is_some,
}
use blockchain_based_e_procu.Prelude.Store.{HasUniqueKeys}
use blockchain_based_e_procu.Lifecycle.Event.{LifecycleEvent}
use blockchain_based_e_procu.Procurement.Order.{
  ProcurementOrder, OrderStatus, created, accepted, rejected, find_order,
}
use blockchain_based_e_procu.Procurement.Invoice.{
  ProcurementInvoice, InvoiceStatus, match_passed, payment_approved, passed, invoice_key,
}
use blockchain_based_e_procu.Procurement.Invoice
use blockchain_based_e_procu.Procurement.SourceCase.{
  SourceToAwardCase, SourceToAwardStatus, Quotation, Rfq, Award, requisition_pending_approval,
  requisition_approved, rfq_issued, quotation_received, awarded, purchase_order_generated, invites,
}
use blockchain_based_e_procu.Escrow.Invariant.{Memᴰ-append}

-- The hash that a record names last is that of an event of the log, under the case and the
-- correlation that the record gives its events.
abbrev pub Latest : List LifecycleEvent → String → Option String → Type 0
Latest log case latest =
    (hash : String)
    → latest ≡ some hash
    → (f : LifecycleEvent) × Memᴰ f log
      × (f.payload_hash ≡ hash)
      × (f.case_id ≡ case)
      × (f.correlation_id ≡ case)

-- Who has accepted or rejected an order, by its status.
abbrev pub IsStamped : OrderStatus → Option String → Option String → Type 0
IsStamped created accepted_by rejected_by = (accepted_by ≡ none) × (rejected_by ≡ none)
IsStamped accepted accepted_by rejected_by = (is_some accepted_by ≡ true) × (rejected_by ≡ none)
IsStamped rejected accepted_by rejected_by = (accepted_by ≡ none) × (is_some rejected_by ≡ true)

pub record IsOrder (log : List LifecycleEvent) (o : ProcurementOrder) : Type 0 where
  pub order_linked : Latest log o.order_id o.latest_lifecycle_payload_hash
  pub stamped : IsStamped o.status o.accepted_by o.rejected_by

-- The result of a match that an invoice needs at a status: one that has passed, without issues, with
-- the same amount on the order and the invoice, and with evidence.
abbrev pub Passed : ProcurementInvoice → Type 0
Passed i =
    (i.match_result.status ≡ passed)
    × (i.match_result.issues ≡ [])
    × (i.match_result.order_amount ≡ some i.amount)
    × (i.match_result.invoice_amount ≡ some i.amount)
    × (is_some i.match_result.delivery_evidence_id ≡ true)

abbrev pub IsChecked : InvoiceStatus → ProcurementInvoice → Type 0
IsChecked match_passed i = Passed i
IsChecked payment_approved i =
    Passed i
    × (is_some i.payment_approved_by_user_id ≡ true)
    × (is_some i.payment_approved_at ≡ true)
IsChecked Invoice.submitted i = Unit
IsChecked Invoice.match_failed i = Unit
IsChecked Invoice.rejected i = Unit

pub record IsInvoice (log : List LifecycleEvent) (i : ProcurementInvoice) : Type 0 where
  pub invoice_linked : Latest log i.order_id i.latest_lifecycle_payload_hash
  pub checked : IsChecked i.status i

abbrev pub OtherHash : ProcurementInvoice → ProcurementInvoice → Type 0
OtherHash i j = i.invoice_hash ≢ j.invoice_hash

-- Identifiers and hashes of invoices are unique, and each invoice is well-formed.
pub record IsInvoiceBook (log : List LifecycleEvent) (invoices : List ProcurementInvoice)
    : Type 0 where
  pub unique_ids : HasUniqueKeys invoice_key invoices
  pub unique_hashes : Pairwise OtherHash invoices
  pub invoices_kept : All (IsInvoice log) invoices

-- The parts of a case that a status wants.
abbrev pub HasParts :
    SourceToAwardStatus → Option Rfq → List Quotation → Option Award → Option String → Type 0
HasParts requisition_pending_approval rfq quotations award order =
    (rfq ≡ none) × (quotations ≡ []) × (award ≡ none) × (order ≡ none)
HasParts requisition_approved rfq quotations award order =
    (rfq ≡ none) × (quotations ≡ []) × (award ≡ none) × (order ≡ none)
HasParts rfq_issued rfq quotations award order =
    (is_some rfq ≡ true) × (quotations ≡ []) × (award ≡ none) × (order ≡ none)
HasParts quotation_received rfq quotations award order =
    (is_some rfq ≡ true) × (quotations ≢ []) × (award ≡ none) × (order ≡ none)
HasParts awarded rfq quotations award order = ¬ Unit {0}
HasParts purchase_order_generated rfq quotations award order =
    (is_some rfq ≡ true)
    × ((a : Award) × (award ≡ some a)
        × (is_some order ≡ true)
        × (a.generated_order_id ≡ order)
        × ((q : Quotation) × Memᴰ q quotations
            × (q.quotation_id ≡ a.quotation_id)
            × (q.supplier_organization_id ≡ a.supplier_organization_id)))

abbrev pub OtherSupplier : Quotation → Quotation → Type 0
OtherSupplier q r = q.supplier_organization_id ≢ r.supplier_organization_id

abbrev pub IsInvited : Option Rfq → Quotation → Type 0
IsInvited rfq q = invites q.supplier_organization_id rfq ≡ true

-- A case has the parts that its status wants, at most one quotation for a supplier, and quotations
-- of invited suppliers only.
pub record IsCase (log : List LifecycleEvent) (c : SourceToAwardCase) : Type 0 where
  pub case_linked : Latest log c.case_id c.latest_lifecycle_payload_hash
  pub parts : HasParts c.status c.rfq c.quotations c.award c.generated_order_id
  pub one_each : Pairwise OtherSupplier c.quotations
  pub invited : All (IsInvited c.rfq) c.quotations

-- The order that a case has generated is stored.
abbrev pub IsGenerated : List ProcurementOrder → SourceToAwardCase → Type 0
IsGenerated orders c =
    (id : String) → c.generated_order_id ≡ some id → is_some (find_order id orders) ≡ true

pub Latest-append :
    (log more : List LifecycleEvent) (case : String) (latest : Option String)
    → Latest log case latest
    → Latest (log ++ more) case latest
Latest-append log more case latest h hash named =
    let (f, m, same, c, r) = h hash named in (f, Memᴰ-append log more m, same, c, r)

-- Where the links to the log are kept, so is what holds of the records.
module _ (log log' : List LifecycleEvent)
    (grows : (case : String) (latest : Option String)
      → Latest log case latest
      → Latest log' case latest) where
  pub orders-grow :
      (orders : List ProcurementOrder) → All (IsOrder log) orders → All (IsOrder log') orders
  orders-grow orders h =
      All-map (IsOrder log) (IsOrder log')
        (λ o k. record {
          order_linked = grows o.order_id o.latest_lifecycle_payload_hash k.order_linked;
          stamped = k.stamped;
        })
        orders h

  pub invoices-grow :
      (invoices : List ProcurementInvoice)
      → IsInvoiceBook log invoices
      → IsInvoiceBook log' invoices
  invoices-grow invoices h = record {
    unique_ids = h.unique_ids;
    unique_hashes = h.unique_hashes;
    invoices_kept =
        All-map (IsInvoice log) (IsInvoice log')
          (λ i k. record {
            invoice_linked = grows i.order_id i.latest_lifecycle_payload_hash k.invoice_linked;
            checked = k.checked;
          })
          invoices h.invoices_kept;
  }

  pub cases-grow :
      (cases : List SourceToAwardCase) → All (IsCase log) cases → All (IsCase log') cases
  cases-grow cases h =
      All-map (IsCase log) (IsCase log')
        (λ c k. record {
          case_linked = grows c.case_id c.latest_lifecycle_payload_hash k.case_linked;
          parts = k.parts;
          one_each = k.one_each;
          invited = k.invited;
        })
        cases h
