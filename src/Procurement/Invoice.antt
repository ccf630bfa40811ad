-- ===== src/Procurement/Invoice.antt =====
-- domain/invoice.ts and infrastructure/in-memory-invoice-repository.ts.
use blockchain_based_e_procu.Prelude.{String, List, Option, find, filter}
use blockchain_based_e_procu.Prelude.Text.{◌=s◌}
use blockchain_based_e_procu.Prelude.Store

pub data InvoiceStatus : Type 0 where
  submitted match_passed match_failed payment_approved rejected : InvoiceStatus

pub data MatchStatus : Type 0 where
  not_checked passed failed : MatchStatus

pub record InvoiceMatchResult : Type 0 where
  pub status : MatchStatus
  pub checked_at : Option String
  pub checked_by_user_id : Option String
  pub issues : List String
  pub order_amount : Option String
  pub invoice_amount : Option String
  pub delivery_evidence_id : Option String

pub record ProcurementInvoice : Type 0 where
  pub invoice_id : String
  pub order_id : String
  pub delivery_evidence_id : Option String
  pub supplier_organization_id : String
  pub buyer_organization_id : String
  pub submitted_by_user_id : String
  pub amount : String
  pub tax : Option String
  pub currency : String
  pub invoice_reference : Option String
  pub invoice_hash : String
  pub status : InvoiceStatus
  pub match_result : InvoiceMatchResult
  pub submitted_at : String
  pub updated_at : String
  pub payment_approved_by_user_id : Option String
  pub payment_approved_at : Option String
  pub lifecycle_event_ids : List String
  pub latest_lifecycle_payload_hash : Option String

abbrev pub invoice_key : ProcurementInvoice → String
invoice_key i = i.invoice_id

-- `findById`
unfoldable pub find_invoice : String → List ProcurementInvoice → Option ProcurementInvoice
find_invoice id invoices = Store.get invoice_key id invoices

-- `findByInvoiceHash`
unfoldable pub find_by_invoice_hash : String → List ProcurementInvoice → Option ProcurementInvoice
find_by_invoice_hash hash invoices = find (λ i. i.invoice_hash =s hash) invoices

-- `listByOrderId`
unfoldable pub invoices_of_order : String → List ProcurementInvoice → List ProcurementInvoice
invoices_of_order order_id invoices = filter (λ i. i.order_id =s order_id) invoices

-- `listByBuyerOrganization`
unfoldable pub invoices_of_buyer : String → List ProcurementInvoice → List ProcurementInvoice
invoices_of_buyer id invoices = filter (λ i. i.buyer_organization_id =s id) invoices

-- `listBySupplierOrganization`
unfoldable pub invoices_of_supplier : String → List ProcurementInvoice → List ProcurementInvoice
invoices_of_supplier id invoices = filter (λ i. i.supplier_organization_id =s id) invoices
