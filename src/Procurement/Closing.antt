-- ===== src/Procurement/Closing.antt =====
-- application/procurement-closeout-service.ts: the figures of a supplier.
pub mod Service
pub mod Bounds
use blockchain_based_e_procu.Prelude.{
  ℕ, suc, String, Bool, true, false, ◌||◌, List, [], ◌∷◌, ◌++◌, Option, none, some, ◌+◌, ◌-◌, ◌*◌,
  ltb, leb, length, filter, is_empty, map, if◌then◌else◌,
}
use blockchain_based_e_procu.Blockchain.Anchor.{
  AnchorStatus, not_anchored, pending, anchored, failed,
}
use blockchain_based_e_procu.Procurement.Closeout.{CaseCloseout, SupplierPerformanceSummary}
use blockchain_based_e_procu.Procurement.Evidence.{DeliveryEvidenceRecord, EvidenceBlockchainAnchor}
use blockchain_based_e_procu.Procurement.Invoice.{
  ProcurementInvoice, InvoiceStatus, MatchStatus, match_failed,
}
use blockchain_based_e_procu.Procurement.Invoice
use blockchain_based_e_procu.Procurement.Order.{ProcurementOrder}
use blockchain_based_e_procu.World.{Platform}

abbrev min : ℕ → ℕ → ℕ
min a b = if leb a b then a else b

-- The statuses that `proofCoverage` counts.
abbrev is_counted : AnchorStatus → Bool
is_counted anchored = true
is_counted pending = true
is_counted not_anchored = true
is_counted failed = true

unfoldable pub with_proof : Option EvidenceBlockchainAnchor → Bool
with_proof none = false
with_proof (some a) = is_counted a.anchor_status

-- `proofCoverage`
unfoldable pub proof_coverage : Platform → List DeliveryEvidenceRecord → ℕ
unfolding with_proof
proof_coverage p [] = 0
proof_coverage p (r ∷ evidence) =
    p.round_ratio (length (filter (λ s. with_proof s.blockchain_anchor) (r ∷ evidence)))
      (length (r ∷ evidence)) 100

abbrev is_match_failed : InvoiceStatus → Bool
is_match_failed match_failed = true
is_match_failed _ = false

abbrev is_failed : MatchStatus → Bool
is_failed Invoice.failed = true
is_failed _ = false

abbrev pub is_exception : ProcurementInvoice → Bool
is_exception i = is_match_failed i.status || is_failed i.match_result.status

-- `invoiceExceptions`
unfoldable pub invoice_exceptions : List ProcurementInvoice → ℕ
invoice_exceptions invoices = length (filter is_exception invoices)

-- `values.sort().pop()`
last_of : (String → String → Bool) → List String → Option String
last_of le [] = none
last_of le (s ∷ ss) = elim (last_of le ss) [
  | none ↦ some s
  | some t ↦ some (if le s t then t else s)
]

-- `orders[0]?.supplierOrganizationId ?? closeouts[0]?.supplierOrganizationId ?? 'unknown'`
abbrev supplier_of : List ProcurementOrder → List CaseCloseout → String
supplier_of (o ∷ orders) closeouts = o.supplier_organization_id
supplier_of [] (c ∷ closeouts) = c.supplier_organization_id
supplier_of [] [] = "unknown"

-- `deliveryBonus`
unfoldable pub delivery_bonus : Platform → ℕ → ℕ → ℕ
delivery_bonus p evidence orders =
    if ltb 0 orders then min 15 (p.round_ratio evidence orders 15) else 0

-- `score`: the subtraction stops at zero, as `Math.max(0, …)` does.
unfoldable pub score : ℕ → ℕ → ℕ → ℕ → ℕ
score delivery_bonus proof_bonus closeout_bonus exceptions =
    min 100 ((70 + delivery_bonus + proof_bonus + closeout_bonus) - exceptions * 10)

module _ (p : Platform) (orders : List ProcurementOrder) (evidence : List DeliveryEvidenceRecord)
    (invoices : List ProcurementInvoice) (closeouts : List CaseCloseout) where
  -- `scoreFor`
  unfoldable pub score_for : SupplierPerformanceSummary
  unfolding proof_coverage invoice_exceptions last_of delivery_bonus score
  score_for = record {
    supplier_organization_id = supplier_of orders closeouts;
    order_count = length orders;
    delivery_evidence_count = length evidence;
    invoice_count = length invoices;
    invoice_exception_count = invoice_exceptions invoices;
    proof_coverage_percent = proof_coverage p evidence;
    closeout_count = length closeouts;
    score =
        score (delivery_bonus p (length evidence) (length orders))
          (p.round_tenth (proof_coverage p evidence)) (if is_empty closeouts then 0 else 5)
          (invoice_exceptions invoices);
    last_updated_at = last_of p.text_le (
        map (λ (o : ProcurementOrder). o.updated_at) orders
        ++ (map (λ (r : DeliveryEvidenceRecord). r.submitted_at) evidence
            ++ (map (λ (i : ProcurementInvoice). i.updated_at) invoices
                ++ map (λ (c : CaseCloseout). c.closed_at) closeouts)));
  }
