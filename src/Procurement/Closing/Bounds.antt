-- ===== src/Procurement/Closing/Bounds.antt =====
-- The bounds of the figures of a supplier.
use blockchain_based_e_procu.Prelude.{
  ℕ, Bool, List, [], ◌∷◌, ◌≤◌, ◌*◌, ◌-◌, ◌<◌, arith, length, filter, is_empty, if◌then◌else◌,
}
use blockchain_based_e_procu.Procurement.Closeout.{CaseCloseout}
use blockchain_based_e_procu.Procurement.Closing.{
  proof_coverage, invoice_exceptions, is_exception, score, score_for, with_proof, delivery_bonus,
}
use blockchain_based_e_procu.Procurement.Evidence.{DeliveryEvidenceRecord}
use blockchain_based_e_procu.Procurement.Invoice.{ProcurementInvoice}
use blockchain_based_e_procu.Procurement.Order.{ProcurementOrder}
use blockchain_based_e_procu.World.{Platform}

length-filter {ℓ} : {A : Type ℓ} (p : A → Bool) (xs : List A) → length (filter p xs) ≤ length xs
length-filter p [] = omega arith
length-filter p (x ∷ xs) = ground (arith, length-filter p xs)

-- The rounding of the platform, as far as the bounds need it: a part of a whole is no more than the
-- whole, and a tenth of at most a hundred is at most ten.
pub record RoundsParts (p : Platform) : Type 0 where
  pub ratio_le :
      (part whole scale : ℕ) → 0 < whole → part ≤ whole → p.round_ratio part whole scale ≤ scale
  pub tenth_le : (n : ℕ) → n ≤ 100 → p.round_tenth n ≤ 10

proof_coverage-le :
    (p : Platform) (evidence : List DeliveryEvidenceRecord)
    → RoundsParts p
    → proof_coverage p evidence ≤ 100
unfolding proof_coverage
proof_coverage-le p [] rounds = omega arith
proof_coverage-le p (r ∷ evidence) rounds =
    rounds.ratio_le _ _ 100 (omega arith) (
      length-filter (λ (s : DeliveryEvidenceRecord). with_proof s.blockchain_anchor) (r ∷ evidence))

delivery_bonus-le : (p : Platform) (evidence orders : ℕ) → delivery_bonus p evidence orders ≤ 15
unfolding delivery_bonus
delivery_bonus-le p evidence orders = ground arith

closeout_bonus-le : (b : Bool) → (if b then 0 else 5) ≤ 5
closeout_bonus-le b = ground arith

score-le :
    (d q c e : ℕ)
    → d ≤ 15
    → q ≤ 10
    → c ≤ 5
    → (70 - e * 10 ≤ score d q c e) × (score d q c e ≤ 100 - e * 10)
unfolding score
score-le d q c e hd hq hc = (ground arith, ground arith)

-- Where the platform rounds a part of a whole to no more than the whole: the score lies between
-- seventy and a hundred points less ten for each exception of the invoices, where the subtraction
-- stops at zero, and the coverage is at most a hundred per cent. So without exceptions the score is
-- at least seventy, and with ten of them or more it is zero.
pub score_for_bounds :
    (p : Platform) (orders : List ProcurementOrder) (evidence : List DeliveryEvidenceRecord)
    (invoices : List ProcurementInvoice) (closeouts : List CaseCloseout)
    → RoundsParts p
    → (70 - length (filter is_exception invoices) * 10
        ≤ (score_for p orders evidence invoices closeouts).score)
      × ((score_for p orders evidence invoices closeouts).score
          ≤ 100 - length (filter is_exception invoices) * 10)
      × ((score_for p orders evidence invoices closeouts).proof_coverage_percent ≤ 100)
unfolding score_for invoice_exceptions
score_for_bounds p orders evidence invoices closeouts rounds =
    let covered = proof_coverage-le p evidence rounds in
    let (low, high) =
      score-le (delivery_bonus p (length evidence) (length orders))
        (p.round_tenth (proof_coverage p evidence)) (if is_empty closeouts then 0 else 5)
        (length (filter is_exception invoices))
        (delivery_bonus-le p (length evidence) (length orders))
        (rounds.tenth_le (proof_coverage p evidence) covered)
        (closeout_bonus-le (is_empty closeouts)) in
    (low, high, covered)
