-- ===== src/Financing/Distribution/Outcomes.antt =====
-- What `createPlsDistribution` (application/pls-contract-service.ts) leaves alone.
use blockchain_based_e_procu.Prelude.{
  String, true, false, List, [], ◌∷◌, Option, none, some, ◌≡◌, refl, sym, ◌∙◌, ◌≢◌, ap, Bool-cases,
  inl, inr, ◌⊎◌,
}
use blockchain_based_e_procu.Prelude.Text.{trimmed}
use blockchain_based_e_procu.Financing.Money.{ℤ, parse_money}
use blockchain_based_e_procu.Financing.Contract.{
  PlsContract, DistributionEventType, DistributionRecord, PlsState, find_contract,
}
use blockchain_based_e_procu.Financing.Distribution.{
  DistributionInput, DistributionResult, created, ValidationIssue, validate_distribution_input,
  is_active, distribute, distribute_for, distribute_valid, create_distribution,
}

module _ (id now : String) (i : DistributionInput) (s : PlsState) where
  -- What holds of the state after a call that created nothing.
  abbrev Keeps : DistributionResult × PlsState → Type 0
  Keeps q = ((d : DistributionRecord) → q.0 ≢ created d) → q.1 ≡ s

  distribute-Keeps :
      (c : PlsContract) (e : Option DistributionEventType) (z : Option ℤ)
      → Keeps (distribute id now i c e z s)
  unfolding distribute
  distribute-Keeps c (some e) (some z) other = absurd (other _ refl)
  distribute-Keeps c (some e) none other = refl
  distribute-Keeps c none z other = refl

  distribute_for-Keeps : (c : Option PlsContract) → Keeps (distribute_for id now i c s)
  unfolding distribute_for
  distribute_for-Keeps none other = refl
  distribute_for-Keeps (some c) other = by_status (Bool-cases (is_active c.status)) other
    where
      by_status :
          (is_active c.status ≡ true) ⊎ (is_active c.status ≡ false)
          → Keeps (distribute_for id now i (some c) s)
      by_status (inl active) =
          unfold distribute_for in
          rw active (distribute-Keeps c i.event_type (parse_money (trimmed i.gross_result_amount)))
      by_status (inr inactive) = unfold distribute_for in rw inactive (λ d. refl)

  distribute_valid-Keeps :
      (issues : List ValidationIssue) → Keeps (distribute_valid id now i issues s)
  unfolding distribute_valid
  distribute_valid-Keeps [] other =
      distribute_for-Keeps (find_contract (trimmed i.contract_id) s) other
  distribute_valid-Keeps (x ∷ issues) other = refl

  -- A call that creates no distribution leaves the contracts and the distributions as they were.
  pub create_distribution-unchanged :
      (result : DistributionResult) (t : PlsState)
      → create_distribution id now i s ≡ (result, t)
      → ((d : DistributionRecord) → result ≢ created d)
      → t ≡ s
  unfolding create_distribution
  create_distribution-unchanged result t h other =
      let kept = distribute_valid-Keeps (validate_distribution_input i) in
      sym (ap (λ q. q.1) h) ∙ kept (λ d q. other d (sym (ap (λ r. r.0) h) ∙ q))
