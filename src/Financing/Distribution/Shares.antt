-- ===== src/Financing/Distribution/Shares.antt =====
-- What a distribution that `createPlsDistribution` (application/pls-contract-service.ts) has created
-- gives to whom.
use blockchain_based_e_procu.Prelude.{
  ℕ, String, true, List, [], ◌∷◌, Option, none, some, ◌≡◌, refl, sym, ap, ◌+◌, ◌*◌, ◌≤◌, ◌<◌,
  Bool-cases, inl, inr,
}
use blockchain_based_e_procu.Prelude.Text.{trimmed}
use blockchain_based_e_procu.Prelude.Store
use blockchain_based_e_procu.Financing.Money.{ℤ, pos, negsuc, neg_of, magnitude, parse_money}
use blockchain_based_e_procu.Financing.Money.RoundTrip.{parse-format_minor_units}
use blockchain_based_e_procu.Financing.Contract.{
  PlsContract, DistributionEventType, profit, loss, PartyRole, financier, venture_operator,
  DistributionAllocation, DistributionRecord, PlsState, find_contract, save_distribution,
  find_distribution, distribution_key,
}
use blockchain_based_e_procu.Financing.Distribution.{
  DistributionInput, DistributionResult, created, ValidationIssue, validate_distribution_input,
  allocate, at_most_zero, new_distribution, is_active, distribute, distribute_for, distribute_valid,
  create_distribution,
}
use blockchain_based_e_procu.Financing.Distribution.Allocation.{allocate-profit}

-- How an amount is split: of a profit the financier has the agreed percentage of the magnitude,
-- rounded down, and the operator the rest; the whole of a loss is the financier's.
abbrev pub Split : DistributionEventType → ℕ → ℤ → ℤ → ℤ → Type 0
Split profit percent gross a b =
    (f : ℕ) × (o : ℕ) × (a ≡ pos f)
    × (b ≡ pos o)
    × (f + o ≡ magnitude gross)
    × (f * 100 ≤ magnitude gross * percent)
    × (magnitude gross * percent < f * 100 + 100)
Split loss percent gross a b = (a ≡ neg_of (magnitude gross)) × (b ≡ pos 0)

-- The entry gives the amount, which its text is read as, to the organization in the role.
pub record Gives (x : DistributionAllocation) (role : PartyRole) (organization : String)
    (amount : ℤ) : Type 0 where
  pub in_role : x.party_role ≡ role
  pub to : x.organization_id ≡ organization
  pub read_as : parse_money x.amount ≡ some amount

-- The record shares out the amount of the input by the contract.
pub record IsSharedBy (i : DistributionInput) (c : PlsContract) (r : DistributionRecord)
    : Type 0 where
  pub gross : ℤ
  pub given_gross : parse_money (trimmed i.gross_result_amount) ≡ some gross
  pub given_type : i.event_type ≡ some r.event_type
  pub same_contract : r.contract_id ≡ c.contract_id
  pub same_currency : r.currency ≡ c.currency
  pub to_financier : DistributionAllocation
  pub to_operator : DistributionAllocation
  pub two : r.allocations ≡ to_financier ∷ to_operator ∷ []
  pub part : ℤ
  pub rest : ℤ
  pub financier_gets : Gives to_financier financier c.financier_organization_id part
  pub operator_gets : Gives to_operator venture_operator c.supplier_organization_id rest
  pub split : Split r.event_type c.profit_share.financier_percent gross part rest

at_most_zero-magnitude : (z : ℤ) → at_most_zero z ≡ neg_of (magnitude z)
unfolding at_most_zero magnitude neg_of
at_most_zero-magnitude (pos n) = refl
at_most_zero-magnitude (negsuc n) = refl

allocate-Split :
    (e : DistributionEventType) (percent : ℕ) (gross : ℤ)
    → percent ≤ 100
    → Split e percent gross (allocate e percent gross).0 (allocate e percent gross).1
allocate-Split profit percent gross h =
    let (f, o, same, sum, low, high) = allocate-profit percent gross h in
    (f, o, ap (λ q. q.0) same, ap (λ q. q.1) same, sum, low, high)
allocate-Split loss percent gross h = unfold allocate in (at_most_zero-magnitude gross, refl)

new_distribution-IsSharedBy :
    (id now : String) (i : DistributionInput) (c : PlsContract) (e : DistributionEventType)
    (gross : ℤ)
    → i.event_type ≡ some e
    → parse_money (trimmed i.gross_result_amount) ≡ some gross
    → c.profit_share.financier_percent ≤ 100
    → IsSharedBy i c (new_distribution id now i c e gross)
unfolding new_distribution
new_distribution-IsSharedBy id now i c e gross typed parsed h = record {
  gross = gross;
  given_gross = parsed;
  given_type = typed;
  same_contract = refl;
  same_currency = refl;
  to_financier = _;
  to_operator = _;
  two = refl;
  part = (allocate e c.profit_share.financier_percent gross).0;
  rest = (allocate e c.profit_share.financier_percent gross).1;
  financier_gets = record { in_role = refl; to = refl; read_as = parse-format_minor_units _ };
  operator_gets = record { in_role = refl; to = refl; read_as = parse-format_minor_units _ };
  split = allocate-Split e c.profit_share.financier_percent gross h;
}

created-eq : {d r : DistributionRecord} → created d ≡ created r → d ≡ r
created-eq h = cc h

module _ (id now : String) (i : DistributionInput) (s : PlsState)
    (whole : (c : PlsContract)
      → find_contract (trimmed i.contract_id) s ≡ some c
      → c.profit_share.financier_percent ≤ 100) where
  abbrev Shared : DistributionResult × PlsState → Type 0
  Shared q =
      (r : DistributionRecord) (t : PlsState)
      → q ≡ (created r, t)
      → (c : PlsContract) × (find_contract (trimmed i.contract_id) s ≡ some c)
        × (is_active c.status ≡ true)
        × IsSharedBy i c r
        × (t.contracts ≡ s.contracts)
        × (find_distribution r.distribution_id t ≡ some r)

  distribute-Shared :
      (c : PlsContract)
      → find_contract (trimmed i.contract_id) s ≡ some c
      → is_active c.status ≡ true
      → (e : Option DistributionEventType) → i.event_type ≡ e
      → (z : Option ℤ) → parse_money (trimmed i.gross_result_amount) ≡ z
      → Shared (distribute id now i c e z s)
  unfolding distribute save_distribution
  distribute-Shared c found active (some e) typed (some z) parsed r t h =
      let one : new_distribution id now i c e z ≡ r = created-eq (ap (λ q. q.0) h) in
      (
        c,
        found,
        active,
        rw (← one) (new_distribution-IsSharedBy id now i c e z typed parsed (whole c found)),
        sym (ap (λ q. q.1.contracts) h),
        rw (← ap (λ q. q.1) h, ← one)
            (unfold find_distribution in
              Store.get-put-key distribution_key (new_distribution id now i c e z) s.distributions),
      )
  distribute-Shared c found active (some e) typed none parsed r t h = absurd (cc (ap (λ q. q.0) h))
  distribute-Shared c found active none typed z parsed r t h = absurd (cc (ap (λ q. q.0) h))

  distribute_for-Shared :
      (c : Option PlsContract)
      → find_contract (trimmed i.contract_id) s ≡ c
      → Shared (distribute_for id now i c s)
  unfolding distribute_for
  distribute_for-Shared none found r t h = absurd (cc (ap (λ q. q.0) h))
  distribute_for-Shared (some c) found r t h = elim (Bool-cases (is_active c.status)) [
    | inl active ↦ distribute-Shared c found active i.event_type refl _ refl r t (rw active at h)
    | inr inactive ↦ absurd (cc (ap (λ q. q.0) (rw inactive at h)))
  ]

  distribute_valid-Shared :
      (issues : List ValidationIssue) → Shared (distribute_valid id now i issues s)
  unfolding distribute_valid
  distribute_valid-Shared [] r t h =
      distribute_for-Shared (find_contract (trimmed i.contract_id) s) refl r t h
  distribute_valid-Shared (x ∷ issues) r t h = absurd (cc (ap (λ q. q.0) h))

  -- Where the contract's financier has a whole percentage of at most a hundred: a distribution that
  -- is created belongs to the stored, active contract of the input; it gives the financier's and the
  -- supplier's organization amounts that are read back as the parts of the given amount (of a profit
  -- the percentage rounded down and the rest, of a loss all and nothing); it is then found under its
  -- identifier, and the contracts are as they were.
  pub create_distribution-Shared :
      (r : DistributionRecord) (t : PlsState)
      → create_distribution id now i s ≡ (created r, t)
      → (c : PlsContract) × (find_contract (trimmed i.contract_id) s ≡ some c)
        × (is_active c.status ≡ true)
        × IsSharedBy i c r
        × (t.contracts ≡ s.contracts)
        × (find_distribution r.distribution_id t ≡ some r)
  unfolding create_distribution
  create_distribution-Shared r t h = distribute_valid-Shared (validate_distribution_input i) r t h
