-- ===== src/Financing/Distribution.antt =====
-- `createPlsDistribution` of application/pls-contract-service.ts. The time and the identifier that
-- the call draws are parameters.
pub mod Allocation
pub mod Outcomes
pub mod Shares
use blockchain_based_e_procu.Prelude.{
  ℕ, String, Bool, true, false, not, List, [], ◌∷◌, ◌++◌, Option, none, some, ◌*◌, ◌/◌, is_some,
  when, if◌then◌else◌,
}
use blockchain_based_e_procu.Prelude.Text.{◌=s◌, ◌<>◌, trimmed, is_blank}
use blockchain_based_e_procu.Prelude.Decimal.{show}
use blockchain_based_e_procu.Financing.Money.{
  ℤ, pos, negsuc, neg_of, magnitude, minus, parse_money, format_minor_units,
}
use blockchain_based_e_procu.Financing.Contract.{
  PlsContract, PlsContractStatus, active, DistributionEventType, profit, loss, financier,
  venture_operator, DistributionRecord, PlsState, find_contract, save_distribution,
}

pub record DistributionInput : Type 0 where
  pub contract_id : Option String
  pub event_type : Option DistributionEventType
  pub gross_result_amount : Option String
  pub calculation_basis : Option String
  pub created_by : Option String

pub record ValidationIssue : Type 0 where
  pub path : String
  pub message : String

pub data DistributionResult : Type 0 where
  created : DistributionRecord → DistributionResult
  invalid_input : List ValidationIssue → DistributionResult
  not_found inactive_contract : DistributionResult

abbrev complaint : String → String → ValidationIssue
complaint p m = record { path = p; message = m }

-- `validateContractId`
abbrev validate_contract_id : Option String → List ValidationIssue
validate_contract_id id = when (is_blank id) (complaint "contractId" "contractId is required")

-- The issues about the amount.
validate_amount : Option String → List ValidationIssue
unfolding is_blank trimmed parse_money
validate_amount a =
    if is_blank a
    then complaint "grossResultAmount" "grossResultAmount is required" ∷ []
    else when (not (is_some (parse_money (trimmed a))))
        (complaint "grossResultAmount" "grossResultAmount must be a decimal money value")

-- `validateDistributionInput`
unfoldable pub validate_distribution_input : DistributionInput → List ValidationIssue
unfolding is_blank validate_amount
validate_distribution_input i =
    validate_contract_id i.contract_id
    ++ (when (not (is_some i.event_type)) (complaint "eventType" "eventType must be profit or loss")
        ++ (validate_amount i.gross_result_amount
            ++ when (is_blank i.calculation_basis)
                (complaint "calculationBasis" "calculationBasis is required")))

-- `amount > 0n ? -amount : amount`
unfoldable pub at_most_zero : ℤ → ℤ
unfolding neg_of
at_most_zero (pos n) = neg_of n
at_most_zero (negsuc n) = negsuc n

-- The amounts of the financier and of the venture operator.
unfoldable pub allocate : DistributionEventType → ℕ → ℤ → ℤ × ℤ
unfolding magnitude minus at_most_zero
allocate profit percent gross =
    let share = magnitude gross * percent / 100 in (pos share, minus (magnitude gross) share)
allocate loss percent gross = (at_most_zero gross, pos 0)

-- The gross amount of the record.
unfoldable pub recorded_gross : DistributionEventType → ℤ → ℤ
unfolding at_most_zero
recorded_gross profit gross = gross
recorded_gross loss gross = at_most_zero gross

financier_basis : DistributionEventType → PlsContract → String
unfolding show
financier_basis profit c = show c.profit_share.financier_percent <> "% agreed profit share"
financier_basis loss c = "Capital provider bears financial loss unless misconduct is established"

operator_basis : DistributionEventType → PlsContract → String
unfolding show
operator_basis profit c = show c.profit_share.venture_operator_percent <> "% agreed profit share"
operator_basis loss c = "Venture operator allocation remains zero in the MVP loss scenario"

-- The record that is saved.
unfoldable pub new_distribution :
    String
    → String
    → DistributionInput
    → PlsContract
    → DistributionEventType
    → ℤ
    → DistributionRecord
unfolding allocate recorded_gross format_minor_units financier_basis operator_basis trimmed
new_distribution id now i c e gross =
    let amounts = allocate e c.profit_share.financier_percent gross in
    record {
      distribution_id = id;
      contract_id = c.contract_id;
      event_type = e;
      gross_result_amount = format_minor_units (recorded_gross e gross);
      currency = c.currency;
      calculation_basis = trimmed i.calculation_basis;
      allocations =
          record {
            party_role = financier;
            organization_id = c.financier_organization_id;
            amount = format_minor_units (amounts.0);
            basis = financier_basis e c;
          }
          ∷ record {
            party_role = venture_operator;
            organization_id = c.supplier_organization_id;
            amount = format_minor_units (amounts.1);
            basis = operator_basis e c;
          }
          ∷ [];
      created_by = if trimmed i.created_by =s "" then "system" else trimmed i.created_by;
      created_at = now;
    }

abbrev pub is_active : PlsContractStatus → Bool
is_active active = true
is_active _ = false

module _ (id now : String) (i : DistributionInput) where
  -- After validation the event type and the amount are there; the other cases are never reached.
  distribute :
      PlsContract
      → Option DistributionEventType
      → Option ℤ
      → PlsState
      → DistributionResult × PlsState
  unfolding save_distribution
  distribute c (some e) (some gross) s =
      let d = new_distribution id now i c e gross in (created d, save_distribution d s)
  distribute c (some e) none s = (invalid_input [], s)
  distribute c none gross s = (invalid_input [], s)

  distribute_for : Option PlsContract → PlsState → DistributionResult × PlsState
  unfolding distribute trimmed parse_money
  distribute_for none s = (not_found, s)
  distribute_for (some c) s =
      if is_active c.status
      then distribute c i.event_type (parse_money (trimmed i.gross_result_amount)) s
      else (inactive_contract, s)

  distribute_valid : List ValidationIssue → PlsState → DistributionResult × PlsState
  unfolding distribute_for find_contract trimmed
  distribute_valid [] s = distribute_for (find_contract (trimmed i.contract_id) s) s
  distribute_valid (x ∷ issues) s = (invalid_input (x ∷ issues), s)

  -- `createPlsDistribution`
  unfoldable pub create_distribution : PlsState → DistributionResult × PlsState
  unfolding distribute_valid validate_distribution_input
  create_distribution s = distribute_valid (validate_distribution_input i) s
