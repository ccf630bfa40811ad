-- ===== src/Procurement/Invoicing/Visible.antt =====
-- Who sees an invoice: the list holds no invoice that `getInvoice` would refuse.
use blockchain_based_e_procu.Prelude.{
  String, true, List, [], ◌∷◌, Option, none, some, ◌≡◌, refl, arith, eq_iff, All, All-map,
  filter-All, Bool-cases, inl, inr,
}
use blockchain_based_e_procu.Prelude.Text.{◌=s◌}
use blockchain_based_e_procu.Procurement.Actor.{
  Actor, KnownActor, known_actor, has_any_role, has_role,
}
use blockchain_based_e_procu.Procurement.Invoice.{
  ProcurementInvoice, invoices_of_buyer, invoices_of_supplier,
}
use blockchain_based_e_procu.Procurement.Invoicing.{
  InvoiceResult, invoice_list, can_read_invoice, reviewer_roles, oversight_roles,
}
use blockchain_based_e_procu.Procurement.Invoicing.Reading.{list_for, list_invoices}
use blockchain_based_e_procu.World.{World}

known_actor-organization :
    (a : Actor) (k : KnownActor) → known_actor a ≡ some k → a.organization_id ≡ some k.organization
unfolding known_actor
known_actor-organization a k h = ground arith

eq_sym : (s t : String) → (s =s t) ≡ true → (t =s s) ≡ true
eq_sym s t h = ground (arith, eq_iff s t, eq_iff t s)

abbrev Readable : Actor → InvoiceResult → Type 0
Readable a r =
    (l : List ProcurementInvoice) → r ≡ invoice_list l → All (λ i. can_read_invoice a i ≡ true) l

list-eq : {l m : List ProcurementInvoice} → invoice_list l ≡ invoice_list m → l ≡ m
list-eq h = cc h

All-Readable :
    (a : Actor) (l : List ProcurementInvoice)
    → has_any_role a oversight_roles ≡ true
    → All (λ i. can_read_invoice a i ≡ true) l
unfolding can_read_invoice
All-Readable a [] h = tt
All-Readable a (i ∷ l) h = (rw h refl, All-Readable a l h)

module _ (a : Actor) (w : World) (k : KnownActor)
    (organization : a.organization_id ≡ some k.organization) where
  buyer_readable :
      (i : ProcurementInvoice)
      → has_any_role a reviewer_roles ≡ true
      → (i.buyer_organization_id =s k.organization) ≡ true
      → can_read_invoice a i ≡ true
  unfolding can_read_invoice
  buyer_readable i role same = ground (arith, eq_sym i.buyer_organization_id k.organization same)

  supplier_readable :
      (i : ProcurementInvoice)
      → has_role a "supplier" ≡ true
      → (i.supplier_organization_id =s k.organization) ≡ true
      → can_read_invoice a i ≡ true
  unfolding can_read_invoice
  supplier_readable i role same =
      ground (arith, eq_sym i.supplier_organization_id k.organization same)

  list_for-Readable : Readable a (list_for a w (some k))
  unfolding list_for invoices_of_buyer invoices_of_supplier
  list_for-Readable l h = elim (Bool-cases (has_any_role a reviewer_roles)) [
    | inl reviewer ↦ rw (← list-eq (rw reviewer at h)) (
        All-map (λ i. (i.buyer_organization_id =s k.organization) ≡ true)
          (λ i. can_read_invoice a i ≡ true) (λ i same. buyer_readable i reviewer same) _
          (filter-All (λ (i : ProcurementInvoice). i.buyer_organization_id =s k.organization)
            w.invoices))
    | inr no_reviewer ↦ elim (Bool-cases (has_role a "supplier")) [
      | inl supplier ↦ rw (← list-eq (rw (no_reviewer, supplier) at h)) (
          All-map (λ i. (i.supplier_organization_id =s k.organization) ≡ true)
            (λ i. can_read_invoice a i ≡ true) (λ i same. supplier_readable i supplier same) _
            (filter-All (λ (i : ProcurementInvoice). i.supplier_organization_id =s k.organization)
              w.invoices))
      | inr no_supplier ↦ elim (Bool-cases (has_any_role a oversight_roles)) [
        | inl overseer ↦ All-Readable a l overseer
        | inr none_of_all ↦ absurd (cc (rw (no_reviewer, no_supplier, none_of_all) at h))
      ]
    ]
  ]

-- Every invoice that an actor is listed may be read by the actor.
pub list_invoices-readable :
    (a : Actor) (w : World) (l : List ProcurementInvoice)
    → list_invoices a w ≡ invoice_list l
    → All (λ i. can_read_invoice a i ≡ true) l
unfolding list_invoices
list_invoices-readable a w l h = of_actor (known_actor a) refl l h
  where
    of_actor : (k : Option KnownActor) → known_actor a ≡ k → Readable a (list_for a w k)
    of_actor none same l h = absurd (cc h)
    of_actor (some k) same l h = list_for-Readable a w k (known_actor-organization a k same) l h
