-- ===== src/Procurement/Invoicing/Reading.antt =====
-- application/invoice-service.ts: `getInvoice` and `listInvoicesForActor`, which write nothing.
use blockchain_based_e_procu.Prelude.{String, not, Option, none, some, if◌then◌else◌}
use blockchain_based_e_procu.Prelude.Guard.{Guard, refuse, pass, refuse_if, need, ◌>>=◌, ◌>>◌}
use blockchain_based_e_procu.Procurement.Actor.{
  Actor, KnownActor, known_actor, has_any_role, has_role,
}
use blockchain_based_e_procu.Procurement.Invoice.{
  find_invoice, invoices_of_buyer, invoices_of_supplier,
}
use blockchain_based_e_procu.Procurement.Invoicing.{
  InvoiceResult, invoice_ok, invoice_list, unauthorized, forbidden, not_found, can_read_invoice,
  reviewer_roles, oversight_roles,
}
use blockchain_based_e_procu.World.{World}

-- The result, whether a test or the end of the operation gave it.
abbrev result : Guard InvoiceResult InvoiceResult → InvoiceResult
result (refuse r) = r
result (pass r) = r

-- `getInvoice`
unfoldable pub get_invoice : String → Actor → World → InvoiceResult
unfolding known_actor find_invoice can_read_invoice
get_invoice id a w = result (do
  actor ← need (known_actor a) unauthorized
  invoice ← need (find_invoice id w.invoices) (not_found "invoiceNotFound")
  refuse_if (not (can_read_invoice a invoice)) (forbidden "invoiceNotVisible")
  pass (invoice_ok invoice))

unfoldable pub list_for : Actor → World → Option KnownActor → InvoiceResult
unfolding has_any_role has_role invoices_of_buyer invoices_of_supplier
list_for a w none = unauthorized
list_for a w (some k) =
    if has_any_role a reviewer_roles
    then invoice_list (invoices_of_buyer k.organization w.invoices)
    else if has_role a "supplier"
    then invoice_list (invoices_of_supplier k.organization w.invoices)
    else if has_any_role a oversight_roles
    then invoice_list w.invoices
    else forbidden "invoiceReadRoleRequired"

-- `listInvoicesForActor`
unfoldable pub list_invoices : Actor → World → InvoiceResult
unfolding known_actor list_for
list_invoices a w = list_for a w (known_actor a)
