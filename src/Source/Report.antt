-- ===== src/Source/Report.antt =====
-- The check of a report before it is sent: `_validate_report` of
-- erpnext_whatsapp_connection/api.py.
use erpnext_whatsapp_connect.Base.{String, Bool, false, ◌&&◌, none, some, str_eq, if◌then◌else◌}
use erpnext_whatsapp_connect.Py.Result.{
  Error, validation, permission, crash, Result, ok, err, check, or_error, ◌>>=◌, ◌>>◌,
}
use erpnext_whatsapp_connect.Py.Value.{
  Value, null, str, list, dict, nil, cons, Fields, end, get, find_key, set, truthy, as_str, as_dict,
  or_else,
}
use erpnext_whatsapp_connect.Site.Frappe.{Frappe, SourceDoc}
use erpnext_whatsapp_connect.Adapters.{report_adapter}
use erpnext_whatsapp_connect.Source.Document.{get_field, registered, party_type_ok}

abbrev pub not_one_customer : Error
not_one_customer = validation "Select exactly one customer before sending this report."

-- `if not customer or not isinstance(customer, str)`.
abbrev pub named_customer : Value → Result String
named_customer v = elim (as_str v) [
  | none ↦ err not_one_customer
  | some s ↦ if str_eq s "" then err not_one_customer else ok s
]

-- The one customer that a filter names, alone or in a list of one.
unfoldable pub one_customer : Value → Result String
one_customer (list nil) = err not_one_customer
one_customer (list (cons v nil)) = named_customer v
one_customer (list (cons v (cons w vs))) = err not_one_customer
one_customer v = named_customer v

-- The filter in the shape that the report reads.
unfoldable pub shape_filter : Value → String → String → Fields → Result Fields
shape_filter null key customer filters = ok filters
shape_filter (str s) key customer filters =
    if str_eq s "list"
    then ok (set filters key (list (cons (str customer) nil)))
    else (if str_eq s "string"
        then ok (set filters key (str customer))
        else err (validation "The registered customer filter type is invalid."))
shape_filter _ key customer filters =
    err (validation "The registered customer filter type is invalid.")

abbrev pub key_of : Value → Result String
key_of v = or_error (crash "unhashable filter name") (as_str v)

-- What `_validate_report` returns.
pub record ReportRequest : Type 0 where
  pub adapter : Fields
  pub filters : Fields
  pub customer : String
  pub company : String

module _ (F : Frappe) where
  -- `frappe.parse_json(filters) if isinstance(filters, str) else dict(filters or {})`.
  unfoldable pub read_filters : Value → Result Fields
  read_filters (str s) =
      F.parse_json s >>= λ v. or_error (crash "object has no attribute 'get'") (as_dict v)
  read_filters v = or_error (crash "cannot convert to a dict") (as_dict (or_else v (dict end)))

  abbrev no_company : Error
  no_company = permission "Select one permitted company before sending this report."

  abbrev permitted_company : String → String → Result String
  permitted_company user company = if str_eq company "" then err no_company else do
    or_error (validation "Company not found") (F.get_doc "Company" company)
    check (F.may user "read" "Company" company) (permission "Not permitted")
    ok company

  -- The company that the filters name; "" for a report that is not filtered by company.
  unfoldable pub report_company : String → Fields → Fields → Result String
  report_company user adapter filters =
      let company_filter = get adapter "company_filter" in
      if truthy company_filter
      then (elim (as_str (or_else (get_field filters company_filter) (str ""))) [
        | none ↦ err no_company
        | some company ↦ permitted_company user company
      ])
      else ok ""

  abbrev may_run : String → String → SourceDoc → Bool
  may_run user name report =
      F.may user "is_permitted" "Report" name && (elim (as_str (get report.fields "ref_doctype")) [
        | none ↦ false
        | some doctype ↦ F.may user "report" doctype ""
      ])

  unfoldable pub validate_report : String → String → Value → Result ReportRequest
  unfolding read_filters one_customer shape_filter report_company
  validate_report user name given = do
    found ← report_adapter F name
    adapter ← registered (validation "WhatsApp sending is not registered for this report.") found
    filters ← read_filters given
    report ← or_error (validation "Report not found") (F.get_doc "Report" name)
    check (may_run user name report) (permission "You do not have permission to run this report.")
    check (party_type_ok adapter (get adapter "party_type_filter") filters)
        (validation "Select Customer as the party type before sending this report.")
    key ← or_error (crash "'customer_filter'") (find_key adapter "customer_filter") >>= key_of
    customer ← one_customer (get filters key)
    shaped ← shape_filter (get adapter "customer_filter_type") key customer filters
    or_error (validation "Customer not found") (F.get_doc "Customer" customer)
    check (F.may user "read" "Customer" customer) (permission "Not permitted")
    company ← report_company user adapter shaped
    ok (record { adapter = adapter; filters = shaped; customer = customer; company = company })
