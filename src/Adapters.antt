-- ===== src/Adapters.antt =====
-- The registered documents and reports: erpnext_whatsapp_connection/adapters.py.
use erpnext_whatsapp_connect.Base.{String, true, none, some, List, [], ◌∷◌}
use erpnext_whatsapp_connect.Py.Result.{crash, Result, ok, err, ◌>>=◌}
use erpnext_whatsapp_connect.Py.Value.{
  Value, bool, str, dict, Fields, end, field, get, update, as_dict,
}
use erpnext_whatsapp_connect.Py.Text.{concat}
use erpnext_whatsapp_connect.Site.Frappe.{Frappe}

abbrev pub default_document_adapters : Fields
default_document_adapters =
    field "Sales Invoice"
      (dict (
        field "party_type" (str "Customer") (
          field "party_field" (str "customer") (
            field "party_name_field" (str "customer_name") (
              field "company_field" (str "company") (
                field "date_field" (str "posting_date") (
                  field "amount_field" (str "grand_total") (
                    field "currency_field" (str "currency") (
                      field "require_submitted" (bool true) (
                        field "default_message"
                          (str
                            "Dear {{ party_name }},\n\nPlease find Sales Invoice {{ name }} dated {{ date }} for {{ formatted_amount }}.\n\nRegards,\n{{ company }}")
                          end))))))))))
      (field "Payment Entry"
        (dict (
          field "party_type_field" (str "party_type") (
            field "required_party_type" (str "Customer") (
              field "required_values" (dict (field "payment_type" (str "Receive") end)) (
                field "party_field" (str "party") (
                  field "party_name_field" (str "party_name") (
                    field "company_field" (str "company") (
                      field "date_field" (str "posting_date") (
                        field "amount_field" (str "paid_amount") (
                          field "currency_field" (str "paid_to_account_currency") (
                            field "require_submitted" (bool true) (
                              field "default_message"
                                (str
                                  "Dear {{ party_name }},\n\nPlease find Payment Receipt {{ name }} dated {{ date }} for {{ formatted_amount }}.\n\nRegards,\n{{ company }}")
                                end))))))))))))
        end)

-- The adapter of a ledger that is filtered by party type and a list of parties.
abbrev party_report : String → Value
party_report message = dict (
    field "customer_filter" (str "party") (
      field "customer_filter_type" (str "list") (
        field "party_type_filter" (str "party_type") (
          field "required_party_type" (str "Customer")
            (field "company_filter" (str "company") (field "default_message" (str message) end))))))

abbrev pub default_report_adapters : Fields
default_report_adapters =
    field "Accounts Receivable"
      (party_report
        "Dear {{ party_name }},\n\nPlease find your Accounts Receivable statement attached.\n\nRegards,\n{{ company }}")
      (field "Accounts Receivable Summary"
        (party_report
          "Dear {{ party_name }},\n\nPlease find your receivable summary attached.\n\nRegards,\n{{ company }}")
        (field "Customer Ledger Summary"
          (dict (
            field "customer_filter" (str "party") (
              field "customer_filter_type" (str "string") (
                field "company_filter" (str "company") (
                  field "default_message"
                    (str
                      "Dear {{ party_name }},\n\nPlease find your customer statement attached.\n\nRegards,\n{{ company }}")
                    end)))))
          (field "General Ledger"
            (party_report
              "Dear {{ party_name }},\n\nPlease find your customer ledger attached.\n\nRegards,\n{{ company }}")
            end)))

-- The loop of `_external_registry`.
unfoldable pub collect_registry : Fields → List (String × Result Value) → Result Fields
collect_registry registry [] = ok registry
collect_registry registry ((path, err e) ∷ rest) = err e
collect_registry registry ((path, ok v) ∷ rest) = elim (as_dict v) [
  | none ↦ err (crash (concat path " must return a dictionary"))
  | some values ↦ collect_registry (update registry values) rest
]

module _ (F : Frappe) where
  unfoldable pub external_registry : String → Result Fields
  unfolding collect_registry
  external_registry hook_name = collect_registry end (F.hooks hook_name)

  unfoldable pub document_adapters : Result Fields
  unfolding external_registry
  document_adapters =
      external_registry "erpnext_whatsapp_document_adapter_providers" >>= λ registry.
      ok (update default_document_adapters registry)

  unfoldable pub report_adapters : Result Fields
  unfolding external_registry
  report_adapters = external_registry "erpnext_whatsapp_report_adapter_providers" >>= λ registry.
      ok (update default_report_adapters registry)

  unfoldable pub document_adapter : String → Result Value
  unfolding document_adapters
  document_adapter doctype = document_adapters >>= λ adapters. ok (get adapters doctype)

  unfoldable pub report_adapter : String → Result Value
  unfolding report_adapters
  report_adapter report_name = report_adapters >>= λ adapters. ok (get adapters report_name)
