-- ===== src/Sending/Context.antt =====
-- What a message about a document may name: `_document_context` of
-- erpnext_whatsapp_connection/api.py.
use erpnext_whatsapp_connect.Base.{String, pos}
use erpnext_whatsapp_connect.Py.Result.{crash, Result, ok, or_error, ◌>>=◌}
use erpnext_whatsapp_connect.Py.Value.{
  Value, int, str, dict, Fields, end, field, get, find_key, or_else,
}
use erpnext_whatsapp_connect.Site.Frappe.{Frappe, SourceDoc}
use erpnext_whatsapp_connect.Source.Document.{get_field}

-- `adapter["party_field"]`.
abbrev pub party_field : Fields → Result Value
party_field adapter = or_error (crash "'party_field'") (find_key adapter "party_field")

-- `doc.get(adapter.get(key))`.
abbrev pub adapted : SourceDoc → Fields → String → Value
adapted doc adapter key = get_field doc.fields (get adapter key)

-- `doc.get(adapter.get("company_field")) or ""`.
abbrev pub company_of : SourceDoc → Fields → Value
company_of doc adapter = or_else (adapted doc adapter "company_field") (str "")

module _ (F : Frappe) where
  unfoldable pub document_context : String → SourceDoc → Fields → Result Fields
  document_context doctype doc adapter = do
    party ← party_field adapter
    let customer = get_field doc.fields party
    let amount = or_else (adapted doc adapter "amount_field") (int (pos 0))
    let currency = or_else (adapted doc adapter "currency_field") (str "")
    ok (
        field "name" (str doc.name) (
          field "doctype" (str doctype) (
            field "party_name" (or_else (adapted doc adapter "party_name_field") customer) (
              field "customer" customer (
                field "company" (company_of doc adapter) (
                  field "date" (or_else (adapted doc adapter "date_field") (str "")) (
                    field "amount" amount (
                      field "currency" currency (
                        field "formatted_amount" (str (F.fmt_money amount currency))
                          (field "doc" (dict doc.fields) end))))))))))
