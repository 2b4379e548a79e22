-- ===== src/Source/Document.antt =====
-- The check of a document before it is sent: `_settings`, `_validate_document`, `_print_formats` and
-- `_validate_print_format` of erpnext_whatsapp_connection/api.py.
use erpnext_whatsapp_connect.Base.{
  String, Bool, true, false, not, ◌&&◌, ◌||◌, none, some, List, [], ◌∷◌, contains, str_eq, ◌==◌,
  if◌then◌else◌,
}
use erpnext_whatsapp_connect.Py.Result.{
  Error, validation, permission, crash, Result, ok, err, check, or_error, ◌>>=◌, ◌>>◌,
}
use erpnext_whatsapp_connect.Py.Value.{
  Value, null, dict, Fields, end, field, get, truthy, as_str, as_dict, or_else,
}
use erpnext_whatsapp_connect.Py.Equality.{value_eq}
use erpnext_whatsapp_connect.Py.Text.{concat}
use erpnext_whatsapp_connect.Site.Records.{Settings}
use erpnext_whatsapp_connect.Site.Frappe.{Frappe, SourceDoc}
use erpnext_whatsapp_connect.Adapters.{document_adapter}

-- `doc.get(fieldname)`, where the name may be missing from the adapter.
abbrev pub get_field : Fields → Value → Value
get_field fields name = elim (as_str name) [ none ↦ null | some k ↦ get fields k ]

-- `_settings()`.
unfoldable pub enabled_settings : Settings → Result Settings
enabled_settings s = do
  check s.enabled (validation "Enable the WhatsApp transport before sending.")
  ok s

-- The loop over `required_values`.
unfoldable pub has_required : Fields → Fields → Bool
has_required end fields = true
has_required (field k v rest) fields = value_eq (get fields k) v && has_required rest fields

abbrev pub entries : Value → Result Fields
entries v = or_error (crash "object has no attribute 'items'") (as_dict v)

-- An adapter that is registered, as a dict.
abbrev pub registered : Error → Value → Result Fields
registered e v =
    if truthy v then or_error (crash "object has no attribute 'get'") (as_dict v) else err e

-- `party_type_field and doc.get(party_type_field) != adapter.get("required_party_type")`, denied.
abbrev pub party_type_ok : Fields → Value → Fields → Bool
party_type_ok adapter type_field fields =
    not (truthy type_field)
    || value_eq (get_field fields type_field) (get adapter "required_party_type")

abbrev pub must_be_submitted : Settings → Fields → SourceDoc → Bool
must_be_submitted s adapter doc =
    s.require_submitted_documents
    && truthy (get adapter "require_submitted")
    && doc.is_submittable
    && not (doc.docstatus == 1)

-- `dict.fromkeys`: the first occurrence of each text.
unfoldable pub distinct_from : List String → List String → List String
distinct_from seen [] = []
distinct_from seen (x ∷ xs) = elim (contains x seen) [
  | true ↦ distinct_from seen xs
  | false ↦ x ∷ distinct_from (x ∷ seen) xs
]

module _ (F : Frappe) where
  unfoldable pub validate_document :
      String → Settings → String → String → Result (SourceDoc × Fields)
  unfolding enabled_settings has_required
  validate_document user settings doctype name = do
    found ← document_adapter F doctype
    adapter ←
        registered
          (validation (concat "WhatsApp sending is not registered for " (concat doctype "."))) found
    doc ← or_error (validation (concat doctype (concat name " not found"))) (F.get_doc doctype name)
    check (F.may user "read" doctype name) (permission "Not permitted")
    check (F.may user "print" doctype name)
        (permission "You do not have permission to print this document.")
    required ← entries (or_else (get adapter "required_values") (dict end))
    check (has_required required doc.fields)
        (validation "This document is not an eligible customer receipt.")
    check (party_type_ok adapter (get adapter "party_type_field") doc.fields)
        (validation "Only customer documents may be sent through this action.")
    s ← enabled_settings settings
    check (not (must_be_submitted s adapter doc))
        (validation "Submit the document before sending it by WhatsApp.")
    ok (doc, adapter)

  unfoldable pub print_formats : String → List String
  unfolding distinct_from
  print_formats doctype = distinct_from [] ("Standard" ∷ F.print_formats doctype)

  unfoldable pub validate_print_format : String → String → Result String
  unfolding print_formats
  validate_print_format doctype print_format =
      let chosen = if str_eq print_format "" then "Standard" else print_format in
      do
        check (contains chosen (print_formats doctype))
            (validation "Select a print format registered for this document type.")
        ok chosen
