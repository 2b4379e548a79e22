-- ===== src/Templates.antt =====
-- The controller of message templates: `ERPNextWhatsAppMessageTemplate.validate` of
-- doctype/erpnext_whatsapp_message_template/erpnext_whatsapp_message_template.py, and the save.
pub mod Unique
use erpnext_whatsapp_connect.Base.{
  String, Bool, true, false, not, ◌&&◌, ◌||◌, Option, none, some, List, [], ◌∷◌, keep, str_eq,
  if◌then◌else◌,
}
use erpnext_whatsapp_connect.Py.Result.{validation, Result, ok, err, check, ◌>>=◌, ◌>>◌}
use erpnext_whatsapp_connect.Site.Records.{
  ReferenceType, document, report, is_blank, reference_type_text, Template,
}
use erpnext_whatsapp_connect.History.{is_document}
use erpnext_whatsapp_connect.Groups.Copy.{text_or_empty}

-- The target that does not belong to the type is cleared.
abbrev pub cleared : Template → Template
cleared t =
    if is_document t.reference_type
    then record t { report_name = none }
    else record t { document_type = none }

abbrev pub same_text : Option String → Option String → Bool
same_text a b = str_eq (text_or_empty a) (text_or_empty b)

-- The filters of `frappe.db.exists`, on a stored template.
abbrev pub is_rival : Template → Template → Bool
is_rival t x =
    x.enabled
    && x.is_default
    && str_eq (reference_type_text x.reference_type) (reference_type_text t.reference_type)
    && same_text x.document_type t.document_type
    && same_text x.report_name t.report_name
    && same_text x.company t.company
    && not (str_eq x.name t.name)

abbrev pub exists : (Template → Bool) → List Template → Bool
exists p [] = false
exists p (x ∷ xs) = p x || exists p xs

abbrev pub is_active_default : Template → Bool
is_active_default t = t.is_default && t.enabled

unfoldable pub validate_template : List Template → Template → Result Template
validate_template stored t = do
  check (not (is_document t.reference_type) || not (is_blank t.document_type))
      (validation "Document Type is required for a document template.")
  check (is_document t.reference_type || not (is_blank t.report_name))
      (validation "Report is required for a report template.")
  check (not (is_active_default t && exists (is_rival (cleared t)) stored))
      (validation "Only one default template is allowed for this target and company.")
  ok (cleared t)

-- A save replaces the template of that name.
abbrev pub replaced : Template → List Template → List Template
replaced t stored = t ∷ keep (λ x. not (str_eq x.name t.name)) stored

unfoldable pub save_template : List Template → Template → Result (List Template)
unfolding validate_template
save_template stored t = validate_template stored t >>= λ valid. ok (replaced valid stored)
