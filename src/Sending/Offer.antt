-- ===== src/Sending/Offer.antt =====
-- The message templates of a dialog: `_template_rows`, `_render_templates` and
-- `_validate_selected_template` of erpnext_whatsapp_connection/api.py.
use erpnext_whatsapp_connect.Base.{
  String, Bool, true, ◌&&◌, ◌||◌, Option, none, some, List, [], ◌∷◌, keep, map, str_eq,
  if◌then◌else◌,
}
use erpnext_whatsapp_connect.Py.Result.{
  validation, permission, crash, Result, ok, check, or_error, ◌>>=◌, ◌>>◌,
}
use erpnext_whatsapp_connect.Py.Value.{Value, str, Fields, as_str}
use erpnext_whatsapp_connect.Py.Equality.{value_eq}
use erpnext_whatsapp_connect.Site.Records.{
  ReferenceType, document, report, reference_type_text, is_blank, Template,
}
use erpnext_whatsapp_connect.Site.Frappe.{Frappe}
use erpnext_whatsapp_connect.History.{optional_eq}
use erpnext_whatsapp_connect.Groups.Copy.{field_value}

-- What a query on the templates returns of a row, and what the dialog shows of it.
pub record TemplateRow : Type 0 where
  pub name : String
  pub template_name : String
  pub company : Option String
  pub is_default : Bool
  pub message_template : Value

pub record OfferedTemplate : Type 0 where
  pub name : String
  pub label : String
  pub is_default : Bool
  pub message : String

-- `template.get(target_field)`.
abbrev pub target_of : ReferenceType → Template → Option String
target_of document t = t.document_type
target_of report t = t.report_name

abbrev pub same_type : ReferenceType → ReferenceType → Bool
same_type a b = str_eq (reference_type_text a) (reference_type_text b)

-- The filters of the query.
abbrev pub has_target : ReferenceType → String → Template → Bool
has_target reference_type target t =
    t.enabled
    && same_type t.reference_type reference_type
    && optional_eq (target_of reference_type t) (some target)

abbrev pub row_of : Template → TemplateRow
row_of t = record {
  name = t.name;
  template_name = t.name;
  company = t.company;
  is_default = t.is_default;
  message_template = str t.message_template;
}

-- `not row.company or row.company == company`.
abbrev pub suits : Value → TemplateRow → Bool
suits company row = is_blank row.company || value_eq (field_value row.company) company

abbrev pub or_fallback : Value → List TemplateRow → List TemplateRow
or_fallback fallback [] =
    record {
      name = "";
      template_name = "System Default";
      company = some "";
      is_default = true;
      message_template = fallback;
    }
    ∷ []
or_fallback fallback (row ∷ rows) = row ∷ rows

unfoldable pub find_template : String → List Template → Option Template
find_template name [] = none
find_template name (t ∷ ts) = if str_eq t.name name then some t else find_template name ts

-- The selected template fits the source.
abbrev pub fits : ReferenceType → String → Value → Template → Bool
fits reference_type target company t =
    has_target reference_type target t && suits company (row_of t)

module _ (F : Frappe) where
  unfoldable pub template_rows :
      ReferenceType → String → Value → Value → List Template → List TemplateRow
  template_rows reference_type target company fallback templates = or_fallback fallback (
      keep (suits company)
        (map row_of (F.in_order (keep (has_target reference_type target) templates))))

  unfoldable pub render_templates : List TemplateRow → Fields → Result (List OfferedTemplate)
  render_templates [] context = ok []
  render_templates (row ∷ rows) context = do
    source ← or_error (crash "the template is not a text") (as_str row.message_template)
    message ← F.render_template source context
    rest ← render_templates rows context
    ok (
        record {
          name = row.name;
          label = row.template_name;
          is_default = row.is_default;
          message = message;
        }
        ∷ rest)

  unfoldable pub validate_selected_template :
      String → ReferenceType → String → Value → String → List Template → Result (Option String)
  unfolding find_template
  validate_selected_template user reference_type target company name templates =
      if str_eq name "" then ok none else (do
        t ←
            or_error (validation "ERPNext WhatsApp Message Template not found")
              (find_template name templates)
        check (F.may user "read" "ERPNext WhatsApp Message Template" name)
            (permission "Not permitted")
        check (fits reference_type target company t)
            (validation "Select an enabled WhatsApp template registered for this source.")
        ok (some t.name))
