-- ===== src/Install.antt =====
-- The roles and the message templates that the app brings: erpnext_whatsapp_connection/install.py.
pub mod Roles
pub mod Added
pub mod Repeated
use erpnext_whatsapp_connect.Base.{
  String, Bool, true, false, ◌||◌, Option, none, some, List, [], ◌∷◌, ◌++◌, contains, str_eq,
  if◌then◌else◌,
}
use erpnext_whatsapp_connect.Py.Result.{crash, Result, ok, err, or_error, ◌>>=◌}
use erpnext_whatsapp_connect.Py.Action as Action
use erpnext_whatsapp_connect.Py.Action.{Action, for_each, ◌>>◌}
use erpnext_whatsapp_connect.Py.Value.{Value, Fields, end, field, find_key, as_str, as_dict}
use erpnext_whatsapp_connect.Py.Text.{concat}
use erpnext_whatsapp_connect.Site.Records.{ReferenceType, document, report, Template}
use erpnext_whatsapp_connect.Adapters.{default_document_adapters, default_report_adapters}
use erpnext_whatsapp_connect.Templates.{exists, save_template}

-- What the site has of it; the DocType may be missing while the app is installed.
pub record Setup : Type 0 where
  pub roles : List String
  pub has_doctype : Bool
  pub templates : List Template

abbrev pub role_names : List String
role_names = "ERPNext WhatsApp Manager" ∷ "ERPNext WhatsApp Sender" ∷ []

unfoldable pub ensure_role : String → Action Setup (Unit {0})
ensure_role role s =
    if contains role s.roles then (ok tt, s) else (ok tt, record s { roles = s.roles ++ role ∷ [] })

unfoldable pub ensure_roles : Action Setup (Unit {0})
unfolding ensure_role for_each
ensure_roles = for_each role_names ensure_role

abbrev pub default_name : String → String
default_name target = concat "Default " target

abbrev pub is_named : String → Template → Bool
is_named name t = str_eq t.name name

-- `adapter["default_message"]`, a text.
abbrev pub message_of : Value → Result String
message_of adapter = do
  fields ← or_error (crash "'default_message'") (as_dict adapter)
  message ← or_error (crash "'default_message'") (find_key fields "default_message")
  or_error (crash "the template is not a text") (as_str message)

abbrev pub default_template : ReferenceType → String → String → Template
default_template document target message = record {
  name = default_name target;
  enabled = true;
  is_default = true;
  reference_type = document;
  document_type = some target;
  report_name = none;
  company = none;
  message_template = message;
}
default_template report target message = record {
  name = default_name target;
  enabled = true;
  is_default = true;
  reference_type = report;
  document_type = none;
  report_name = some target;
  company = none;
  message_template = message;
}

-- `.insert(ignore_permissions=True)`, which runs the controller.
unfoldable pub insert_template :
    ReferenceType → String → Value → List Template → Result (List Template)
insert_template reference_type target adapter stored = do
  message ← message_of adapter
  save_template stored (default_template reference_type target message)

abbrev pub with_templates : Setup → Result (List Template) → Result (Unit {0}) × Setup
with_templates s (ok templates) = (ok tt, record s { templates = templates })
with_templates s (err e) = (err e, s)

unfoldable pub ensure_template : ReferenceType → String → Value → Action Setup (Unit {0})
unfolding insert_template
ensure_template reference_type target adapter s =
    if exists (is_named (default_name target)) s.templates
    then (ok tt, s)
    else with_templates s (insert_template reference_type target adapter s.templates)

-- The loop over the adapters of one kind.
unfoldable pub ensure_templates : ReferenceType → Fields → Action Setup (Unit {0})
unfolding ensure_template
ensure_templates reference_type end s = (ok tt, s)
ensure_templates reference_type (field target adapter rest) s =
    Action.continue (λ _. ensure_templates reference_type rest)
      (ensure_template reference_type target adapter s)

unfoldable pub ensure_default_templates : Action Setup (Unit {0})
unfolding ensure_templates
ensure_default_templates s =
    if s.has_doctype
    then (ensure_templates document default_document_adapters
          >> ensure_templates report default_report_adapters)
        s
    else (ok tt, s)

unfoldable pub after_install : Action Setup (Unit {0})
unfolding ensure_roles ensure_default_templates
after_install = do ensure_roles; ensure_default_templates

unfoldable pub after_migrate : Action Setup (Unit {0})
unfolding ensure_roles ensure_default_templates
after_migrate = do ensure_roles; ensure_default_templates
