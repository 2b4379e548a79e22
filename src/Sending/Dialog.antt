-- ===== src/Sending/Dialog.antt =====
-- What the dialogs show before anything is queued: `prepare_document`, `preview_document_pdf`,
-- `prepare_report` and `preview_report_pdf` of erpnext_whatsapp_connection/api.py.
use erpnext_whatsapp_connect.Base.{ℕ, suc, String, Bool, some, List, is_some}
use erpnext_whatsapp_connect.Py.Result.{validation, crash, Result, ok, or_error, ◌>>=◌, ◌>>◌}
use erpnext_whatsapp_connect.Py.Action as Action
use erpnext_whatsapp_connect.Py.Action.{Action}
use erpnext_whatsapp_connect.Py.Value.{Value, str, dict, Fields, end, field, get, find_key}
use erpnext_whatsapp_connect.Py.Text.{concat}
use erpnext_whatsapp_connect.Site.Records.{Settings, Template, document, report}
use erpnext_whatsapp_connect.Site.Frappe.{Frappe, SourceDoc}
use erpnext_whatsapp_connect.Site.World.{World}
use erpnext_whatsapp_connect.Permissions.{require_sender}
use erpnext_whatsapp_connect.Recipients.{Recipient, customer_numbers, customer_numbers_of}
use erpnext_whatsapp_connect.Source.Document.{
  enabled_settings, validate_document, validate_print_format, print_formats, get_field,
}
use erpnext_whatsapp_connect.Source.Report as Source
use erpnext_whatsapp_connect.Source.Report.{validate_report}
use erpnext_whatsapp_connect.Groups.Config.{configured_group}
use erpnext_whatsapp_connect.Sending.Context.{party_field, document_context}
use erpnext_whatsapp_connect.Sending.Offer.{OfferedTemplate, template_rows, render_templates}
use erpnext_whatsapp_connect.Sending.ReportPdf.{report_pdf}
use erpnext_whatsapp_connect.Sending.Queue.{own_format, dashed, stored_text}

pub record DocumentDialog : Type 0 where
  pub company_group_copy : Bool
  pub recipients : List Recipient
  pub print_formats : List String
  pub templates : List OfferedTemplate
  pub source_modified : String
  pub title : String

pub record ReportDialog : Type 0 where
  pub company_group_copy : Bool
  pub recipients : List Recipient
  pub templates : List OfferedTemplate
  pub filters : Fields
  pub title : String

-- What a preview puts into the response.
pub record Download : Type 0 where
  pub filename : String
  pub content : List ℕ

-- `adapter["default_message"]`.
abbrev pub default_message : Fields → Result Value
default_message adapter = or_error (crash "'default_message'") (find_key adapter "default_message")

abbrev pub report_context : SourceDoc → Source.ReportRequest → Fields
report_context customer r = field "party_name" (get customer.fields "customer_name") (
    field "customer" (str r.customer)
      (field "company" (str r.company) (field "filters" (dict r.filters) end)))

module _ (F : Frappe) where
  unfoldable pub prepare_document :
      String → Settings → List Template → String → String → Result DocumentDialog
  unfolding document_context render_templates
  prepare_document user settings templates doctype name = do
    require_sender F user
    source ← validate_document F user settings doctype name
    context ← document_context F doctype source.0 source.1
    party ← party_field source.1
    numbers ← customer_numbers_of F user (get_field source.0.fields party)
    fallback ← default_message source.1
    offered ←
        render_templates F
          (template_rows F document doctype (get context "company") fallback templates) context
    current ← enabled_settings settings
    copy_group ← configured_group F user current (stored_text F (get context "company"))
    ok (record {
      company_group_copy = is_some copy_group;
      recipients = numbers;
      print_formats = print_formats F doctype;
      templates = offered;
      source_modified = source.0.modified;
      title = concat doctype (concat " " name);
    })

  unfoldable pub prepare_report :
      String → Settings → List Template → String → Value → Result ReportDialog
  unfolding render_templates
  prepare_report user settings templates name given = do
    require_sender F user
    current ← enabled_settings settings
    r ← validate_report F user name given
    customer ← or_error (validation "Customer not found") (F.get_doc "Customer" r.customer)
    copy_group ← configured_group F user current (some r.company)
    numbers ← customer_numbers F user r.customer
    fallback ← default_message r.adapter
    offered ←
        render_templates F (template_rows F report name (str r.company) fallback templates)
          (report_context customer r)
    ok (record {
      company_group_copy = is_some copy_group;
      recipients = numbers;
      templates = offered;
      filters = r.filters;
      title = name;
    })

  -- The document and the format of a preview.
  unfoldable pub previewed :
      String → Settings → String → String → String → Result (SourceDoc × String)
  previewed user settings doctype name format = do
    require_sender F user
    source ← validate_document F user settings doctype name
    chosen ← validate_print_format F doctype format
    ok (source.0, chosen)

  abbrev pub print_document : String → String → SourceDoc × String → Action (World F) Download
  print_document doctype name (doc, format) w =
      Action.continue
        (λ content.
          Action.pure (record { filename = dashed (concat name ".pdf"); content = content }))
        (F.get_print w.tick doctype (own_format format) doc, record w { tick = suc w.tick })

  unfoldable pub preview_document_pdf : String → String → String → Action (World F) Download
  unfolding previewed dashed
  preview_document_pdf doctype name format w =
      Action.continue (print_document doctype name)
        (previewed w.user w.settings doctype name format, w)

  -- The report that a preview shows.
  unfoldable pub previewed_report : String → Settings → String → Value → Result Fields
  previewed_report user settings name given = do
    require_sender F user
    enabled_settings settings
    r ← validate_report F user name given
    ok r.filters

  unfoldable pub preview_report_pdf : String → Value → Action (World F) Download
  unfolding previewed_report dashed
  preview_report_pdf name given w =
      Action.continue
        (λ filters u.
          Action.continue
            (λ content.
              Action.pure (record { filename = dashed (concat name ".pdf"); content = content }))
            (report_pdf F name filters u))
        (previewed_report w.user w.settings name given, w)
