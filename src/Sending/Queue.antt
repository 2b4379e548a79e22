-- ===== src/Sending/Queue.antt =====
-- Queueing a delivery: `queue_document` and `queue_report` of erpnext_whatsapp_connection/api.py.
use Prim.Native.Char.{code}
use Prim.Native.String as Text
use erpnext_whatsapp_connect.Base.{
  String, not, ◌&&◌, Option, none, some, List, contains, map, leb, str_eq, ◌==◌, if◌then◌else◌,
}
use erpnext_whatsapp_connect.Py.Result.{validation, permission, Result, ok, check, ◌>>=◌, ◌>>◌}
use erpnext_whatsapp_connect.Py.Value.{Value, null, str, dict, Fields}
use erpnext_whatsapp_connect.Py.Text.{length, is_empty, strip, concat}
use erpnext_whatsapp_connect.Site.Records.{Settings, Template, document, report}
use erpnext_whatsapp_connect.Site.Frappe.{Frappe, SourceDoc, compact}
use erpnext_whatsapp_connect.Number.{normalize_number}
use erpnext_whatsapp_connect.Permissions.{require_sender}
use erpnext_whatsapp_connect.Recipients.{Recipient, customer_numbers_of, text_in}
use erpnext_whatsapp_connect.Source.Document.{
  enabled_settings, validate_document, validate_print_format, get_field,
}
use erpnext_whatsapp_connect.Source.Report.{validate_report}
use erpnext_whatsapp_connect.Sending.Context.{party_field, adapted, company_of}
use erpnext_whatsapp_connect.Sending.Offer.{validate_selected_template}
use erpnext_whatsapp_connect.Sending.Store.{Content}

-- What the calls are given.
pub record DocumentRequest : Type 0 where
  pub doctype : String
  pub name : String
  pub recipient : String
  pub print_format : String
  pub message : String
  pub source_modified : String
  pub message_template : String

pub record ReportRequest : Type 0 where
  pub report_name : String
  pub filters : Value
  pub recipient : String
  pub message : String
  pub message_template : String

-- All but the PDF, once the checks are passed.
pub record Draft : Type 0 where
  pub content : Content
  pub company : Option String
  pub recipient : String
  pub message : String

pub record DocumentDraft : Type 0 where
  pub draft : Draft
  pub doc : SourceDoc

pub record ReportDraft : Type 0 where
  pub draft : Draft
  pub filters : Fields

-- The message, without the white space around it, has 1 to 4096 characters.
unfoldable pub checked_message : String → Result String
unfolding strip
checked_message text = do
  check (not (is_empty (strip text)) && leb (length (strip text)) 4096)
      (validation "The message must contain 1 to 4096 characters.")
  ok (strip text)

-- `None if print_format == "Standard" else print_format`.
abbrev pub own_format : String → Option String
own_format format = if str_eq format "Standard" then none else some format

-- `text.replace("/", "-")`.
unfoldable pub dashed : String → String
dashed Text.[] = Text.[]
dashed (Text.◌∷◌ c s) =
    let rest = dashed s in if code c == b'/' then concat "-" rest else Text.◌∷◌ c rest

abbrev pub values_of : List Recipient → List String
values_of rs = map (λ r. r.value) rs

module _ (F : Frappe) where
  -- A field's value as it is stored in a column of texts.
  abbrev pub stored_text : Value → Option String
  stored_text null = none
  stored_text v = some (text_in F v)

  -- The number is one of the customer's.
  unfoldable pub check_recipient : String → Value → String → Result String
  check_recipient user customer recipient = do
    numbers ← customer_numbers_of F user customer
    number ← normalize_number recipient
    check (contains number (values_of numbers))
        (permission "Select a WhatsApp number linked to this customer.")
    ok number

  abbrev pub document_content : DocumentRequest → SourceDoc → String → Option String → Content
  document_content r doc format template = record {
    reference_type = document;
    reference_doctype = some r.doctype;
    reference_name = some r.name;
    print_format = own_format format;
    source_modified = some doc.modified;
    report_name = none;
    report_filters = none;
    message_template = template;
  }

  -- The checks of `queue_document`, in their order, and what they leave to be printed and stored.
  unfoldable pub document_draft :
      String → Settings → List Template → DocumentRequest → Result DocumentDraft
  unfolding check_recipient checked_message
  document_draft user settings templates r = do
    require_sender F user
    source ← validate_document F user settings r.doctype r.name
    check (str_eq source.0.modified r.source_modified)
        (validation "The document changed after preview. Refresh and review it again.")
    party ← party_field source.1
    number ← check_recipient user (get_field source.0.fields party) r.recipient
    message ← checked_message r.message
    format ← validate_print_format F r.doctype r.print_format
    template ←
        validate_selected_template F user document r.doctype (company_of source.0 source.1)
          r.message_template templates
    ok (record {
      draft = record {
        content = document_content r source.0 format template;
        company = stored_text (adapted source.0 source.1 "company_field");
        recipient = number;
        message = message;
      };
      doc = source.0;
    })

  abbrev pub report_content : ReportRequest → Fields → Option String → Content
  report_content r filters template = record {
    reference_type = report;
    reference_doctype = none;
    reference_name = none;
    print_format = none;
    source_modified = none;
    report_name = some r.report_name;
    report_filters = some (F.dumps compact (dict filters));
    message_template = template;
  }

  -- The checks of `queue_report`.
  unfoldable pub report_draft :
      String → Settings → List Template → ReportRequest → Result ReportDraft
  unfolding check_recipient checked_message
  report_draft user settings templates r = do
    require_sender F user
    enabled_settings settings
    source ← validate_report F user r.report_name r.filters
    number ← check_recipient user (str source.customer) r.recipient
    message ← checked_message r.message
    template ←
        validate_selected_template F user report r.report_name (str source.company)
          r.message_template templates
    ok (record {
      draft = record {
        content = report_content r source.filters template;
        company = some source.company;
        recipient = number;
        message = message;
      };
      filters = source.filters;
    })
