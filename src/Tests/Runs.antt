-- ===== src/Tests/Runs.antt =====
-- Runs of the site, the gateway's refusals and the installation at concrete inputs.
use erpnext_whatsapp_connect.Base.{
  String, List, length, ◌+◌, ◌≤ℤ◌, max_ℤ, true, none, some, [], ◌∷◌, ◌++◌, ◌≡◌, refl, pos,
}
use erpnext_whatsapp_connect.Py.Result.{ok, err, gateway, ◌>>=◌}
use erpnext_whatsapp_connect.Py.Value.{Value, bool, str, list, cons, nil, dict, field, end}
use erpnext_whatsapp_connect.Site.Records.{failed, Delivery, Request, Template, document}
use erpnext_whatsapp_connect.Site.Frappe.{Frappe, response}
use erpnext_whatsapp_connect.Site.World.{World, request}
use erpnext_whatsapp_connect.Gateway.{gateway_request, secret}
use erpnext_whatsapp_connect.Gateway.Errors.{IsHold, gateway_request-IsHold}
use erpnext_whatsapp_connect.Templates.{save_template, validate_template}
use erpnext_whatsapp_connect.Py.Text.{strip}
use erpnext_whatsapp_connect.Py.Unicode.{is_space}
use erpnext_whatsapp_connect.Install.{Setup, after_install, after_migrate}
use erpnext_whatsapp_connect.Install.Repeated.{
  HasSetup, after_migrate_idle, only_one, after_migrate_blocked,
}
use erpnext_whatsapp_connect.Outbound.Worker.{attempt_limit, process_outbound_message}
use erpnext_whatsapp_connect.Outbound.Scheduler.{retry_due_messages, scheduled_maintenance}
use erpnext_whatsapp_connect.Outbound.Budget.{SameBudget}
use erpnext_whatsapp_connect.Outbound.Kept.{scheduled_maintenance-SameBudget}
use erpnext_whatsapp_connect.Outbound.Limit.{Steps, start, next, work, maintain, sends, Steps_limit}
use erpnext_whatsapp_connect.Sending.Escaped.{markup, blank_page, report_html-markup}
use erpnext_whatsapp_connect.Sending.ReportPage.{
  escape, concat_all, before_colon, normalize_columns, head_cells, body_rows, row_cells, zip_get,
  report_html, Column, list_of,
}
use erpnext_whatsapp_connect.Gateway.{get_of}
use erpnext_whatsapp_connect.Py.Equality.{value_eq}
use erpnext_whatsapp_connect.Outbound.Life.{Follows, process_outbound_message-Follows}
use erpnext_whatsapp_connect.Outbound.Due.{IsHandled}
use erpnext_whatsapp_connect.Outbound.Requeued.{retry_due_messages-IsHandled}
use erpnext_whatsapp_connect.Tests.Site.{find, site, site-IsLawful}
use erpnext_whatsapp_connect.Tests.Data.{holding, primary, options, fresh}

-- A worker takes the job, and the next minute's job runs.
abbrev worked : World site
worked = (process_outbound_message site "WA-1" fresh).1

abbrev minute : Steps site "WA-1" fresh (scheduled_maintenance site worked).1
minute = next (next start (work "WA-1" fresh)) (maintain worked)

Steps_limit_example : pos (0 + sends site "WA-1" minute) ≤ℤ max_ℤ (pos 0) (attempt_limit primary)
Steps_limit_example =
    Steps_limit site site-IsLawful "WA-1" minute primary 0 refl
      (record { document = refl; report = refl; attempts = refl })

process_outbound_message-Follows_example :
    (d' : Delivery) × (find worked.table "WA-1" ≡ some d') × Follows primary d'
process_outbound_message-Follows_example =
    process_outbound_message-Follows site site-IsLawful fresh "WA-1" primary 0 refl
      (record { document = refl; report = refl; attempts = refl })

scheduled_maintenance-SameBudget_example :
    (d' : Delivery) × (find (scheduled_maintenance site fresh).1.table "WA-1" ≡ some d')
    × SameBudget primary d'
scheduled_maintenance-SameBudget_example =
    scheduled_maintenance-SameBudget site site-IsLawful "WA-1" fresh primary refl

-- A report with one column and one row that contain markup.
abbrev hostile : Value
hostile = dict (
    field "columns" (list (cons (str "A<i>:Data") nil))
      (field "result" (list (cons (list (cons (str "<script>") nil)) nil)) end))

abbrev shown_page : String
shown_page =
    "<html><head><style>body{font-family:sans-serif;font-size:9pt}table{border-collapse:collapse;width:100%}th,td{border:1px solid #ccc;padding:4px}th{background:#eee}</style></head><body><h2>R&amp;D</h2><p>json</p><table><thead><tr><th>A&lt;i&gt;</th></tr></thead><tbody><tr><td>&lt;script&gt;</td></tr></tbody></table></body></html>"

hostile-shown : report_html site "R&D" end hostile ≡ ok shown_page
unfolding report_html escape concat_all before_colon normalize_columns head_cells body_rows
    row_cells zip_get value_eq
hostile-shown = refl

report_html-markup_example :
    (cs rs : List Value) × (shown : List Column) × ((get_of hostile "columns" >>= list_of) ≡ ok cs)
    × ((get_of hostile "result" >>= list_of) ≡ ok rs)
    × (normalize_columns site 0 cs ≡ ok shown)
    × (markup shown_page ≡ markup (blank_page site (length shown) (length rs)))
report_html-markup_example = report_html-markup site "R&D" end hostile shown_page hostile-shown

-- A gateway that holds every delivery.
abbrev holding_site : Frappe
holding_site = record site {
  exchange = λ n r. response 409 (some (dict (field "reconciliation_required" (bool true) end)));
}

abbrev holding_world : World holding_site
holding_world = record {
  table = [];
  files = [];
  templates = [];
  settings = options;
  user = "Administrator";
  jobs = [];
  log = [];
  tick = 0;
}

refused :
    (gateway_request holding_site "/v1/messages" end holding_world).0 ≡ err (gateway "text" true)
unfolding gateway_request secret strip is_space
refused = refl

gateway_request-IsHold_example :
    (r : Request) × ((gateway_request holding_site "/v1/messages" end holding_world).1.log
      ≡ [] ++ request r ∷ [])
    × IsHold holding_site (holding_site.exchange 0 r)
gateway_request-IsHold_example =
    gateway_request-IsHold holding_site "/v1/messages" end holding_world (gateway "text" true)
      refused refl

abbrev empty_setup : Setup
empty_setup = record { roles = []; has_doctype = true; templates = [] }

installed : (after_install empty_setup).0 ≡ ok tt
unfolding after_install save_template validate_template
installed = refl

after_migrate_idle_example :
    HasSetup (after_install empty_setup).1
    × (after_migrate (after_install empty_setup).1 ≡ (ok tt, (after_install empty_setup).1))
after_migrate_idle_example = after_migrate_idle empty_setup tt installed

-- A site that has replaced the template for sales invoices by its own.
abbrev own_template : Template
own_template = record {
  name = "Invoices";
  enabled = true;
  is_default = true;
  reference_type = document;
  document_type = some "Sales Invoice";
  report_name = none;
  company = none;
  message_template = "Hello";
}

abbrev own_setup : Setup
own_setup = record { roles = []; has_doctype = true; templates = own_template ∷ [] }

after_migrate_blocked_example :
    ((after_install own_setup).0 ≡ err only_one)
    × ((after_install own_setup).1.templates ≡ own_template ∷ [])
    × ((after_migrate own_setup).0 ≡ err only_one)
    × ((after_migrate own_setup).1.templates ≡ own_template ∷ [])
after_migrate_blocked_example = after_migrate_blocked own_setup refl refl refl

abbrev failing : Delivery
failing = record primary { status = failed; next_retry_at = some 50; retry_count = pos 1 }

retry_due_messages-IsHandled_example :
    IsHandled site "WA-1" failing (retry_due_messages site (holding (failing ∷ []))).1
retry_due_messages-IsHandled_example =
    retry_due_messages-IsHandled site "WA-1" site-IsLawful (holding (failing ∷ [])) failing refl
      refl
