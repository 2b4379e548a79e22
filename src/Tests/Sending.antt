-- ===== src/Tests/Sending.antt =====
-- Queueing a delivery at a concrete site, and the theorems about it there.
use erpnext_whatsapp_connect.Base.{
  none, inr, not, leb, ◌&&◌, pos, suc, ◌≤◌, arith, ℕ, true, some, List, [], ◌∷◌, ◌≡◌, refl,
}
use erpnext_whatsapp_connect.Py.Result.{ok}
use erpnext_whatsapp_connect.Py.Value.{str, dict, field, end}
use erpnext_whatsapp_connect.Site.Records.{Delivery, Template, document}
use erpnext_whatsapp_connect.Site.World.{World}
use erpnext_whatsapp_connect.Sending.Store.{
  store_row, write_row, insert_row, new_row, may_refuse, save_file, store_copy,
}
use erpnext_whatsapp_connect.Sending.Queue.{
  DocumentDraft, document_draft, own_format, DocumentRequest, ReportRequest,
}
use erpnext_whatsapp_connect.Sending.Calls.{queue_document, queue_report}
use erpnext_whatsapp_connect.Permissions.{require_sender}
use erpnext_whatsapp_connect.Source.Document.{
  print_formats, validate_document, distinct_from, validate_print_format,
}
use erpnext_whatsapp_connect.Adapters.{document_adapter, report_adapter}
use erpnext_whatsapp_connect.Recipients.{entry_of, customer_numbers_of}
use erpnext_whatsapp_connect.Number.{normalize_number}
use erpnext_whatsapp_connect.Py.Unicode.{is_space, is_decimal}
use erpnext_whatsapp_connect.Sending.Offer.{
  find_template, template_rows, validate_selected_template,
}
use erpnext_whatsapp_connect.Groups.Config.{configured_group, check_company}
use erpnext_whatsapp_connect.Groups.Identity.{group_id}
use erpnext_whatsapp_connect.History.{check_immutable, validate}
use erpnext_whatsapp_connect.Py.Equality.{value_eq}
use erpnext_whatsapp_connect.Source.Report.{validate_report}
use erpnext_whatsapp_connect.Sending.ReportPdf.{standard_pdf, report_pdf}
use erpnext_whatsapp_connect.Source.Document.{enabled_settings}
use erpnext_whatsapp_connect.Sending.ReportPage.{report_html, normalize_columns}
use erpnext_whatsapp_connect.Site.Frappe.{SourceDoc}
use erpnext_whatsapp_connect.Sending.Approved.{
  IsApproved, IsApprovedReport, queue_document-IsApproved, queue_report-IsApprovedReport,
}
use erpnext_whatsapp_connect.Sending.Delivered.{HasPdf}
use erpnext_whatsapp_connect.Settings.Sound.{IsSound}
use erpnext_whatsapp_connect.Groups.Rules.{distinct_companies}
use erpnext_whatsapp_connect.Outbound.Worker.{process_outbound_message}
use erpnext_whatsapp_connect.Outbound.Limit.{Steps, start, next, work, sends}
use erpnext_whatsapp_connect.Sending.Limit.{queue_document_limit}
use erpnext_whatsapp_connect.Py.Text.{length, strip, is_empty}
use erpnext_whatsapp_connect.Sending.Dialog.{DocumentDialog, prepare_document}
use erpnext_whatsapp_connect.Sending.Chosen.{IsKeyed}
use erpnext_whatsapp_connect.Sending.Offered.{prepare_document-offers}
use erpnext_whatsapp_connect.Tests.Site.{find, site, site-IsLawful}
use erpnext_whatsapp_connect.Tests.Data.{answer, office, options}

abbrev invoice : DocumentRequest
invoice = record {
  doctype = "Sales Invoice";
  name = "SINV/1";
  recipient = "+49 151 1234567";
  print_format = "";
  message = " Dear customer ";
  source_modified = "v1";
  message_template = "";
}

abbrev ledger : ReportRequest
ledger = record {
  report_name = "Customer Ledger Summary";
  filters = dict (field "party" (str "C-1") (field "company" (str "ACME") end));
  recipient = "+49 151 1234567";
  message = "Dear customer";
  message_template = "";
}

invoice-queued : (queue_document site invoice office).0 ≡ ok answer
unfolding queue_document require_sender validate_document document_adapter customer_numbers_of
    distinct_from normalize_number is_decimal validate_print_format validate_selected_template
    store_row configured_group check_company group_id write_row insert_row check_immutable new_row
    may_refuse save_file store_copy validate value_eq
invoice-queued = refl

ledger-queued : (queue_report site ledger office).0 ≡ ok answer
unfolding queue_report enabled_settings report_pdf validate_report report_adapter standard_pdf
    report_html normalize_columns require_sender customer_numbers_of distinct_from normalize_number
    is_decimal validate_selected_template store_row configured_group check_company group_id
    write_row insert_row check_immutable new_row may_refuse save_file store_copy validate value_eq
ledger-queued = refl

queue_document-IsApproved_example :
    let w' = (queue_document site invoice office).1 in
    (p : Delivery) × (doc : SourceDoc) × (pdf : List ℕ) × (find w'.table "WA" ≡ some p)
    × (site.get_doc "Sales Invoice" "SINV/1" ≡ some doc)
    × (site.get_print 0 "Sales Invoice" p.print_format doc ≡ ok pdf)
    × HasPdf site w' p pdf
    × IsApproved site "Administrator" options invoice p
queue_document-IsApproved_example =
    queue_document-IsApproved site site-IsLawful invoice office answer invoice-queued

queue_report-IsApprovedReport_example :
    (p : Delivery) × (find (queue_report site ledger office).1.table "WA" ≡ some p)
    × IsApprovedReport site "Administrator" options ledger p
queue_report-IsApprovedReport_example =
    queue_report-IsApprovedReport site site-IsLawful ledger office answer ledger-queued

options-IsSound : IsSound options
unfolding distinct_companies
options-IsSound = record {
  provider = refl;
  throttle = (10, refl, omega arith, omega arith);
  retries = (pos 3, refl, omega arith, omega arith);
  distinct = refl;
  groups = λ on. refl;
}

-- The call, and a worker that takes the job.
abbrev queued_office : World site
queued_office = (queue_document site invoice office).1

abbrev taken : Steps site "WA" queued_office (process_outbound_message site "WA" queued_office).1
taken = next start (work "WA" queued_office)

queue_document_limit_example :
    (m : ℕ) × (options.maximum_retries ≡ some (pos m)) × (m ≤ 5) × (sends site "WA" taken ≤ suc m)
queue_document_limit_example =
    queue_document_limit site site-IsLawful invoice office
      (process_outbound_message site "WA" queued_office).1 answer options-IsSound invoice-queued
      taken

-- The site's template for sales invoices.
abbrev own_template : Template
own_template = record {
  name = "Invoices";
  enabled = true;
  is_default = true;
  reference_type = document;
  document_type = some "Sales Invoice";
  report_name = none;
  company = none;
  message_template = "Hello";
}

abbrev own_templates : List Template
own_templates = own_template ∷ []

abbrev dialog : DocumentDialog
dialog = record {
  company_group_copy = true;
  recipients = entry_of "+491511234567" "Customer" ∷ [];
  print_formats = "Standard" ∷ [];
  templates =
      record { name = "Invoices"; label = "Invoices"; is_default = true; message = "Hello" } ∷ [];
  source_modified = "v1";
  title = "Sales Invoice SINV/1";
}

prepared :
    prepare_document site "Administrator" options own_templates "Sales Invoice" "SINV/1" ≡ ok dialog
unfolding prepare_document require_sender validate_document document_adapter customer_numbers_of
    distinct_from normalize_number is_decimal print_formats configured_group check_company group_id
    template_rows enabled_settings value_eq
prepared = refl

said :
    (not (is_empty (strip " Dear customer ")) && leb (length (strip " Dear customer ")) 4096) ≡ true
unfolding strip is_space
said = refl

own_templates-IsKeyed : IsKeyed own_templates
unfolding find_template
own_templates-IsKeyed = (refl, tt)

prepare_document-offers_example :
    (x : DocumentDraft) × (document_draft site "Administrator" options own_templates (record {
      doctype = "Sales Invoice";
      name = "SINV/1";
      recipient = "+491511234567";
      print_format = "Standard";
      message = " Dear customer ";
      source_modified = "v1";
      message_template = "Invoices";
    })
      ≡ ok x)
    × (x.draft.recipient ≡ "+491511234567")
    × (x.draft.message ≡ strip " Dear customer ")
    × (x.draft.content.print_format ≡ own_format "Standard")
    × (x.draft.content.message_template ≡ some "Invoices")
prepare_document-offers_example =
    prepare_document-offers site site-IsLawful "Administrator" options own_templates "Sales Invoice"
      "SINV/1" dialog "+491511234567" "Standard" " Dear customer " "Invoices" own_templates-IsKeyed
      prepared refl refl refl said (inr (refl, refl))
