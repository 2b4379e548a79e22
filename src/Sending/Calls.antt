-- ===== src/Sending/Calls.antt =====
-- The calls that queue, once their checks are passed: `queue_document` and `queue_report` of
-- erpnext_whatsapp_connection/api.py.
use erpnext_whatsapp_connect.Base.{ℕ, suc, String, Option, List}
use erpnext_whatsapp_connect.Py.Action.{Action, ◌>>=◌}
use erpnext_whatsapp_connect.Py.Text.{concat}
use erpnext_whatsapp_connect.Site.Frappe.{Frappe, SourceDoc}
use erpnext_whatsapp_connect.Site.World.{World}
use erpnext_whatsapp_connect.Sending.ReportPdf.{report_pdf}
use erpnext_whatsapp_connect.Sending.Store.{Order, Answer, store_delivery}
use erpnext_whatsapp_connect.Sending.Queue.{
  DocumentRequest, ReportRequest, Draft, DocumentDraft, ReportDraft, document_draft, report_draft,
  dashed,
}

abbrev pub order_of : Draft → String → List ℕ → Order
order_of draft filename pdf = record {
  content = draft.content;
  company = draft.company;
  message = draft.message;
  pdf = pdf;
  filename = filename;
}

module _ (F : Frappe) where
  -- `frappe.get_print(..., as_pdf=True)`.
  abbrev pub get_print : String → Option String → SourceDoc → Action (World F) (List ℕ)
  get_print doctype format doc w =
      (F.get_print w.tick doctype format doc, record w { tick = suc w.tick })

  abbrev pub read_document : DocumentRequest → Action (World F) DocumentDraft
  read_document r w = (document_draft F w.user w.settings w.templates r, w)

  abbrev pub read_report : ReportRequest → Action (World F) ReportDraft
  read_report r w = (report_draft F w.user w.settings w.templates r, w)

  unfoldable pub queue_document : DocumentRequest → Action (World F) Answer
  unfolding document_draft store_delivery dashed
  queue_document r = do
    checked ← read_document r
    pdf ← get_print r.doctype checked.draft.content.print_format checked.doc
    store_delivery F checked.draft.recipient
        (order_of checked.draft (dashed (concat r.doctype (concat "-" (concat r.name ".pdf")))) pdf)

  unfoldable pub queue_report : ReportRequest → Action (World F) Answer
  unfolding report_draft store_delivery dashed
  queue_report r = do
    checked ← read_report r
    pdf ← report_pdf F r.report_name checked.filters
    store_delivery F checked.draft.recipient
        (order_of checked.draft (dashed (concat r.report_name ".pdf")) pdf)
