-- ===== src/Sending/Approved.antt =====
-- What `queue_document` of erpnext_whatsapp_connection/api.py has checked before it stores anything.
use erpnext_whatsapp_connect.Base.{
  ℕ, suc, String, true, none, some, List, contains, str_eq, ◌≡◌, refl, sym, ap, ◌∙◌, eq_iff,
}
use erpnext_whatsapp_connect.Py.Result.{ok, check-passed, bind-ok, ok-injective}
use erpnext_whatsapp_connect.Py.Value.{Value, str, Fields, dict}
use erpnext_whatsapp_connect.Site.Records.{document, report, Delivery, Settings, Template}
use erpnext_whatsapp_connect.Site.World.{World}
use erpnext_whatsapp_connect.Site.Frappe.{compact, Frappe, IsLawful, SourceDoc}
use erpnext_whatsapp_connect.Permissions.{require_sender}
use erpnext_whatsapp_connect.Source.Document.{
  validate_document, validate_print_format, enabled_settings, get_field, print_formats,
}
use erpnext_whatsapp_connect.Sending.Written.{enabled-ok}
use erpnext_whatsapp_connect.Sending.Stored.{row_at}
use erpnext_whatsapp_connect.Sending.Checks.{
  IsMessage, IsSender, IsLinked, IsReadable, require_sender-IsSender, check_recipient-IsLinked,
  validate_document-IsReadable, validate_print_format-offered, shown_format, own_format-shown,
  checked_message-IsMessage,
}
use erpnext_whatsapp_connect.Source.Report as Report
use erpnext_whatsapp_connect.Source.Report.{validate_report}
use erpnext_whatsapp_connect.Sending.Context.{party_field, company_of}
use erpnext_whatsapp_connect.Sending.Offer.{validate_selected_template}
use erpnext_whatsapp_connect.Sending.Queued.{
  queue_document-HasQueuedDocument, queue_report-HasQueuedReport,
}
use erpnext_whatsapp_connect.Sending.Delivered.{HasPdf, HasDelivered-HasPdf}
use erpnext_whatsapp_connect.Sending.Copies.{HasDelivered-primary}
use erpnext_whatsapp_connect.Sending.Calls.{order_of, queue_document, queue_report}
use erpnext_whatsapp_connect.Sending.Store.{new_row, Answer}
use erpnext_whatsapp_connect.Sending.Queue.{
  own_format, DocumentRequest, DocumentDraft, document_draft, ReportRequest, ReportDraft,
  report_draft, checked_message, check_recipient,
}

module _ (F : Frappe) where
  -- A row that carries what a sender was shown and may send.
  pub record IsApproved (user : String) (settings : Settings) (r : DocumentRequest) (p : Delivery)
      : Type 0 where
    pub source : SourceDoc × Fields
    pub party : Value
    pub validated : validate_document F user settings r.doctype r.name ≡ ok source
    pub named : party_field source.1 ≡ ok party
    pub sender : IsSender F user
    pub readable : IsReadable F user settings r.doctype r.name source.0
    pub unchanged : source.0.modified ≡ r.source_modified
    pub number : IsLinked F user (get_field source.0.fields party) p.recipient
    pub message : IsMessage r.message p.message_text
    pub offered : contains (shown_format F p.print_format) (print_formats F r.doctype) ≡ true
    pub owner : p.owner ≡ user
    pub doctype : p.reference_doctype ≡ some r.doctype
    pub name : p.reference_name ≡ some r.name
    pub version : p.source_modified ≡ some r.source_modified

  own_format-offered :
      (doctype chosen format : String)
      → validate_print_format F doctype chosen ≡ ok format
      → contains (shown_format F (own_format format)) (print_formats F doctype) ≡ true
  own_format-offered doctype chosen format h =
      ap (λ f. contains f (print_formats F doctype)) (own_format-shown F format)
      ∙ validate_print_format-offered F doctype chosen format h

  document_draft-IsApproved :
      (settings : Settings) (templates : List Template) (r : DocumentRequest) (x : DocumentDraft)
      (w : World F) (filename : String) (pdf : List ℕ) (now : ℕ) (hash file : String)
      → document_draft F w.user settings templates r ≡ ok x
      → (F.get_doc r.doctype r.name ≡ some x.doc)
        × IsApproved w.user settings r
            (row_at F none x.draft.recipient (order_of x.draft filename pdf) w now hash file)
  unfolding document_draft new_row
  document_draft-IsApproved settings templates r x w filename pdf now hash file h =
      let user = w.user in
      let (u, sender, h1) = bind-ok (require_sender F user) _ x h in
      let (source, validated, h2) =
        bind-ok (validate_document F user settings r.doctype r.name) _ x h1 in
      let (same, h3) = check-passed (str_eq source.0.modified r.source_modified) _ _ x h2 in
      let (party, named, h4) = bind-ok (party_field source.1) _ x h3 in
      let (number, linked, h5) =
        bind-ok (check_recipient F user (get_field source.0.fields party) r.recipient) _ x h4 in
      let (message, checked, h6) = bind-ok (checked_message r.message) _ x h5 in
      let (format, chosen, h7) =
        bind-ok (validate_print_format F r.doctype r.print_format) _ x h6 in
      let (template, _, h8) =
        bind-ok
          (validate_selected_template F user document r.doctype (company_of source.0 source.1)
            r.message_template templates)
          _ x h7 in
      let e = ok-injective _ x h8 in
      let readable =
        validate_document-IsReadable F user settings r.doctype r.name source validated in
      let unchanged = (eq_iff source.0.modified r.source_modified).0 same in
      rw (sym e) (
        readable.exists,
        record {
          source = source;
          party = party;
          validated = validated;
          named = named;
          sender = require_sender-IsSender F user u sender;
          readable = readable;
          unchanged = unchanged;
          number =
              check_recipient-IsLinked F user (get_field source.0.fields party) r.recipient number
                linked;
          message = checked_message-IsMessage r.message message checked;
          offered = own_format-offered r.doctype r.print_format format chosen;
          owner = refl;
          doctype = refl;
          name = refl;
          version = ap some unchanged;
        },
      )

  -- The same for a report: the row's report, filters and company are those that were checked.
  pub record IsApprovedReport (user : String) (settings : Settings) (r : ReportRequest)
      (p : Delivery) : Type 0 where
    pub source : Report.ReportRequest
    pub validated : validate_report F user r.report_name r.filters ≡ ok source
    pub sender : IsSender F user
    pub enabled : settings.enabled ≡ true
    pub number : IsLinked F user (str source.customer) p.recipient
    pub message : IsMessage r.message p.message_text
    pub owner : p.owner ≡ user
    pub name : p.report_name ≡ some r.report_name
    pub filters : p.report_filters ≡ some (F.dumps compact (dict source.filters))
    pub company : p.company ≡ some source.company

  report_draft-IsApprovedReport :
      (settings : Settings) (templates : List Template) (r : ReportRequest) (x : ReportDraft)
      (w : World F) (filename : String) (pdf : List ℕ) (now : ℕ) (hash file : String)
      → report_draft F w.user settings templates r ≡ ok x
      → IsApprovedReport w.user settings r
          (row_at F none x.draft.recipient (order_of x.draft filename pdf) w now hash file)
  unfolding report_draft new_row
  report_draft-IsApprovedReport settings templates r x w filename pdf now hash file h =
      let user = w.user in
      let (u, sender, h1) = bind-ok (require_sender F user) _ x h in
      let (s, allowed, h2) = bind-ok (enabled_settings settings) _ x h1 in
      let (source, validated, h3) =
        bind-ok (validate_report F user r.report_name r.filters) _ x h2 in
      let (number, linked, h4) =
        bind-ok (check_recipient F user (str source.customer) r.recipient) _ x h3 in
      let (message, checked, h5) = bind-ok (checked_message r.message) _ x h4 in
      let (template, _, h6) =
        bind-ok
          (validate_selected_template F user report r.report_name (str source.company)
            r.message_template templates)
          _ x h5 in
      let e = ok-injective _ x h6 in
      rw (sym e) (record {
        source = source;
        validated = validated;
        sender = require_sender-IsSender F user u sender;
        enabled = (enabled-ok settings s allowed).1;
        number = check_recipient-IsLinked F user (str source.customer) r.recipient number linked;
        message = checked_message-IsMessage r.message message checked;
        owner = refl;
        name = refl;
        filters = refl;
        company = refl;
      })

module _ (F : Frappe) (L : IsLawful F) where
  -- A call of `queue_document` that ends well was made by a user who may send, on a site that sends.
  -- The row that it stores for the customer belongs to that user and names the document, which the
  -- user may read and print and which has not changed since the user saw it. It goes to one of the
  -- customer's numbers, in its normal form, with the user's message, without the white space around it
  -- and of 1 to 4096 characters, and in a print format that is offered for the document's type. The
  -- row names a stored file, private and attached to the row, whose bytes are the printed document
  -- in that format, and has the checksum of these bytes.
  pub queue_document-IsApproved :
      (r : DocumentRequest) (w : World F) (a : Answer)
      → (queue_document F r w).0 ≡ ok a
      → let w' = (queue_document F r w).1 in
        (p : Delivery) × (doc : SourceDoc) × (pdf : List ℕ) × (F.find w'.table a.stored.name
          ≡ some p)
        × (F.get_doc r.doctype r.name ≡ some doc)
        × (F.get_print w.tick r.doctype p.print_format doc ≡ ok pdf)
        × HasPdf F w' p pdf
        × IsApproved F w.user w.settings r p
  unfolding new_row
  queue_document-IsApproved r w a h =
      let q = queue_document-HasQueuedDocument F L r w a h in
      let (found, _, _) = HasDelivered-primary F _ _ _ _ a q.delivered in
      let s = q.delivered.primary in
      let (exists, approved) =
        document_draft-IsApproved F w.settings w.templates r q.checked
          (record w { tick = suc w.tick }) q.filename q.pdf s.now s.hash s.file q.passed in
      (
        _,
        q.checked.doc,
        q.pdf,
        found,
        exists,
        q.printed,
        HasDelivered-HasPdf F _ _ _ _ a q.delivered,
        approved,
      )

  -- A call of `queue_report` that ends well was made by a user who may send, on a site that sends.
  -- The row that it stores for the customer belongs to that user and has the report, the filters and
  -- the company that passed the checks. It goes to one of the numbers, in its normal form, of the one
  -- customer that the filters name, with the user's message, without the white space around it and of
  -- 1 to 4096 characters.
  pub queue_report-IsApprovedReport :
      (r : ReportRequest) (w : World F) (a : Answer)
      → (queue_report F r w).0 ≡ ok a
      → (p : Delivery) × (F.find (queue_report F r w).1.table a.stored.name ≡ some p)
        × IsApprovedReport F w.user w.settings r p
  queue_report-IsApprovedReport r w a h =
      let q = queue_report-HasQueuedReport F L r w a h in
      let (found, _, _) = HasDelivered-primary F _ _ _ _ a q.delivered in
      let s = q.delivered.primary in
      (
        _,
        found,
        report_draft-IsApprovedReport F w.settings w.templates r q.checked
            (record w { tick = q.tick }) q.filename q.pdf s.now s.hash s.file q.passed,
      )
