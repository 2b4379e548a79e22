-- ===== src/Sending/Queued.antt =====
-- The calls `queue_document` and `queue_report` of erpnext_whatsapp_connection/api.py, step by step.
use erpnext_whatsapp_connect.Base.{
  ℕ, suc, String, inl, inr, Bool-cases, List, ◌≡◌, refl, sym, ap, ◌∙◌, subst,
}
use erpnext_whatsapp_connect.Py.Action.{continue, continue-first, continue-step}
use erpnext_whatsapp_connect.Py.Result.{Result, ok, err, crash, or_error}
use erpnext_whatsapp_connect.Py.Text.{concat}
use erpnext_whatsapp_connect.Site.Frappe.{Frappe, IsLawful}
use erpnext_whatsapp_connect.Site.World.{World}
use erpnext_whatsapp_connect.Sending.ReportPdf.{
  call_renderer, run_report, custom_pdf, standard_pdf, report_pdf,
}
use erpnext_whatsapp_connect.Sending.ReportPage.{report_html}
use erpnext_whatsapp_connect.Adapters.{report_adapter}
use erpnext_whatsapp_connect.Gateway.{get_of}
use erpnext_whatsapp_connect.Py.Value.{Value, Fields, dict, end, or_else, as_str, truthy}
use erpnext_whatsapp_connect.Sending.Store.{Answer}
use erpnext_whatsapp_connect.Sending.Queue.{
  DocumentRequest, ReportRequest, DocumentDraft, ReportDraft, document_draft, report_draft, dashed,
}
use erpnext_whatsapp_connect.Sending.Calls.{order_of, get_print, queue_document, queue_report}
use erpnext_whatsapp_connect.Sending.Delivered.{HasDelivered, store_delivery-HasDelivered}

module _ (F : Frappe) where
  -- What a call that queued a document has done: its checks passed, the document was printed, and
  -- the delivery was stored.
  pub record HasQueuedDocument (r : DocumentRequest) (w w' : World F) (a : Answer) : Type 0 where
    pub checked : DocumentDraft
    pub pdf : List ℕ
    pub filename : String
    pub passed : document_draft F w.user w.settings w.templates r ≡ ok checked
    pub printed :
        F.get_print w.tick r.doctype checked.draft.content.print_format checked.doc ≡ ok pdf
    pub delivered :
        HasDelivered F checked.draft.recipient
          (order_of checked.draft filename pdf)
          (record w { tick = suc w.tick })
          w'
          a

  -- The same for a report, which is run and printed at some moment.
  pub record HasQueuedReport (r : ReportRequest) (w w' : World F) (a : Answer) : Type 0 where
    pub checked : ReportDraft
    pub pdf : List ℕ
    pub filename : String
    pub tick : ℕ
    pub passed : report_draft F w.user w.settings w.templates r ≡ ok checked
    pub printed : (report_pdf F r.report_name checked.filters w).0 ≡ ok pdf
    pub delivered :
        HasDelivered F checked.draft.recipient
          (order_of checked.draft filename pdf)
          (record w { tick = tick })
          w'
          a

  -- Nothing but time passes.
  abbrev Ticks : World F → World F → Type 0
  Ticks w w' = (t : ℕ) × (w' ≡ record w { tick = t })

  abbrev at_tick : ℕ → World F → World F
  at_tick k x = record x { tick = k }

  Ticks-after : (w v u : World F) → Ticks w v → Ticks v u → Ticks w u
  Ticks-after w v u (t, e) (k, g) = (k, g ∙ ap (at_tick k) e)

  continue-Ticks :
      {A B : Type 0} (f : A → World F → Result B × World F) (r : Result A × World F) (w : World F)
      → Ticks w r.1
      → ((a : A) (v : World F) → Ticks v (f a v).1)
      → Ticks w (continue f r).1
  continue-Ticks f (ok a, v) w h k = Ticks-after w v (f a v).1 h (k a v)
  continue-Ticks f (err e, v) w h k = h

  custom_pdf-Ticks :
      (renderer : Value) (name : String) (filters : Fields) (w : World F)
      → Ticks w (custom_pdf F renderer name filters w).1
  unfolding custom_pdf
  custom_pdf-Ticks renderer name filters w =
      continue-Ticks _ (or_error (crash "no dotted path") (as_str renderer), w) w (w.tick, refl)
        (λ path v.
          continue-Ticks _ (call_renderer F path name filters v) v (suc v.tick, refl)
            (λ c u. (u.tick, refl)))

  standard_pdf-Ticks :
      (name : String) (filters : Fields) (w : World F) → Ticks w (standard_pdf F name filters w).1
  unfolding standard_pdf
  standard_pdf-Ticks name filters w =
      continue-Ticks _ (run_report F name filters w) w (suc w.tick, refl)
        (λ result v.
          continue-Ticks _ (report_html F name filters result, v) v (v.tick, refl)
            (λ html u. (suc u.tick, refl)))

  report_pdf-Ticks :
      (name : String) (filters : Fields) (w : World F) → Ticks w (report_pdf F name filters w).1
  unfolding report_pdf
  report_pdf-Ticks name filters w =
      continue-Ticks _ (report_adapter F name, w) w (w.tick, refl)
        (λ found v.
          continue-Ticks _ (get_of (or_else found (dict end)) "pdf_renderer", v) v (v.tick, refl)
            (λ renderer u. elim (Bool-cases (truthy renderer)) [
              | inl e ↦ rw e (custom_pdf-Ticks renderer name filters u)
              | inr e ↦ rw e (standard_pdf-Ticks name filters u)
            ]))

module _ (F : Frappe) (L : IsLawful F) where
  pub queue_document-HasQueuedDocument :
      (r : DocumentRequest) (w : World F) (a : Answer)
      → (queue_document F r w).0 ≡ ok a
      → HasQueuedDocument F r w (queue_document F r w).1 a
  unfolding queue_document
  queue_document-HasQueuedDocument r w a h =
      let m : Result DocumentDraft × World F =
        (document_draft F w.user w.settings w.templates r, w) in
      let (x, passed) = continue-first _ m a h in
      let (h1, c1) = continue-step _ m a x w (λ y e. ap (λ v. (v, w)) passed) h in
      let w1 : World F = record w { tick = suc w.tick } in
      let k = get_print F r.doctype x.draft.content.print_format x.doc w in
      let (pdf, printed) = continue-first _ k a h1 in
      let (h2, c2) = continue-step _ k a pdf w1 (λ y e. ap (λ v. (v, w1)) printed) h1 in
      let name = dashed (concat r.doctype (concat "-" (concat r.name ".pdf"))) in
      record {
        checked = x;
        pdf = pdf;
        filename = name;
        passed = passed;
        printed = printed;
        delivered =
            subst (λ v. HasDelivered F x.draft.recipient (order_of x.draft name pdf) w1 v a)
              (ap (λ v. v.1) (sym (c1 ∙ c2)))
              (store_delivery-HasDelivered F L x.draft.recipient (order_of x.draft name pdf) w1 a
                h2);
      }

  pub queue_report-HasQueuedReport :
      (r : ReportRequest) (w : World F) (a : Answer)
      → (queue_report F r w).0 ≡ ok a
      → HasQueuedReport F r w (queue_report F r w).1 a
  unfolding queue_report
  queue_report-HasQueuedReport r w a h =
      let m : Result ReportDraft × World F = (report_draft F w.user w.settings w.templates r, w) in
      let (x, passed) = continue-first _ m a h in
      let (h1, c1) = continue-step _ m a x w (λ y e. ap (λ v. (v, w)) passed) h in
      let k = report_pdf F r.report_name x.filters w in
      let (pdf, printed) = continue-first _ k a h1 in
      let (t, later) = report_pdf-Ticks F r.report_name x.filters w in
      let w1 : World F = record w { tick = t } in
      let (h2, c2) =
        continue-step _ k a pdf w1 (λ y e. ap (λ v. (v, k.1)) printed ∙ ap (λ v. (ok pdf, v)) later)
          h1 in
      let name = dashed (concat r.report_name ".pdf") in
      record {
        checked = x;
        pdf = pdf;
        filename = name;
        tick = t;
        passed = passed;
        printed = printed;
        delivered =
            subst (λ v. HasDelivered F x.draft.recipient (order_of x.draft name pdf) w1 v a)
              (ap (λ v. v.1) (sym (c1 ∙ c2)))
              (store_delivery-HasDelivered F L x.draft.recipient (order_of x.draft name pdf) w1 a
                h2);
      }
