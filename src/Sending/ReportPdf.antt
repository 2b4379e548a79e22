-- ===== src/Sending/ReportPdf.antt =====
-- The PDF of a report: `_report_pdf` of erpnext_whatsapp_connection/api.py.
use erpnext_whatsapp_connect.Base.{ℕ, suc, String, Option, none, some, List, [], ◌∷◌, if◌then◌else◌}
use erpnext_whatsapp_connect.Py.Result.{Error, validation, crash, Result, ok, err, or_error}
use erpnext_whatsapp_connect.Py.Action.{Action, lift, ◌>>=◌}
use erpnext_whatsapp_connect.Py.Value.{Value, dict, end, Fields, truthy, as_str, or_else}
use erpnext_whatsapp_connect.Site.Frappe.{Frappe}
use erpnext_whatsapp_connect.Site.World.{World}
use erpnext_whatsapp_connect.Adapters.{report_adapter}
use erpnext_whatsapp_connect.Gateway.{get_of}
use erpnext_whatsapp_connect.Outbound.Snapshot.{starts_with}
use erpnext_whatsapp_connect.Sending.ReportPage.{report_html}

-- `b"%PDF"`.
abbrev pub renderer_magic : List ℕ
renderer_magic = b'%' ∷ b'P' ∷ b'D' ∷ b'F' ∷ []

abbrev pub invalid_pdf : Error
invalid_pdf = validation "The registered report PDF renderer returned an invalid PDF."

-- What an app's own renderer returned, if it is the bytes of a PDF.
unfoldable pub rendered : Option (List ℕ) → Result (List ℕ)
unfolding starts_with
rendered none = err invalid_pdf
rendered (some content) = if starts_with renderer_magic content then ok content else err invalid_pdf

module _ (F : Frappe) where
  -- Calls whose answer may differ each time.
  abbrev pub call_renderer : String → String → Fields → Action (World F) (Option (List ℕ))
  call_renderer path name filters w =
      (F.report_renderer w.tick path name filters, record w { tick = suc w.tick })

  abbrev pub run_report : String → Fields → Action (World F) Value
  run_report name filters w = (F.run_report w.tick name filters, record w { tick = suc w.tick })

  abbrev pub make_pdf : String → Action (World F) (List ℕ)
  make_pdf html w = (F.get_pdf w.tick html, record w { tick = suc w.tick })

  -- By the renderer that the adapter names.
  unfoldable pub custom_pdf : Value → String → Fields → Action (World F) (List ℕ)
  unfolding rendered
  custom_pdf renderer name filters = do
    path ← lift (or_error (crash "no dotted path") (as_str renderer))
    content ← call_renderer path name filters
    lift (rendered content)

  unfoldable pub standard_pdf : String → Fields → Action (World F) (List ℕ)
  unfolding report_html
  standard_pdf name filters = do
    result ← run_report name filters
    html ← lift (report_html F name filters result)
    make_pdf html

  unfoldable pub report_pdf : String → Fields → Action (World F) (List ℕ)
  unfolding custom_pdf standard_pdf
  report_pdf name filters = do
    found ← lift (report_adapter F name)
    renderer ← lift (get_of (or_else found (dict end)) "pdf_renderer")
    if truthy renderer then custom_pdf renderer name filters else standard_pdf name filters
