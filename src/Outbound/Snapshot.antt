-- ===== src/Outbound/Snapshot.antt =====
-- The private PDF of a delivery: `_pdf_payload` of erpnext_whatsapp_connection/outbound.py.
use erpnext_whatsapp_connect.Base.{
  ℕ, String, Bool, true, false, not, ◌&&◌, some, List, [], ◌∷◌, ◌==◌,
}
use erpnext_whatsapp_connect.Py.Result.{validation, Result, ok, check, or_error, ◌>>=◌, ◌>>◌}
use erpnext_whatsapp_connect.Site.Records.{Delivery, Pdf, is_blank}
use erpnext_whatsapp_connect.Site.Frappe.{Frappe, StoredFile}
use erpnext_whatsapp_connect.History.{optional_eq}
use erpnext_whatsapp_connect.Groups.Copy.{text_or_empty}

abbrev pub history_doctype : String
history_doctype = "ERPNext WhatsApp Delivery History"

-- `content.startswith(prefix)` on bytes.
unfoldable pub starts_with : List ℕ → List ℕ → Bool
starts_with [] content = true
starts_with (b ∷ bs) [] = false
starts_with (b ∷ bs) (c ∷ cs) = b == c && starts_with bs cs

-- `b"%PDF-"`.
abbrev pub pdf_magic : List ℕ
pdf_magic = b'%' ∷ b'P' ∷ b'D' ∷ b'F' ∷ b'-' ∷ []

abbrev pub is_attached_to : Delivery → StoredFile → Bool
is_attached_to d file =
    optional_eq file.attached_to_doctype (some history_doctype)
    && optional_eq file.attached_to_name (some d.name)

module _ (F : Frappe) where
  unfoldable pub pdf_payload : F.Files → Delivery → Result (List Pdf)
  unfolding starts_with
  pdf_payload files d = do
    check (not (is_blank d.pdf_file))
        (validation "The delivery record has no private PDF snapshot.")
    file ← or_error (validation "File not found") (F.get_file files (text_or_empty d.pdf_file))
    check (is_attached_to d file)
        (validation "The PDF snapshot is not attached to this delivery record.")
    check file.is_private (validation "WhatsApp PDF snapshots must remain private.")
    check (optional_eq (some (F.sha256_bytes file.content)) d.pdf_sha256)
        (validation "The PDF snapshot checksum does not match the delivery record.")
    check (starts_with pdf_magic file.content)
        (validation "The private attachment is not a PDF document.")
    ok (record { filename = file.file_name; content_base64 = F.base64 file.content } ∷ [])
