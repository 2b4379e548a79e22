-- ===== src/Sending/Fresh.antt =====
-- A row that `_store_delivery` of erpnext_whatsapp_connection/api.py has just stored, for the worker.
use text.Mathlib.TextPositions.{eq_refl}
use erpnext_whatsapp_connect.Base.{
  ℕ, String, Bool, true, false, Option, none, some, [], ◌∷◌, ◌≡◌, refl, sym, ap, ◌∙◌, pos, leb_ℤ,
  str_eq, int_laws,
}
use erpnext_whatsapp_connect.Py.Result.{Error, check, check-ok, err-ne-ok, ok, ◌>>◌}
use erpnext_whatsapp_connect.Site.Records.{Delivery}
use erpnext_whatsapp_connect.Site.Frappe.{Frappe, IsLawful, StoredFile}
use erpnext_whatsapp_connect.Site.World.{World}
use erpnext_whatsapp_connect.History.{
  validate, check_immutable, has_message_id, has_document, has_report,
}
use erpnext_whatsapp_connect.Outbound.Snapshot.{
  pdf_payload, pdf_magic, starts_with, history_doctype,
}
use erpnext_whatsapp_connect.Outbound.Worker.{attempt_limit}
use erpnext_whatsapp_connect.Outbound.Total.{IsWellFormed, IsReady}
use erpnext_whatsapp_connect.Sending.Store.{Order, Stored, new_row, store_row}
use erpnext_whatsapp_connect.Sending.Stored.{row_at, store_row-HasStored}

checks-ok :
    (a b c : Bool) (e f g : Error)
    → (check a e >> (check b f >> check c g)) ≡ ok tt
    → (b ≡ true) × (c ≡ true)
checks-ok true true c e f g h = (refl, check-ok c g tt h)
checks-ok true false c e f g h = absurd (err-ne-ok f tt h)
checks-ok false b c e f g h = absurd (err-ne-ok e tt h)

-- The controller lets a new row pass only if it names its source.
validate-none :
    (d : Delivery) → validate none d ≡ ok tt → (has_document d ≡ true) × (has_report d ≡ true)
unfolding validate check_immutable
validate-none d h = checks-ok (has_message_id d) (has_document d) (has_report d) _ _ _ h

attempts_left :
    (d : Delivery) → d.retry_count ≡ pos 0 → leb_ℤ (attempt_limit d) d.retry_count ≡ false
unfolding attempt_limit
attempts_left d h = rw h (grind int_laws)

module _ (F : Frappe) where
  pub row_at-IsWellFormed :
      (copy_of : Option String) (recipient : String) (o : Order) (w : World F) (now : ℕ)
      (hash file : String)
      → validate none (row_at F copy_of recipient o w now hash file) ≡ ok tt
      → IsWellFormed (row_at F copy_of recipient o w now hash file) 0
  unfolding new_row
  row_at-IsWellFormed copy_of recipient o w now hash file h =
      let (doc, rep) = validate-none (row_at F copy_of recipient o w now hash file) h in
      record { document = doc; report = rep; attempts = refl }

  pub row_at-IsReady :
      (recipient : String) (o : Order) (w w' : World F) (now : ℕ) (hash file : String)
      → IsReady F (row_at F none recipient o w now hash file) w'
  unfolding new_row
  row_at-IsReady recipient o w w' now hash file = record {
    open_status = refl;
    free = refl;
    attempts_left = attempts_left (row_at F none recipient o w now hash file) refl;
    due = refl;
  }

  -- A private PDF that is attached to the row, with the row's checksum, is read.
  pdf_payload-attached :
      (files : F.Files) (d : Delivery) (file : String) (f : StoredFile)
      → d.pdf_file ≡ some file
      → str_eq file "" ≡ false
      → F.get_file files file ≡ some f
      → f.attached_to_doctype ≡ some history_doctype
      → f.attached_to_name ≡ some d.name
      → f.is_private ≡ true
      → d.pdf_sha256 ≡ some (F.sha256_bytes f.content)
      → starts_with pdf_magic f.content ≡ true
      → pdf_payload F files d
        ≡ ok (record { filename = f.file_name; content_base64 = F.base64 f.content } ∷ [])
  unfolding pdf_payload
  pdf_payload-attached files d file f at named got doctype name private sum is_pdf =
      rw (at, named, got, doctype, name, private, sum, is_pdf)
        (rw (eq_refl d.name) (rw (eq_refl (F.sha256_bytes f.content)) refl))

  module _ (L : IsLawful F) where
    -- The PDF that was stored with a row is what a worker reads for the row, if it begins as a PDF
    -- does: private, attached to the row, and with the row's checksum.
    pub store_row-pdf_payload :
        (copy_of : Option String) (recipient : String) (o : Order) (w : World F)
        (r : Stored × Option String)
        → (store_row F copy_of recipient o w).0 ≡ ok r
        → starts_with pdf_magic o.pdf ≡ true
        → (d : Delivery) × (n : String) × (F.find
              (store_row F copy_of recipient o w).1.table
              r.0.name
            ≡ some d)
          × (pdf_payload F (store_row F copy_of recipient o w).1.files d
              ≡ ok (record { filename = n; content_base64 = F.base64 o.pdf } ∷ []))
    unfolding new_row
    store_row-pdf_payload copy_of recipient o w r h is_pdf =
        let s = store_row-HasStored F L copy_of recipient o w r h in
        let (f, got, named, content, private, doctype, name) = s.attached in
        let d = row_at F copy_of recipient o w s.now s.hash s.file in
        let files = (store_row F copy_of recipient o w).1.files in
        let read =
          pdf_payload-attached files d s.file f refl named got doctype (name ∙ ap some s.name)
            private (ap (λ c. some (F.sha256_bytes c)) (sym content))
            (ap (starts_with pdf_magic) content ∙ is_pdf) in
        (
          d,
          f.file_name,
          s.found,
          read
              ∙ ap (λ c. ok (record { filename = f.file_name; content_base64 = F.base64 c } ∷ []))
                  content,
        )
