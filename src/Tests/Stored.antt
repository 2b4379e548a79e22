-- ===== src/Tests/Stored.antt =====
-- Storing a row and its copy at a concrete site, and the theorems about them there.
use erpnext_whatsapp_connect.Base.{arith, String, true, none, some, [], ◌∷◌, ◌≡◌, refl}
use erpnext_whatsapp_connect.Py.Result.{ok}
use erpnext_whatsapp_connect.Site.Records.{Delivery, document, queued, submitted, waiting}
use erpnext_whatsapp_connect.Sending.Store.{
  Order, Stored, store_delivery, store_row, write_row, insert_row, new_row, may_refuse, save_file,
  store_copy,
}
use erpnext_whatsapp_connect.Groups.Config.{configured_group, check_company}
use erpnext_whatsapp_connect.Groups.Identity.{group_id}
use erpnext_whatsapp_connect.History.{check_immutable, validate}
use erpnext_whatsapp_connect.Source.Document.{enabled_settings}
use erpnext_whatsapp_connect.Outbound.Snapshot.{pdf_payload, pdf_magic, starts_with}
use erpnext_whatsapp_connect.Sending.Fresh.{store_row-pdf_payload}
use erpnext_whatsapp_connect.Sending.Stored.{row_at}
use erpnext_whatsapp_connect.Groups.Copy.{check_parent}
use erpnext_whatsapp_connect.Sending.Copies.{IsLater, HasCopy, store_delivery-HasCopy}
use erpnext_whatsapp_connect.Tests.Site.{find, pdf_bytes, site, site-IsLawful}
use erpnext_whatsapp_connect.Tests.Data.{acme_group, answer, office}

abbrev printed : Order
printed = record {
  content = record {
    reference_type = document;
    reference_doctype = some "Sales Invoice";
    reference_name = some "SINV/1";
    print_format = none;
    source_modified = some "v1";
    report_name = none;
    report_filters = none;
    message_template = none;
  };
  company = some "ACME";
  message = "Dear customer";
  pdf = pdf_bytes;
  filename = "Sales Invoice-SINV-1.pdf";
}

abbrev stored : Stored
stored = record { name = "WA"; status = queued }

row-stored : (store_row site none "+491511234567" printed office).0 ≡ ok (stored, some acme_group)
unfolding store_row enabled_settings configured_group check_company group_id write_row insert_row
    check_immutable new_row may_refuse save_file validate
row-stored = refl

is_pdf : starts_with pdf_magic pdf_bytes ≡ true
unfolding starts_with
is_pdf = refl

store_row-pdf_payload_example :
    (d : Delivery) × (n : String) × (find
        (store_row site none "+491511234567" printed office).1.table
        "WA"
      ≡ some d)
    × (pdf_payload site (store_row site none "+491511234567" printed office).1.files d
        ≡ ok (record { filename = n; content_base64 = "JVBERi0=" } ∷ []))
store_row-pdf_payload_example =
    store_row-pdf_payload site site-IsLawful none "+491511234567" printed office
      (stored, some acme_group) row-stored is_pdf

both-stored : (store_delivery site "+491511234567" printed office).0 ≡ ok answer
unfolding store_delivery store_copy store_row enabled_settings configured_group check_company
    group_id write_row insert_row check_immutable new_row may_refuse save_file validate
both-stored = refl

-- The customer's row, and the row once it has been sent.
abbrev customer_row : Delivery
customer_row = row_at site none "+491511234567" printed office 100 "hash" "|"

abbrev sent_row : Delivery
sent_row = record customer_row { status = submitted }

row-found :
    find (store_delivery site "+491511234567" printed office).1.table "WA" ≡ some customer_row
unfolding store_delivery store_copy store_row enabled_settings configured_group check_company
    group_id write_row insert_row check_immutable new_row may_refuse save_file validate
row-found = refl

sent_row-IsLater : IsLater customer_row sent_row
unfolding new_row
sent_row-IsLater = record { identity = ground arith; kind = refl }

store_delivery-HasCopy_example :
    (d : Delivery) × (find (store_delivery site "+491511234567" printed office).1.table "WAWAWA"
      ≡ some d)
    × HasCopy site customer_row d office printed
    × (check_parent sent_row d ≡ ok true)
store_delivery-HasCopy_example =
    store_delivery-HasCopy site site-IsLawful "+491511234567" printed office answer
      (record { name = "WAWAWA"; status = waiting }) customer_row sent_row both-stored refl
      row-found sent_row-IsLater refl
