-- ===== src/History.antt =====
-- The controller of a delivery row: `ERPNextWhatsAppDeliveryHistory.validate` of
-- doctype/erpnext_whatsapp_delivery_history/erpnext_whatsapp_delivery_history.py, and the save that
-- runs it.
pub mod Saves
pub mod Immutable
use erpnext_whatsapp_connect.Base.{
  String, Bool, true, false, not, ◌&&◌, ◌||◌, Option, none, some, List, [], ◌∷◌, str_eq,
}
use erpnext_whatsapp_connect.Py.Result.{validation, Result, ok, err, check, ◌>>◌}
use erpnext_whatsapp_connect.Py.Action.{Action}
use erpnext_whatsapp_connect.Site.Records.{
  Delivery, Status, queued, processing, submitted, acknowledged, failed, waiting, other, is_group,
  recipient_type_text, ReferenceType, document, report, reference_type_text, is_blank,
}
use erpnext_whatsapp_connect.Site.Frappe.{Frappe}
use erpnext_whatsapp_connect.Site.World.{World}

-- `{"Submitted to WhatsApp", "Acknowledged by WhatsApp"}`.
abbrev pub is_terminal : Status → Bool
is_terminal submitted = true
is_terminal acknowledged = true
is_terminal queued = false
is_terminal processing = false
is_terminal failed = false
is_terminal waiting = false
is_terminal (other s) = false

abbrev pub optional_eq : Option String → Option String → Bool
optional_eq none none = true
optional_eq none (some b) = false
optional_eq (some a) none = false
optional_eq (some a) (some b) = str_eq a b

-- `any(a.get(field) != b.get(field) for field in fields)`.
unfoldable pub differs : List (Delivery → Option String) → Delivery → Delivery → Bool
differs [] a b = false
differs (get ∷ gets) a b = not (optional_eq (get a) (get b)) || differs gets a b

-- The fields that the controller holds fixed once a group copy has been stored.
abbrev pub immutable_fields : List (Delivery → Option String)
immutable_fields =
    (λ d. d.company)
    ∷ (λ d. some d.owner)
    ∷ (λ d. some d.provider)
    ∷ (λ d. some (reference_type_text d.reference_type))
    ∷ (λ d. d.reference_doctype)
    ∷ (λ d. d.reference_name)
    ∷ (λ d. d.report_name)
    ∷ (λ d. d.report_filters)
    ∷ (λ d. d.source_modified)
    ∷ (λ d. d.pdf_file)
    ∷ (λ d. d.pdf_sha256)
    ∷ (λ d. some d.message_text)
    ∷ (λ d. d.print_format)
    ∷ (λ d. d.message_template)
    ∷ (λ d. d.copy_of)
    ∷ (λ d. recipient_type_text d.recipient_type)
    ∷ (λ d. some d.recipient)
    ∷ (λ d. some d.idempotency_key)
    ∷ []

-- The row is a group copy, before the save or after it.
abbrev pub touches_copy : Delivery → Delivery → Bool
touches_copy before d =
    is_group before.recipient_type
    || is_group d.recipient_type
    || not (is_blank before.copy_of)
    || not (is_blank d.copy_of)

abbrev pub is_document : ReferenceType → Bool
is_document document = true
is_document report = false

unfoldable pub check_immutable : Option Delivery → Delivery → Result (Unit {0})
check_immutable none d = ok tt
check_immutable (some before) d =
    check (not (touches_copy before d && differs immutable_fields d before))
      (validation "Queued group copy identity and content are immutable.")

abbrev pub has_message_id : Delivery → Bool
has_message_id d = not (is_terminal d.status) || not (is_blank d.provider_message_ids)

abbrev pub has_document : Delivery → Bool
has_document d =
    not (is_document d.reference_type)
    || (not (is_blank d.reference_doctype) && not (is_blank d.reference_name))

abbrev pub has_report : Delivery → Bool
has_report d = is_document d.reference_type || not (is_blank d.report_name)

unfoldable pub validate : Option Delivery → Delivery → Result (Unit {0})
validate before d = do
  check_immutable before d
  check (has_message_id d)
      (validation "A submitted WhatsApp record must contain a provider message ID.")
  check (has_document d) (validation "A document delivery must retain its document reference.")
  check (has_report d) (validation "A report delivery must retain its report reference.")

-- `document.save(ignore_permissions=True)`: the controller sees the row as it is stored.
unfoldable pub save : (F : Frappe) → Delivery → Action (World F) (Unit {0})
save F d w = elim (validate (F.find w.table d.name) d) [
  | ok _ ↦ (ok tt, record w { table = F.put w.table d })
  | err e ↦ (err e, w)
]
