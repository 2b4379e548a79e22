-- ===== src/Groups/Copy.antt =====
-- Whether a stored group copy may still be sent, and the release of waiting copies:
-- `validate_copy` and `release_waiting_copies` of erpnext_whatsapp_connection/company_groups.py.
use erpnext_whatsapp_connect.Base.{
  String, Bool, true, false, not, ◌&&◌, ◌||◌, Option, none, some, List, [], ◌∷◌, str_eq,
  if◌then◌else◌,
}
use erpnext_whatsapp_connect.Py.Result.{
  validation, permission, Result, ok, err, check, or_error, ◌>>=◌, ◌>>◌,
}
use erpnext_whatsapp_connect.Py.Action.{Action, for_each}
use erpnext_whatsapp_connect.Py.Value.{Value, null, str, get}
use erpnext_whatsapp_connect.Py.Equality.{value_eq}
use erpnext_whatsapp_connect.Py.Text.{concat}
use erpnext_whatsapp_connect.Site.Records.{
  Job, Delivery, Settings, Status, queued, waiting, submitted, acknowledged, processing, failed,
  other, ReferenceType, document, report, reference_type_text, is_group, is_blank,
}
use erpnext_whatsapp_connect.Site.Frappe.{Frappe}
use erpnext_whatsapp_connect.Site.World.{World, update_row, enqueue_after_commit}
use erpnext_whatsapp_connect.History.{is_terminal, optional_eq, differs}
use erpnext_whatsapp_connect.Permissions.{require_sender}
use erpnext_whatsapp_connect.Source.Document.{validate_document, validate_print_format, get_field}
use erpnext_whatsapp_connect.Source.Report.{validate_report}
use erpnext_whatsapp_connect.Groups.Config.{configured_group}

-- The fields that a copy shares with its original.
abbrev pub copied_fields : List (Delivery → Option String)
copied_fields =
    (λ d. some d.owner)
    ∷ (λ d. d.company)
    ∷ (λ d. some d.provider)
    ∷ (λ d. some (reference_type_text d.reference_type))
    ∷ (λ d. d.reference_doctype)
    ∷ (λ d. d.reference_name)
    ∷ (λ d. d.report_name)
    ∷ (λ d. d.report_filters)
    ∷ (λ d. d.source_modified)
    ∷ (λ d. d.pdf_sha256)
    ∷ (λ d. some d.message_text)
    ∷ (λ d. d.print_format)
    ∷ (λ d. d.message_template)
    ∷ []

-- The checks against the original: false while it has not been submitted.
unfoldable pub check_parent : Delivery → Delivery → Result Bool
unfolding differs
check_parent parent d =
    if is_terminal parent.status
    then (do
      check (not (is_group parent.recipient_type || not (is_blank parent.copy_of)))
          (validation "Group copies cannot be copied again.")
      check (not (differs copied_fields d parent))
          (validation "Group copy differs from its original delivery.")
      ok true)
    else ok false

abbrev pub text_or_empty : Option String → String
text_or_empty none = ""
text_or_empty (some s) = s

abbrev pub field_value : Option String → Value
field_value none = null
field_value (some s) = str s

module _ (F : Frappe) where
  -- The checks of the source, for the user that the session stands for.
  unfoldable pub check_source : String → Settings → Delivery → ReferenceType → Result (Unit {0})
  check_source user settings d document = do
    source ←
        validate_document F user settings (text_or_empty d.reference_doctype)
          (text_or_empty d.reference_name)
    check
        (value_eq (get_field source.0.fields (get source.1 "company_field")) (field_value d.company)
          && optional_eq (some source.0.modified) d.source_modified)
        (validation "The source company or document version changed.")
    validate_print_format F (text_or_empty d.reference_doctype)
        (if is_blank d.print_format then "Standard" else text_or_empty d.print_format)
    ok tt
  check_source user settings d report = do
    or_error (validation "Report not found") (F.get_doc "Report" (text_or_empty d.report_name))
    check (F.may user "is_permitted" "Report" (text_or_empty d.report_name))
        (permission "The original sender no longer has access to this report.")
    request ← validate_report F user (text_or_empty d.report_name) (field_value d.report_filters)
    check (optional_eq (some request.company) d.company) (validation "The report company changed.")

  -- What runs after `frappe.set_user(document.owner)`.
  unfoldable pub check_as_owner : Delivery → Settings → Action (World F) Bool
  unfolding check_source
  check_as_owner d settings w = (
    do
      require_sender F w.user
      configured ← configured_group F w.user settings d.company
      check (optional_eq configured (some d.recipient))
          (permission "The company group copy configuration changed.")
      check_source w.user settings d d.reference_type
      ok true,
    w,
  )

  abbrev pub check_owner : Delivery → Result (Unit {0})
  check_owner d = do
    check (not (str_eq d.owner "Guest")) (permission "Guest cannot own a group delivery.")
    check (F.user_enabled d.owner) (permission "The original sender is disabled.")

  abbrev pub set_user : String → World F → World F
  set_user user w = record w { user = user }

  -- The `try` block; its `finally` puts the session's user back.
  unfoldable pub recheck : Delivery → Settings → Action (World F) Bool
  unfolding check_as_owner
  recheck d settings w = elim (check_owner d) [
    | err e ↦ (err e, set_user w.user w)
    | ok _ ↦ let (r, w') = check_as_owner d settings (set_user d.owner w) in (r, set_user w.user w')
  ]

  -- The original of a copy.
  abbrev pub parent_of : Delivery → World F → Option Delivery
  parent_of d w = elim d.copy_of [ none ↦ none | some n ↦ F.find w.table n ]

  -- What follows the checks against the original.
  unfoldable pub after_parent : Result Bool → Delivery → Settings → Action (World F) Bool
  after_parent (err e) d settings w = (err e, w)
  after_parent (ok false) d settings w = (ok false, w)
  after_parent (ok true) d settings w = recheck d settings w

  unfoldable pub validate_copy : Delivery → Settings → Action (World F) Bool
  unfolding after_parent check_parent
  validate_copy d settings w = elim (parent_of d w) [
    | none ↦ (err (validation "ERPNext WhatsApp Delivery History not found"), w)
    | some parent ↦ after_parent (check_parent parent d) d settings w
  ]

-- A copy of `primary` that has not been started.
abbrev pub is_releasable : Status → Bool
is_releasable waiting = true
is_releasable queued = true
is_releasable submitted = false
is_releasable acknowledged = false
is_releasable processing = false
is_releasable failed = false
is_releasable (other s) = false

abbrev pub is_waiting_copy : String → Delivery → Bool
is_waiting_copy primary d = optional_eq d.copy_of (some primary) && is_releasable d.status

abbrev pub release : Delivery → Delivery
release d = record d { status = queued }

module _ (F : Frappe) where
  abbrev pub release_job : String → Job
  release_job name = record {
    message_name = name;
    job_id = concat "whatsapp:" name;
    deduplicate = true;
  }

  unfoldable pub release_copy : String → Action (World F) (Unit {0})
  release_copy name w =
      enqueue_after_commit F (release_job name)
        (record w { table = update_row F name release w.table })

  unfoldable pub release_waiting_copies : String → Action (World F) (Unit {0})
  unfolding release_copy for_each
  release_waiting_copies primary w =
      for_each (F.matching (is_waiting_copy primary) none w.table) release_copy w
