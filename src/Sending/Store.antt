-- ===== src/Sending/Store.antt =====
-- The row and the PDF of a new delivery: `_store_delivery` of erpnext_whatsapp_connection/api.py.
use erpnext_whatsapp_connect.Base.{
  ℕ, suc, ◌-◌, String, true, false, Option, none, some, List, [], ◌∷◌, ◌++◌, ℤ, pos,
}
use erpnext_whatsapp_connect.Py.Result.{Result, ok, err}
use erpnext_whatsapp_connect.Py.Action.{Action, pure, lift, ◌>>=◌, ◌>>◌}
use erpnext_whatsapp_connect.Py.Text.{length, drop, concat}
use erpnext_whatsapp_connect.Site.Records.{
  Delivery, Settings, Status, queued, waiting, RecipientType, individual, group, ReferenceType, Job,
}
use erpnext_whatsapp_connect.Site.Frappe.{Frappe, StoredFile}
use erpnext_whatsapp_connect.Site.World.{World, set_value}
use erpnext_whatsapp_connect.History.{validate}
use erpnext_whatsapp_connect.Source.Document.{enabled_settings}
use erpnext_whatsapp_connect.Groups.Config.{configured_group}
use erpnext_whatsapp_connect.Outbound.Snapshot.{history_doctype}

-- The keyword arguments that a document and a report fill differently.
pub record Content : Type 0 where
  pub reference_type : ReferenceType
  pub reference_doctype : Option String
  pub reference_name : Option String
  pub print_format : Option String
  pub source_modified : Option String
  pub report_name : Option String
  pub report_filters : Option String
  pub message_template : Option String

-- What is sent, whoever receives it.
pub record Order : Type 0 where
  pub content : Content
  pub company : Option String
  pub message : String
  pub pdf : List ℕ
  pub filename : String

-- What a call answers of a row that it stored.
pub record Stored : Type 0 where
  pub name : String
  pub status : Status

pub record Answer : Type 0 where
  pub stored : Stored
  pub group_copy : Option Stored

-- `recipient[-4:]`.
abbrev pub last_four : String → String
last_four s = drop (length s - 4) s

abbrev pub masked : Option String → String → String
masked none recipient = concat "********" (last_four recipient)
masked (some primary) recipient = "Configured company group"

abbrev pub first_status : Option String → Status
first_status none = queued
first_status (some primary) = waiting

abbrev pub type_of : Option String → RecipientType
type_of none = individual
type_of (some primary) = group

-- `cint(settings.maximum_retries)`.
abbrev pub retries_of : Settings → ℤ
retries_of s = elim s.maximum_retries [ none ↦ pos 0 | some n ↦ n ]

abbrev pub with_pdf : String → String → Delivery → Delivery
with_pdf file digest d = record d { pdf_file = some file; pdf_sha256 = some digest }

module _ (F : Frappe) where
  -- The row as it is built, at a moment and with a fresh key.
  unfoldable pub new_row :
      Option String → String → Order → Settings → String → ℕ → String → String → Delivery
  new_row copy_of recipient o settings user now hash name = record {
    name = name;
    owner = user;
    status = first_status copy_of;
    provider = settings.provider;
    company = o.company;
    recipient_type = type_of copy_of;
    copy_of = copy_of;
    reconciliation_required = false;
    reference_type = o.content.reference_type;
    reference_doctype = o.content.reference_doctype;
    reference_name = o.content.reference_name;
    report_name = o.content.report_name;
    report_filters = o.content.report_filters;
    recipient = recipient;
    recipient_masked = masked copy_of recipient;
    message_template = o.content.message_template;
    message_text = o.message;
    print_format = o.content.print_format;
    pdf_file = none;
    pdf_sha256 = none;
    source_modified = o.content.source_modified;
    queued_at = some now;
    attempted_at = none;
    submitted_at = none;
    acknowledged_at = none;
    next_retry_at = none;
    retry_count = pos 0;
    max_retries = retries_of settings;
    idempotency_key = concat "wa:" (concat F.site (concat ":" hash));
    provider_message_ids = none;
    result_message = none;
    error_message = none;
  }

  abbrev pub build_row : Option String → String → Order → Settings → Action (World F) Delivery
  build_row copy_of recipient o settings w = (
    ok (
        new_row copy_of recipient o settings w.user (F.clock w.tick) (F.generate_hash (suc w.tick))
          (F.new_name w.table)),
    record w { tick = suc (suc w.tick) },
  )

  -- An insert that Frappe may refuse for reasons of its own.
  unfoldable pub may_refuse : Action (World F) (Unit {0})
  may_refuse w = elim (F.insert_error w.tick) [
    | none ↦ (ok tt, record w { tick = suc w.tick })
    | some e ↦ (err e, record w { tick = suc w.tick })
  ]

  -- `.insert(ignore_permissions=True)` of a delivery: there is no row before it.
  unfoldable pub insert_row : Delivery → Action (World F) (Unit {0})
  unfolding validate
  insert_row d = do
    lift (validate none d)
    may_refuse
    λ w. (ok tt, record w { table = F.put w.table d })

  abbrev pub file_for : String → Order → StoredFile
  file_for name o = record {
    file_name = o.filename;
    attached_to_doctype = some history_doctype;
    attached_to_name = some name;
    is_private = true;
    content = o.pdf;
  }

  -- `save_file(filename, pdf, HISTORY_DOCTYPE, history.name, is_private=1)`.
  unfoldable pub save_file : StoredFile → Action (World F) String
  save_file f = do
    may_refuse
    λ w. (let (files, name) = F.add_file w.files f in (ok name, record w { files = files }))

  abbrev pub group_for : Option String → Settings → Option String → String → Result (Option String)
  group_for none settings company user = configured_group F user settings company
  group_for (some primary) settings company user = ok none

  abbrev pub job_for : String → Job
  job_for name = record {
    message_name = name;
    job_id = concat "whatsapp:" name;
    deduplicate = false;
  }

  -- Only a primary is queued at once; its copies wait for it.
  abbrev pub jobs_after : Option String → String → List Job → List Job
  jobs_after none name jobs = jobs ++ job_for name ∷ []
  jobs_after (some primary) name jobs = jobs

  abbrev pub with_job : Option String → String → World F → World F
  with_job copy_of name w = record w { jobs = jobs_after copy_of name w.jobs }

  abbrev pub enqueue_primary : Option String → String → Action (World F) (Unit {0})
  enqueue_primary copy_of name w = (ok tt, with_job copy_of name w)

  -- The row, its file and its job.
  unfoldable pub write_row : Option String → String → Order → Settings → Action (World F) Stored
  write_row copy_of recipient o settings = do
    d ← build_row copy_of recipient o settings
    insert_row d
    file ← save_file (file_for d.name o)
    set_value F d.name (with_pdf file (F.sha256_bytes o.pdf))
    enqueue_primary copy_of d.name
    pure (record { name = d.name; status = d.status })

  -- The result has the group that a copy goes to.
  unfoldable pub store_row :
      Option String → String → Order → Action (World F) (Stored × Option String)
  store_row copy_of recipient o = do
    settings ← λ w. (enabled_settings w.settings, w)
    copy_group ← λ w. (group_for copy_of settings o.company w.user, w)
    stored ← write_row copy_of recipient o settings
    pure (stored, copy_group)

  -- The copy is stored as the primary was, with the name of the primary.
  unfoldable pub store_copy : Order → Stored × Option String → Action (World F) Answer
  store_copy o (stored, none) = pure (record { stored = stored; group_copy = none })
  store_copy o (stored, some recipient) = do
    copy ← store_row (some stored.name) recipient o
    pure (record { stored = stored; group_copy = some copy.0 })

  unfoldable pub store_delivery : String → Order → Action (World F) Answer
  store_delivery recipient o = do primary ← store_row none recipient o; store_copy o primary
