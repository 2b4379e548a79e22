-- ===== src/Tests/Examples.antt =====
-- The theorems at concrete inputs: a primary delivery, its group copy, and a site that stores them.
use erpnext_whatsapp_connect.Base.{
  ℕ, true, none, some, List, [], ◌∷◌, ◌++◌, ◌≡◌, refl, pos, ◌≤ℤ◌, max_ℤ, ◌+ℤ◌, ◌≤◌, ◌*◌, All, ◌↔◌,
  ◌⊎◌,
}
use erpnext_whatsapp_connect.Py.Result.{ok}
use erpnext_whatsapp_connect.Site.Records.{Template, Delivery, Settings, GroupRow, failed, document}
use erpnext_whatsapp_connect.Site.World.{World, Event}
use erpnext_whatsapp_connect.Py.Unicode.{is_decimal}
use erpnext_whatsapp_connect.Py.Value.{Value, dict, list, int, field, end, cons, nil}
use erpnext_whatsapp_connect.Py.Equality.{value_eq}
use erpnext_whatsapp_connect.Adapters.{document_adapter}
use erpnext_whatsapp_connect.Source.Document.{
  distinct_from, validate_document, validate_print_format,
}
use erpnext_whatsapp_connect.Number.{normalize_number, remove_separators}
use erpnext_whatsapp_connect.Number.Normal.{normalize_number_iff, IsNumber}
use erpnext_whatsapp_connect.History.{save, validate, check_immutable, differs, immutable_fields}
use erpnext_whatsapp_connect.History.Immutable.{save-immutable}
use erpnext_whatsapp_connect.Transport.{throttle_ms}
use erpnext_whatsapp_connect.Permissions.{
  require_sender, selects, outbound_message_query_conditions, outbound_message_has_permission,
}
use erpnext_whatsapp_connect.Permissions.Visible.{outbound_message_visibility}
use erpnext_whatsapp_connect.Recipients.{customer_numbers, entry_of}
use erpnext_whatsapp_connect.Recipients.Distinct.{customer_numbers-IsDistinct, IsDistinct, IsNormal}
use erpnext_whatsapp_connect.Connection.{
  Credentials, get_status, connect, disconnect_and_remove_authentication, configure_official_api,
}
use erpnext_whatsapp_connect.Connection.Guard.{MayManage, IsRefused, connection_guarded}
use erpnext_whatsapp_connect.Settings.Sound.{IsSound, save_settings-IsSound}
use erpnext_whatsapp_connect.Settings.{save_settings, clamp_throttle}
use erpnext_whatsapp_connect.Settings.Bounds.{throttle_ms-clamp_throttle}
use erpnext_whatsapp_connect.Groups.Config.{configured_group, check_company}
use erpnext_whatsapp_connect.Groups.Identity.{group_id}
use erpnext_whatsapp_connect.Groups.Rules.{validate_settings, previous_state}
use erpnext_whatsapp_connect.Groups.Copy.{validate_copy, recheck}
use erpnext_whatsapp_connect.Groups.Checked.{
  IsChosen, IsChecked, configured_group-IsChosen, validate_copy-IsChecked,
}
use erpnext_whatsapp_connect.Groups.Release.{EndsOrQueue}
use erpnext_whatsapp_connect.Outbound.Worker.{attempt_limit, claimed, process_outbound_message}
use erpnext_whatsapp_connect.Outbound.Frame.{validate_copy-world}
use erpnext_whatsapp_connect.Outbound.Outcome.{SameRow}
use erpnext_whatsapp_connect.Outbound.Retry.{Verdict}
use erpnext_whatsapp_connect.Outbound.Total.{
  IsWellFormed, IsReady, process_outbound_message_attempts,
}
use erpnext_whatsapp_connect.Outbound.Sends.{process_outbound_message_sends}
use erpnext_whatsapp_connect.Outbound.Scheduler.{sync_delivery_statuses}
use erpnext_whatsapp_connect.Outbound.Events.{sync_delivery_statuses-last_event_id}
use erpnext_whatsapp_connect.Site.Frappe.{Frappe, response}
use erpnext_whatsapp_connect.Templates.{cleared, save_template}
use erpnext_whatsapp_connect.Templates.Unique.{IsUnique, save_template-IsUnique}
use erpnext_whatsapp_connect.Tests.Site.{site, site-IsLawful, find}
use erpnext_whatsapp_connect.Tests.Data.{acme_group, primary, copy, options, fresh, sent}

normal : normalize_number "+49 (151) 123-4567" ≡ ok "+491511234567"
unfolding normalize_number is_decimal
normal = refl

normalize_number_iff_example : (normalize_number "0049 151/1234567" ≡ ok "+491511234567") ↔ (
    IsNumber "491511234567"
    × ((remove_separators "0049 151/1234567" ≡ "491511234567")
        ⊎ (remove_separators "0049 151/1234567" ≡ "00491511234567")))
normalize_number_iff_example = normalize_number_iff "0049 151/1234567" "491511234567"

outbound_message_visibility_example :
    selects (outbound_message_query_conditions site (some "bob") "alice") primary
    ≡ outbound_message_has_permission site primary (some "bob") "alice"
outbound_message_visibility_example = outbound_message_visibility site primary (some "bob") "alice"

throttle_ms-clamp_throttle_example :
    (s : ℕ) × (clamp_throttle (some (pos 900)) ≡ pos s)
    × (10 ≤ s)
    × (s ≤ 300)
    × (throttle_ms (some (clamp_throttle (some (pos 900)))) ≡ pos (1000 * s))
throttle_ms-clamp_throttle_example = throttle_ms-clamp_throttle (some (pos 900))

abbrev resaved : Delivery
resaved = record copy { status = failed; retry_count = pos 1 }

resaved-saved : (save site resaved sent).0 ≡ ok tt
unfolding save validate check_immutable differs
resaved-saved = refl

save-immutable_example : All (λ f. f resaved ≡ f copy) immutable_fields
save-immutable_example = save-immutable site resaved copy sent refl refl resaved-saved

validate_copy-world_example : (validate_copy site copy options sent).1 ≡ sent
validate_copy-world_example = validate_copy-world site copy options sent

configured : configured_group site "alice" options (some "ACME") ≡ ok (some acme_group)
unfolding configured_group check_company group_id
configured = refl

configured_group-IsChosen_example :
    (r : GroupRow) × IsChosen site "alice" options (some "ACME") acme_group r
configured_group-IsChosen_example =
    configured_group-IsChosen site "alice" options (some "ACME") acme_group configured

checked : (validate_copy site copy options sent).0 ≡ ok true
unfolding validate_copy recheck require_sender configured_group check_company group_id
    validate_document document_adapter value_eq validate_print_format
checked = refl

validate_copy-IsChecked_example : (parent : Delivery) × IsChecked site copy options sent parent
validate_copy-IsChecked_example = validate_copy-IsChecked site copy options sent checked

primary-IsWellFormed : IsWellFormed primary 0
primary-IsWellFormed = record { document = refl; report = refl; attempts = refl }

primary-IsReady : IsReady site primary fresh
unfolding attempt_limit max_ℤ ◌+ℤ◌
primary-IsReady = record { open_status = refl; free = refl; attempts_left = refl; due = refl }

process_outbound_message_attempts_example :
    EndsOrQueue site (process_outbound_message site "WA-1" fresh).0
    × ((done : Delivery) × SameRow (claimed primary 100) done
        × Verdict site 0 done
        × (find (process_outbound_message site "WA-1" fresh).1.table "WA-1" ≡ some done))
process_outbound_message_attempts_example =
    process_outbound_message_attempts site site-IsLawful fresh "WA-1" primary 0 refl
      primary-IsWellFormed primary-IsReady

process_outbound_message_sends_example :
    let w' = (process_outbound_message site "WA-1" fresh).1 in
    (w'.log ≡ fresh.log)
    ⊎ ((e : Event) × (d : Delivery) × (w'.log ≡ fresh.log ++ e ∷ [])
        × (find fresh.table "WA-1" ≡ some d)
        × IsReady site d fresh)
process_outbound_message_sends_example = process_outbound_message_sends site fresh "WA-1"

numbers : customer_numbers site "alice" "CUST-1" ≡ ok (entry_of "+491511234567" "Customer" ∷ [])
unfolding customer_numbers distinct_from normalize_number is_decimal
numbers = refl

customer_numbers-IsDistinct_example :
    IsDistinct (entry_of "+491511234567" "Customer" ∷ [])
    × All IsNormal (entry_of "+491511234567" "Customer" ∷ [])
customer_numbers-IsDistinct_example =
    customer_numbers-IsDistinct site "alice" "CUST-1" (entry_of "+491511234567" "Customer" ∷ [])
      numbers

abbrev guest : World site
guest = record fresh { user = "Guest" }

abbrev secrets : Credentials
secrets = record {
  access_token = "token";
  phone_number_id = "1";
  business_account_id = "";
  api_version = "v26.0";
  app_secret = "secret";
  verify_token = "verify";
}

connection_guarded_example :
    MayManage site "Guest"
    ⊎ (IsRefused site guest (get_status site guest)
        × IsRefused site guest (connect site guest)
        × IsRefused site guest (disconnect_and_remove_authentication site guest)
        × IsRefused site guest (configure_official_api site secrets guest))
connection_guarded_example = connection_guarded site secrets guest

abbrev slow : Settings
slow = record options { throttle_seconds = some (pos 900) }

slow-saved : (save_settings site slow fresh).0 ≡ ok tt
unfolding save_settings validate_settings previous_state
slow-saved = refl

save_settings-IsSound_example : IsSound (save_settings site slow fresh).1.settings
save_settings-IsSound_example = save_settings-IsSound site slow fresh slow-saved

-- A gateway that tells of event 7, about no delivery of the site.
abbrev news : Value
news = dict (field "events" (list (cons (dict (field "id" (int (pos 7)) end)) nil)) end)

abbrev telling : Frappe
telling = record site { exchange = λ n r. response 200 (some news); cint = λ v. pos 7 }

abbrev listening : World telling
listening = record {
  table = primary ∷ [];
  files = [];
  templates = [];
  settings = options;
  user = "Administrator";
  jobs = [];
  log = [];
  tick = 0;
}

sync_delivery_statuses-last_event_id_example :
    pos 0 ≤ℤ (sync_delivery_statuses telling listening).1.settings.last_event_id
sync_delivery_statuses-last_event_id_example =
    sync_delivery_statuses-last_event_id telling listening

abbrev invoice_text : Template
invoice_text = record {
  name = "Default Sales Invoice";
  enabled = true;
  is_default = true;
  reference_type = document;
  document_type = some "Sales Invoice";
  report_name = none;
  company = none;
  message_template = "Dear {{ party_name }}";
}

-- The default of one company, with a target of the other type that the save clears.
abbrev acme_text : Template
acme_text = record invoice_text {
  name = "ACME";
  company = some "ACME";
  report_name = some "General Ledger";
}

abbrev templates : List Template
templates = cleared acme_text ∷ invoice_text ∷ []

acme_text-saved : save_template (invoice_text ∷ []) acme_text ≡ ok templates
unfolding save_template
acme_text-saved = refl

save_template-IsUnique_example : IsUnique templates
save_template-IsUnique_example =
    save_template-IsUnique (invoice_text ∷ []) templates acme_text (refl, tt) acme_text-saved
