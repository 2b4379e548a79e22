-- ===== src/Outbound/Scheduler.antt =====
-- The jobs that run each minute: `retry_due_messages`, `sync_delivery_statuses` and
-- `scheduled_maintenance` of erpnext_whatsapp_connection/outbound.py.
use erpnext_whatsapp_connect.Base.{
  ℕ, String, Bool, false, not, ◌&&◌, Option, none, some, List, [], ◌∷◌, ℤ, pos, ◌+ℤ◌, max_ℤ, leb_ℤ,
  leb, str_eq, if◌then◌else◌,
}
use erpnext_whatsapp_connect.Py.Result.{
  validation, permission, gateway, crash, Result, ok, err, or_error,
}
use erpnext_whatsapp_connect.Py.Action.{Action, pure, lift, gets, for_each, continue, ◌>>=◌, ◌>>◌}
use erpnext_whatsapp_connect.Py.Value.{
  Value, null, int, str, list, dict, nil, bool, Fields, field, end, get, truthy, or_else, as_dict,
  as_list, as_str,
}
use erpnext_whatsapp_connect.Py.Text.{concat}
use erpnext_whatsapp_connect.Site.Records.{
  Delivery, Settings, Status, queued, failed, parse_status, other, Job, is_group,
}
use erpnext_whatsapp_connect.Site.Frappe.{Frappe}
use erpnext_whatsapp_connect.Site.World.{World, now_datetime, update_row, set_value, enqueue}
use erpnext_whatsapp_connect.History.{is_terminal}
use erpnext_whatsapp_connect.Settings.{save_settings}
use erpnext_whatsapp_connect.Gateway.{gateway_request, site_payload, get_of}
use erpnext_whatsapp_connect.Datetime.{provider_datetime}
use erpnext_whatsapp_connect.Source.Document.{distinct_from}
use erpnext_whatsapp_connect.Groups.Copy.{is_releasable, release_waiting_copies}
use erpnext_whatsapp_connect.Outbound.Worker.{is_failed, attempt_limit}

-- The filter of the first query, and of the second at a moment.
abbrev pub is_unreleased : Delivery → Bool
is_unreleased d = is_group d.recipient_type && is_releasable d.status

abbrev pub not_after : Option ℕ → ℕ → Bool
not_after none now = false
not_after (some t) now = leb t now

abbrev pub is_due : ℕ → Delivery → Bool
is_due now d = is_failed d.status && not_after d.next_retry_at now && not d.reconciliation_required

abbrev pub give_up : Delivery → Delivery
give_up d = record d { next_retry_at = none; result_message = some "Automatic retry limit reached" }

abbrev pub claim : Delivery → Delivery
claim d = record d { status = queued; next_retry_at = none }

abbrev pub reopen : ℕ → Delivery → Delivery
reopen now d = record d { status = failed; next_retry_at = some now }

module _ (F : Frappe) where
  -- The rows that a query selected, as they are stored.
  abbrev pub rows_of : List String → F.Table → List Delivery
  rows_of [] t = []
  rows_of (n ∷ ns) t = elim (F.find t n) [ none ↦ rows_of ns t | some d ↦ d ∷ rows_of ns t ]

  abbrev pub parents_of : List Delivery → List String
  parents_of [] = []
  parents_of (d ∷ ds) = elim d.copy_of [ none ↦ parents_of ds | some p ↦ p ∷ parents_of ds ]

  abbrev pub row_is_terminal : String → F.Table → Bool
  row_is_terminal n t = elim (F.find t n) [ none ↦ false | some d ↦ is_terminal d.status ]

  unfoldable pub release_parent : String → Action (World F) (Unit {0})
  release_parent parent w =
      if row_is_terminal parent w.table then release_waiting_copies F parent w else (ok tt, w)

  abbrev pub retry_job : Delivery → Job
  retry_job row = record {
    message_name = row.name;
    job_id =
        concat "whatsapp-retry:"
          (concat row.name (concat ":" (F.int_text (row.retry_count +ℤ pos 1))));
    deduplicate = false;
  }

  -- `try: frappe.enqueue(...)`, with the handler that makes the row due again and raises.
  abbrev pub or_reopen : String → Result (Unit {0}) × World F → Result (Unit {0}) × World F
  or_reopen name (ok _, w) = (ok tt, w)
  or_reopen name (err e, w) =
      continue (λ now w'. (err e, record w' { table = update_row F name (reopen now) w'.table }))
        (now_datetime F w)

  -- One round of the loop over the due rows.
  unfoldable pub retry_row : Delivery → Action (World F) (Unit {0})
  retry_row row w =
      if leb_ℤ (attempt_limit row) row.retry_count
      then set_value F row.name give_up w
      else or_reopen row.name
          (enqueue F (retry_job row) (record w { table = update_row F row.name claim w.table }))

  unfoldable pub retry_due_messages : Action (World F) (Unit {0})
  unfolding release_parent retry_row
  retry_due_messages = do
    held ← gets (λ w. parents_of (rows_of (F.matching is_unreleased (some 50) w.table) w.table))
    for_each (distinct_from [] held) release_parent
    now ← now_datetime F
    due ← gets (λ w. rows_of (F.matching (is_due now) (some 50) w.table) w.table)
    for_each due retry_row

  -- The status that an event names, and a text for a column.
  abbrev status_of : Value → Status
  status_of null = other ""
  status_of (str s) = parse_status s
  status_of (bool b) = parse_status (F.text_of (bool b))
  status_of (int n) = parse_status (F.text_of (int n))
  status_of (list vs) = parse_status (F.text_of (list vs))
  status_of (dict fs) = parse_status (F.text_of (dict fs))

  abbrev column_text : Value → Option String
  column_text null = none
  column_text v = some (F.text_of v)

  abbrev pub has_key : Value → Delivery → Bool
  has_key key d = elim (as_str key) [ none ↦ false | some k ↦ str_eq d.idempotency_key k ]

  abbrev pub is_acknowledgement : Value → Bool
  is_acknowledgement v = elim (as_str v) [
    | none ↦ false
    | some s ↦ str_eq s "Acknowledged by WhatsApp"
  ]

  abbrev pub apply_event : Fields → Option ℕ → Delivery → Delivery
  apply_event event at d = record d {
    status = status_of (get event "status");
    result_message = column_text (or_else (get event "message") (get event "status"));
    acknowledged_at = if is_acknowledgement (get event "status") then at else d.acknowledged_at;
  }

  -- The moment of an acknowledgement; other events have none.
  unfoldable pub event_moment : Fields → Result (Option ℕ)
  event_moment event =
      if is_acknowledgement (get event "status")
      then provider_datetime F (get event "created_at")
      else ok none

  -- The row of an event is looked up by its key and written; an unknown key changes nothing.
  unfoldable pub record_event : Fields → Action (World F) (Unit {0})
  unfolding event_moment
  record_event event w =
      elim (F.matching (has_key (get event "idempotency_key")) (some 1) w.table) [
        | [] ↦ (ok tt, w)
        | name ∷ _ ↦ elim (event_moment event) [
          | err e ↦ (err e, w)
          | ok at ↦ set_value F name (apply_event event at) w
        ]
      ]

  -- The loop over the events, with the last identity that was seen.
  unfoldable pub record_events : List Value → ℤ → Action (World F) ℤ
  unfolding record_event
  record_events [] last w = (ok last, w)
  record_events (v ∷ vs) last w = elim (as_dict v) [
    | none ↦ (err (crash "object has no attribute 'get'"), w)
    | some event ↦
        continue (λ _. record_events vs (max_ℤ last (F.cint (get event "id"))))
          (record_event event w)
  ]

  abbrev pub events_of : Value → Result (List Value)
  events_of v = or_error (crash "object is not iterable") (as_list (or_else v (list nil)))

  -- The body of `sync_delivery_statuses` after the gateway has answered.
  unfoldable pub apply_events : Settings → Value → Action (World F) (Unit {0})
  unfolding record_events
  apply_events settings result = do
    found ← lift (get_of result "events")
    events ← lift (events_of found)
    last ← record_events events settings.last_event_id
    if truthy found then save_settings F (record settings { last_event_id = last }) else pure tt

  -- `except WhatsAppGatewayError: return`.
  abbrev pub on_reply : Settings → Result Value × World F → Result (Unit {0}) × World F
  on_reply settings (ok result, w) = apply_events settings result w
  on_reply settings (err (gateway m r), w) = (ok tt, w)
  on_reply settings (err (validation m), w) = (err (validation m), w)
  on_reply settings (err (permission m), w) = (err (permission m), w)
  on_reply settings (err (crash m), w) = (err (crash m), w)

  unfoldable pub sync_delivery_statuses : Action (World F) (Unit {0})
  sync_delivery_statuses w = on_reply w.settings (
      gateway_request F "/v1/events"
        (site_payload F (field "after_id" (int w.settings.last_event_id) end)) w)

  unfoldable pub scheduled_maintenance : Action (World F) (Unit {0})
  scheduled_maintenance = do retry_due_messages; sync_delivery_statuses
