-- ===== src/Outbound/Kept.antt =====
-- The job that runs each minute leaves the budgets of deliveries alone
-- (erpnext_whatsapp_connection/outbound.py).
use erpnext_whatsapp_connect.Base.{
  if◌then◌else◌, suc, String, Option, some, none, List, [], ◌∷◌, ◌≡◌, refl, ◌∙◌, inl, inr,
  Bool-cases, Option-cases, true, false, leb_ℤ, ℤ, max_ℤ,
}
use erpnext_whatsapp_connect.Py.Action.{pure, for_each}
use erpnext_whatsapp_connect.Py.Result.{
  Result, ok, err, gateway, validation, permission, crash, Result-cases,
}
use erpnext_whatsapp_connect.Py.Value.{Value, Fields, as_dict, get, truthy, int, field, end}
use erpnext_whatsapp_connect.Site.Records.{Delivery, Job, Settings}
use erpnext_whatsapp_connect.Site.Frappe.{Frappe, IsLawful}
use erpnext_whatsapp_connect.Site.World.{World, update_row, enqueue}
use erpnext_whatsapp_connect.Settings.{validate, save_settings, stored, clamped, is_supported}
use erpnext_whatsapp_connect.Groups.Config.{joined_groups}
use erpnext_whatsapp_connect.Groups.Rules.{validate_settings, check_settings, any_enabled}
use erpnext_whatsapp_connect.Gateway.{gateway_request, site_payload, get_of}
use erpnext_whatsapp_connect.Source.Document.{distinct_from}
use erpnext_whatsapp_connect.Outbound.Events.{List-cases}
use erpnext_whatsapp_connect.Groups.Copy.{
  is_waiting_copy, release_copy, release, release_waiting_copies,
}
use erpnext_whatsapp_connect.Groups.Release.{release_copy-frame}
use erpnext_whatsapp_connect.Outbound.Worker.{attempt_limit}
use erpnext_whatsapp_connect.Outbound.Frame.{gateway_request-OnlySends}
use erpnext_whatsapp_connect.Outbound.Scheduler.{
  is_due, is_unreleased, rows_of, parents_of, has_key, claim, reopen, give_up, row_is_terminal,
  release_parent, retry_job, or_reopen, retry_row, retry_due_messages, record_event, record_events,
  apply_events, apply_event, event_moment, events_of, on_reply, sync_delivery_statuses,
  scheduled_maintenance,
}
use erpnext_whatsapp_connect.Outbound.Budget.{
  SameBudget, KeepsBudget, KeepsBudget-table, KeepsBudget-trans, continue-KeepsBudget,
  for_each-KeepsBudget, update_row-KeepsBudget,
}

module _ (F : Frappe) (L : IsLawful F) where
  pub release_waiting_copies-KeepsBudget :
      (n parent : String) (w : World F) → KeepsBudget F n w (release_waiting_copies F parent w).1
  unfolding release_waiting_copies
  release_waiting_copies-KeepsBudget n parent w =
      for_each-KeepsBudget F n (F.matching (is_waiting_copy parent) none w.table) (release_copy F) w
        (λ name v.
          let released : World F = record v { table = update_row F name release v.table } in
          KeepsBudget-trans F n v released (release_copy F name v).1
            (update_row-KeepsBudget F L n name release v (λ d. (refl, (refl, refl, refl, refl))))
            (KeepsBudget-table F n released (release_copy F name v).1
              (release_copy-frame F name v).0))

  release_parent-KeepsBudget :
      (n parent : String) (w : World F) → KeepsBudget F n w (release_parent F parent w).1
  unfolding release_parent
  release_parent-KeepsBudget n parent w = elim (Bool-cases (row_is_terminal F parent w.table)) [
    | inl e ↦ rw e (release_waiting_copies-KeepsBudget n parent w)
    | inr e ↦ rw e (KeepsBudget-table F n w w refl)
  ]

  or_reopen-KeepsBudget :
      (n name : String) (r : Result (Unit {0}) × World F)
      → KeepsBudget F n r.1 (or_reopen F name r).1
  or_reopen-KeepsBudget n name (ok _, w) = KeepsBudget-table F n w w refl
  or_reopen-KeepsBudget n name (err e, w) =
      update_row-KeepsBudget F L n name (reopen (F.clock w.tick)) w
        (λ d. (refl, (refl, refl, refl, refl)))

  enqueue-table : (j : Job) (w : World F) → (enqueue F j w).1.table ≡ w.table
  unfolding enqueue
  enqueue-table j w = elim (Option-cases (F.enqueue_error w.tick j)) [
    | inl e ↦ rw (e, enqueue) refl
    | inr (x, e) ↦ rw (e, enqueue) refl
  ]

  retry_row-KeepsBudget :
      (n : String) (row : Delivery) (w : World F) → KeepsBudget F n w (retry_row F row w).1
  unfolding retry_row
  retry_row-KeepsBudget n row w = elim (Bool-cases (leb_ℤ (attempt_limit row) row.retry_count)) [
    | inl e ↦
        rw e
          (update_row-KeepsBudget F L n row.name give_up w (λ d. (refl, (refl, refl, refl, refl))))
    | inr e ↦
        let claimed : World F = record w { table = update_row F row.name claim w.table } in
        let r = enqueue F (retry_job F row) claimed in
        rw e (
          KeepsBudget-trans F n w claimed (or_reopen F row.name r).1
            (update_row-KeepsBudget F L n row.name claim w (λ d. (refl, (refl, refl, refl, refl))))
            (KeepsBudget-trans F n claimed r.1 (or_reopen F row.name r).1
              (KeepsBudget-table F n claimed r.1 (enqueue-table (retry_job F row) claimed))
              (or_reopen-KeepsBudget n row.name r)))
  ]

  retry_due_messages-KeepsBudget :
      (n : String) (w : World F) → KeepsBudget F n w (retry_due_messages F w).1
  unfolding retry_due_messages
  retry_due_messages-KeepsBudget n w =
      let held =
        distinct_from []
          (parents_of F (rows_of F (F.matching is_unreleased (some 50) w.table) w.table)) in
      continue-KeepsBudget F n _ (for_each held (release_parent F) w) w
        (for_each-KeepsBudget F n held (release_parent F) w (release_parent-KeepsBudget n))
        (λ _ v.
          for_each-KeepsBudget F n
            (rows_of F (F.matching (is_due (F.clock v.tick)) (some 50) v.table) v.table)
            (retry_row F) (record v { tick = suc v.tick }) (retry_row-KeepsBudget n))

  record_event-KeepsBudget :
      (n : String) (e : Fields) (w : World F) → KeepsBudget F n w (record_event F e w).1
  unfolding record_event
  record_event-KeepsBudget n e w =
      elim (List-cases (F.matching (has_key F (get e "idempotency_key")) (some 1) w.table)) [
        | inl none_found ↦ rw (none_found, record_event) (KeepsBudget-table F n w w refl)
        | inr (m, rest, found) ↦ elim (Result-cases (event_moment F e)) [
          | inl (at, k) ↦
              rw (found, k, record_event)
                (update_row-KeepsBudget F L n m (apply_event F e at) w
                  (λ d. (refl, (refl, refl, refl, refl))))
          | inr (x, k) ↦ rw (found, k, record_event) (KeepsBudget-table F n w w refl)
        ]
      ]

  record_events-KeepsBudget :
      (n : String) (vs : List Value) (last : ℤ) (w : World F)
      → KeepsBudget F n w (record_events F vs last w).1
  unfolding record_events
  record_events-KeepsBudget n [] last w = KeepsBudget-table F n w w refl
  record_events-KeepsBudget n (v ∷ vs) last w = elim (Option-cases (as_dict v)) [
    | inl e ↦ rw (e, record_events) (KeepsBudget-table F n w w refl)
    | inr (event, e) ↦
        let next = max_ℤ last (F.cint (get event "id")) in
        rw (e, record_events)
          (continue-KeepsBudget F n (λ _. record_events F vs next) (record_event F event w) w
            (record_event-KeepsBudget n event w) (λ _ u. record_events-KeepsBudget n vs next u))
  ]

  -- A save of the settings writes no delivery.
  joined_groups-table : (w : World F) → (joined_groups F w).1.table ≡ w.table
  unfolding joined_groups
  joined_groups-table w = (gateway_request-OnlySends F "/v1/groups" (site_payload F end) w).table

  validate_settings-table :
      (before : Option Settings) (s : Settings) (w : World F)
      → (validate_settings F before s w).1.table ≡ w.table
  unfolding validate_settings
  validate_settings-table before s w = elim (Result-cases (check_settings F w.user before s)) [
    | inr (x, e) ↦ rw (e, validate_settings)
    | inl (false, e) ↦ rw (e, validate_settings)
    | inl (true, e) ↦ elim (Bool-cases (any_enabled s.company_groups)) [
      | inl on ↦ rw (e, on, validate_settings) (joined_groups-table w)
      | inr off ↦ rw (e, off, validate_settings)
    ]
  ]

  stored-table : (r : Result Settings × World F) → (stored F r).1.table ≡ r.1.table
  stored-table (ok s, w) = refl
  stored-table (err e, w) = refl

  save_settings-table : (s : Settings) (w : World F) → (save_settings F s w).1.table ≡ w.table
  unfolding save_settings validate
  save_settings-table s w = elim (Bool-cases (is_supported s.provider)) [
    | inr e ↦ rw (e, save_settings, validate)
    | inl e ↦
        rw (e, save_settings, validate)
          (stored-table (validate_settings F (some w.settings) (clamped s) w)
            ∙ validate_settings-table (some w.settings) (clamped s) w)
  ]

  finish-KeepsBudget :
      (n : String) (s : Settings) (found : Value) (last : ℤ) (w : World F)
      → KeepsBudget F n w
          ((if truthy found then save_settings F (record s { last_event_id = last }) else pure tt)
            w).1
  finish-KeepsBudget n s found last w = elim (Bool-cases (truthy found)) [
    | inl e ↦ rw e (
        KeepsBudget-table F n w (save_settings F (record s { last_event_id = last }) w).1
          (save_settings-table (record s { last_event_id = last }) w))
    | inr e ↦ rw e (KeepsBudget-table F n w w refl)
  ]

  apply_events-KeepsBudget :
      (n : String) (s : Settings) (result : Value) (w : World F)
      → KeepsBudget F n w (apply_events F s result w).1
  unfolding apply_events
  apply_events-KeepsBudget n s result w =
      continue-KeepsBudget F n _ (get_of result "events", w) w (KeepsBudget-table F n w w refl)
        (λ found v.
          continue-KeepsBudget F n _ (events_of F found, v) v (KeepsBudget-table F n v v refl)
            (λ events u.
              continue-KeepsBudget F n _ (record_events F events s.last_event_id u) u
                (record_events-KeepsBudget n events s.last_event_id u)
                (λ last x. finish-KeepsBudget n s found last x)))

  on_reply-KeepsBudget :
      (n : String) (s : Settings) (r : Result Value × World F)
      → KeepsBudget F n r.1 (on_reply F s r).1
  on_reply-KeepsBudget n s (ok result, w) = apply_events-KeepsBudget n s result w
  on_reply-KeepsBudget n s (err (gateway m r), w) = KeepsBudget-table F n w w refl
  on_reply-KeepsBudget n s (err (validation m), w) = KeepsBudget-table F n w w refl
  on_reply-KeepsBudget n s (err (permission m), w) = KeepsBudget-table F n w w refl
  on_reply-KeepsBudget n s (err (crash m), w) = KeepsBudget-table F n w w refl

  sync_delivery_statuses-KeepsBudget :
      (n : String) (w : World F) → KeepsBudget F n w (sync_delivery_statuses F w).1
  unfolding sync_delivery_statuses
  sync_delivery_statuses-KeepsBudget n w =
      let payload = site_payload F (field "after_id" (int w.settings.last_event_id) end) in
      let r = gateway_request F "/v1/events" payload w in
      KeepsBudget-trans F n w r.1 (on_reply F w.settings r).1
        (KeepsBudget-table F n w r.1 (gateway_request-OnlySends F "/v1/events" payload w).table)
        (on_reply-KeepsBudget n w.settings r)

  -- The job that runs each minute changes neither how many attempts a stored delivery has made nor
  -- how many it may make, whatever it queues again, gives up or reads from the gateway, and also where
  -- it raises half-way.
  pub scheduled_maintenance-SameBudget :
      (n : String) (w : World F) (d : Delivery)
      → F.find w.table n ≡ some d
      → (d' : Delivery) × (F.find (scheduled_maintenance F w).1.table n ≡ some d') × SameBudget d d'
  unfolding scheduled_maintenance
  scheduled_maintenance-SameBudget n w =
      continue-KeepsBudget F n _ (retry_due_messages F w) w (retry_due_messages-KeepsBudget n w)
        (λ _ v. sync_delivery_statuses-KeepsBudget n v)
