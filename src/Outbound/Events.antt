-- ===== src/Outbound/Events.antt =====
-- The synchronization with the gateway's events (erpnext_whatsapp_connection/outbound.py).
use erpnext_whatsapp_connect.Base.{
  if◌then◌else◌, true, false, Option, some, List, [], ◌∷◌, ◌≡◌, refl, sym, ap, ◌∙◌, subst, arith,
  ◌⊎◌, inl, inr, Bool-cases, Option-cases, ℤ, max_ℤ, ◌≤ℤ◌, le-max_left, String,
}
use erpnext_whatsapp_connect.Py.Result.{
  Result, ok, err, Result-cases, err-ne-ok, ok-injective, gateway, validation, permission, crash,
}
use erpnext_whatsapp_connect.Py.Action.{continue, continue-ok, pure}
use erpnext_whatsapp_connect.Py.Value.{Value, Fields, int, field, end, get, as_dict, truthy}
use erpnext_whatsapp_connect.Site.Records.{Settings}
use erpnext_whatsapp_connect.Site.Frappe.{Frappe}
use erpnext_whatsapp_connect.Site.World.{World}
use erpnext_whatsapp_connect.Gateway.{gateway_request, site_payload, get_of}
use erpnext_whatsapp_connect.Groups.Config.{joined_groups}
use erpnext_whatsapp_connect.Groups.Rules.{validate_settings, check_settings, any_enabled}
use erpnext_whatsapp_connect.Groups.Renamed.{validate_settings-IsRenamed}
use erpnext_whatsapp_connect.Settings.{validate, clamped, is_supported, save_settings, stored}
use erpnext_whatsapp_connect.Outbound.Frame.{gateway_request-OnlySends}
use erpnext_whatsapp_connect.Outbound.Scheduler.{
  record_event, event_moment, has_key, record_events, events_of, apply_events, on_reply,
  sync_delivery_statuses,
}

≤ℤ_trans : (a b c : ℤ) → a ≤ℤ b → b ≤ℤ c → a ≤ℤ c
≤ℤ_trans a b c h k = omega arith

≤ℤ_refl : (a : ℤ) → a ≤ℤ a
≤ℤ_refl a = omega arith

pub List-cases :
    (ns : List String) → (ns ≡ []) ⊎ ((n : String) × (rest : List String) × (ns ≡ n ∷ rest))
List-cases [] = inl refl
List-cases (n ∷ ns) = inr (n, ns, refl)

module _ (F : Frappe) where
  continue-settings :
      {A B : Type 0} (f : A → World F → Result B × World F) (r : Result A × World F)
      → ((a : A) (v : World F) → (f a v).1.settings ≡ v.settings)
      → (continue f r).1.settings ≡ r.1.settings
  continue-settings f (ok a, w) h = h a w
  continue-settings f (err e, w) h = refl

  record_event-settings : (e : Fields) (w : World F) → (record_event F e w).1.settings ≡ w.settings
  unfolding record_event
  record_event-settings e w =
      elim (List-cases (F.matching (has_key F (get e "idempotency_key")) (some 1) w.table)) [
        | inl none_found ↦ rw (none_found, record_event)
        | inr (n, rest, found) ↦ elim (Result-cases (event_moment F e)) [
          | inl (at, k) ↦ rw (found, k, record_event)
          | inr (x, k) ↦ rw (found, k, record_event)
        ]
      ]

  record_events-settings :
      (vs : List Value) (last : ℤ) (w : World F)
      → (record_events F vs last w).1.settings ≡ w.settings
  unfolding record_events
  record_events-settings [] last w = refl
  record_events-settings (v ∷ vs) last w = elim (Option-cases (as_dict v)) [
    | inl e ↦ rw (e, record_events)
    | inr (event, e) ↦
        let next = max_ℤ last (F.cint (get event "id")) in
        rw (e, record_events)
          (continue-settings (λ _. record_events F vs next) (record_event F event w)
              (λ _ u. record_events-settings vs next u)
            ∙ record_event-settings event w)
  ]

  record_events-last :
      (vs : List Value) (last m : ℤ) (w : World F)
      → (record_events F vs last w).0 ≡ ok m
      → last ≤ℤ m
  unfolding record_events
  record_events-last [] last m w h = subst (λ k. last ≤ℤ k) (ok-injective last m h) (≤ℤ_refl last)
  record_events-last (v ∷ vs) last m w h = elim (Option-cases (as_dict v)) [
    | inl e ↦ absurd (err-ne-ok _ m (rw (e, record_events) at h))
    | inr (event, e) ↦
        let next = max_ℤ last (F.cint (get event "id")) in
        let (_, u, rest) =
          continue-ok (λ _. record_events F vs next) (record_event F event w) m
            (rw (e, record_events) at h) in
        ≤ℤ_trans last next m (le-max_left last (F.cint (get event "id")))
          (record_events-last vs next m u rest)
  ]

  -- A save keeps the identity that it is given, or changes nothing.
  joined_groups-settings : (w : World F) → (joined_groups F w).1.settings ≡ w.settings
  unfolding joined_groups
  joined_groups-settings w =
      (gateway_request-OnlySends F "/v1/groups" (site_payload F end) w).settings

  validate_settings-settings :
      (before : Option Settings) (s : Settings) (w : World F)
      → (validate_settings F before s w).1.settings ≡ w.settings
  unfolding validate_settings
  validate_settings-settings before s w = elim (Result-cases (check_settings F w.user before s)) [
    | inr (x, e) ↦ rw (e, validate_settings)
    | inl (false, e) ↦ rw (e, validate_settings)
    | inl (true, e) ↦ elim (Bool-cases (any_enabled s.company_groups)) [
      | inl on ↦ rw (e, on, validate_settings) (joined_groups-settings w)
      | inr off ↦ rw (e, off, validate_settings)
    ]
  ]

  -- What a save leaves in the field `last_event_id`.
  abbrev Keeps : ℤ → Settings → Settings → Type 0
  Keeps last old new = (new ≡ old) ⊎ (new.last_event_id ≡ last)

  stored-Keeps :
      (last : ℤ) (old : Settings) (r : Result Settings × World F)
      → r.1.settings ≡ old
      → ((t : Settings) → r.0 ≡ ok t → t.last_event_id ≡ last)
      → Keeps last old (stored F r).1.settings
  stored-Keeps last old (ok t, w) e h = inr (h t refl)
  stored-Keeps last old (err x, w) e h = inl e

  save_settings-Keeps :
      (s : Settings) (w : World F)
      → Keeps s.last_event_id w.settings (save_settings F s w).1.settings
  unfolding save_settings validate
  save_settings-Keeps s w = elim (Bool-cases (is_supported s.provider)) [
    | inr e ↦ rw (e, save_settings, validate) (inl refl)
    | inl e ↦
        rw (e, save_settings, validate)
          (stored-Keeps s.last_event_id w.settings
            (validate_settings F (some w.settings) (clamped s) w)
            (validate_settings-settings (some w.settings) (clamped s) w)
            (λ t h.
              ap (λ x. x.last_event_id)
                (validate_settings-IsRenamed F (some w.settings) (clamped s) t w h).1.rest))
  ]

  Keeps-le :
      (last m : ℤ) (old new : Settings)
      → Keeps m old new
      → old.last_event_id ≡ last
      → last ≤ℤ m
      → last ≤ℤ new.last_event_id
  Keeps-le last m old new (inl e) same h =
      subst (λ k. last ≤ℤ k) (sym same ∙ ap (λ x. x.last_event_id) (sym e)) (≤ℤ_refl last)
  Keeps-le last m old new (inr e) same h = subst (λ k. last ≤ℤ k) (sym e) h

  -- The end of the synchronization, after the loop.
  abbrev finish : Settings → Value → ℤ → World F → Result (Unit {0}) × World F
  finish s found last w =
      (if truthy found then save_settings F (record s { last_event_id = last }) else pure tt) w

  finish-last :
      (s : Settings) (found : Value) (r : Result ℤ × World F)
      → r.1.settings ≡ s
      → ((m : ℤ) → r.0 ≡ ok m → s.last_event_id ≤ℤ m)
      → s.last_event_id ≤ℤ (continue (finish s found) r).1.settings.last_event_id
  finish-last s found (err x, w) e h =
      subst (λ t. s.last_event_id ≤ℤ t.last_event_id) (sym e) (≤ℤ_refl s.last_event_id)
  finish-last s found (ok m, w) e h = elim (Bool-cases (truthy found)) [
    | inl yes_found ↦ rw yes_found (
        Keeps-le s.last_event_id m w.settings _
          (save_settings-Keeps (record s { last_event_id = m }) w) (ap (λ x. x.last_event_id) e)
          (h m refl))
    | inr none_found ↦
        rw none_found
          (subst (λ t. s.last_event_id ≤ℤ t.last_event_id) (sym e) (≤ℤ_refl s.last_event_id))
  ]

  apply_events-last :
      (result : Value) (w : World F)
      → w.settings.last_event_id ≤ℤ (apply_events F w.settings result w).1.settings.last_event_id
  unfolding apply_events
  apply_events-last result w = elim (Result-cases (get_of result "events")) [
    | inr (x, e) ↦ rw (e, apply_events) (≤ℤ_refl w.settings.last_event_id)
    | inl (found, e) ↦ elim (Result-cases (events_of F found)) [
      | inr (x, f) ↦ rw (e, f, apply_events) (≤ℤ_refl w.settings.last_event_id)
      | inl (vs, f) ↦
          rw (e, f, apply_events)
            (finish-last w.settings found (record_events F vs w.settings.last_event_id w)
              (record_events-settings vs w.settings.last_event_id w)
              (λ m. record_events-last vs w.settings.last_event_id m w))
    ]
  ]

  on_reply-last :
      (s : Settings) (r : Result Value × World F)
      → r.1.settings ≡ s
      → s.last_event_id ≤ℤ (on_reply F s r).1.settings.last_event_id
  on_reply-last s (ok result, w) e =
      subst (λ t. t.last_event_id ≤ℤ (apply_events F t result w).1.settings.last_event_id) e
        (apply_events-last result w)
  on_reply-last s (err (gateway m r), w) e =
      subst (λ t. s.last_event_id ≤ℤ t.last_event_id) (sym e) (≤ℤ_refl s.last_event_id)
  on_reply-last s (err (validation m), w) e =
      subst (λ t. s.last_event_id ≤ℤ t.last_event_id) (sym e) (≤ℤ_refl s.last_event_id)
  on_reply-last s (err (permission m), w) e =
      subst (λ t. s.last_event_id ≤ℤ t.last_event_id) (sym e) (≤ℤ_refl s.last_event_id)
  on_reply-last s (err (crash m), w) e =
      subst (λ t. s.last_event_id ≤ℤ t.last_event_id) (sym e) (≤ℤ_refl s.last_event_id)

  -- A synchronization never moves back in the gateway's events: the identity that the settings keep
  -- is afterwards the one before or a later one, also where the gateway fails, an event is malformed
  -- or the save is refused.
  pub sync_delivery_statuses-last_event_id :
      (w : World F)
      → w.settings.last_event_id ≤ℤ (sync_delivery_statuses F w).1.settings.last_event_id
  unfolding sync_delivery_statuses
  sync_delivery_statuses-last_event_id w =
      let payload = site_payload F (field "after_id" (int w.settings.last_event_id) end) in
      on_reply-last w.settings (gateway_request F "/v1/events" payload w)
        (gateway_request-OnlySends F "/v1/events" payload w).settings
