-- ===== src/Outbound/Frame.antt =====
-- What the steps of the worker leave alone (erpnext_whatsapp_connection/outbound.py).
use erpnext_whatsapp_connect.Base.{
  String, Bool, true, false, List, [], ◌∷◌, ◌++◌, ◌≡◌, refl, ◌⊎◌, inl, inr, str_eq, not, ◌∙◌,
  Bool-cases, Option-cases,
}
use erpnext_whatsapp_connect.Py.Result.{Error, Result, ok, err, Result-cases}
use erpnext_whatsapp_connect.Py.Action.{continue, throw_if}
use erpnext_whatsapp_connect.Py.Value.{Value, Fields, find_key, as_str, get}
use erpnext_whatsapp_connect.Site.Records.{Delivery, Settings, Pdf, is_group}
use erpnext_whatsapp_connect.Site.Frappe.{Frappe}
use erpnext_whatsapp_connect.Site.World.{World, Event}
use erpnext_whatsapp_connect.Gateway.{gateway_request, secret}
use erpnext_whatsapp_connect.Transport.{
  send_via_bundled_gateway, call_sender, send_delivery, get_transport, bundled_sender,
}
use erpnext_whatsapp_connect.Groups.Copy.{
  recheck, validate_copy, check_owner, parent_of, check_parent, after_parent,
}
use erpnext_whatsapp_connect.Outbound.Worker.{
  check_group, read_pdf, deliver, settle, plan_retry, may_retry, retry_delay, refused, incomplete,
  disabled,
}

module _ (F : Frappe) where
  -- At most one event has been logged, and the clock may have moved; all else is as it was.
  pub record OnlySends (w w' : World F) : Type 0 where
    pub table : w'.table ≡ w.table
    pub files : w'.files ≡ w.files
    pub templates : w'.templates ≡ w.templates
    pub settings : w'.settings ≡ w.settings
    pub user : w'.user ≡ w.user
    pub jobs : w'.jobs ≡ w.jobs
    pub log : (w'.log ≡ w.log) ⊎ ((e : Event) × (w'.log ≡ w.log ++ e ∷ []))

  pub OnlySends-refl : (w : World F) → OnlySends w w
  OnlySends-refl w = record {
    table = refl;
    files = refl;
    templates = refl;
    settings = refl;
    user = refl;
    jobs = refl;
    log = inl refl;
  }

  pub gateway_request-OnlySends :
      (path : String) (payload : Fields) (w : World F)
      → OnlySends w (gateway_request F path payload w).1
  unfolding gateway_request
  gateway_request-OnlySends path payload w = elim (Result-cases (secret F)) [
    | inl (key, e) ↦
        rw (e, gateway_request)
          (record {
            table = refl;
            files = refl;
            templates = refl;
            settings = refl;
            user = refl;
            jobs = refl;
            log = inr (_, refl);
          })
    | inr (x, e) ↦
        rw (e, gateway_request)
          (record {
            table = refl;
            files = refl;
            templates = refl;
            settings = refl;
            user = refl;
            jobs = refl;
            log = inl refl;
          })
  ]

  recheck-world : (d : Delivery) (s : Settings) (w : World F) → (recheck F d s w).1 ≡ w
  unfolding recheck
  recheck-world d s w = elim (Result-cases (check_owner F d)) [
    | inl (_, e) ↦ rw (e, recheck)
    | inr (_, e) ↦ rw (e, recheck)
  ]

  after_parent-world :
      (r : Result Bool) (d : Delivery) (s : Settings) (w : World F) → (after_parent F r d s w).1 ≡ w
  unfolding after_parent
  after_parent-world (ok true) d s w = recheck-world d s w
  after_parent-world (ok false) d s w = refl
  after_parent-world (err e) d s w = refl

  -- The check of a copy reads the site and puts its user back: it changes nothing, whatever it says.
  pub validate_copy-world :
      (d : Delivery) (s : Settings) (w : World F) → (validate_copy F d s w).1 ≡ w
  unfolding validate_copy
  validate_copy-world d s w = elim (Option-cases (parent_of F d w)) [
    | inl e ↦ rw (e, validate_copy)
    | inr (p, e) ↦ rw (e, validate_copy) (after_parent-world (check_parent p d) d s w)
  ]

  -- A step that changes nothing, and then one that may send.
  quiet_then :
      {A B : Type 0} (f : A → World F → Result B × World F) (r : Result A × World F) (w : World F)
      → r.1 ≡ w
      → ((a : A) → OnlySends w (f a w).1)
      → OnlySends w (continue f r).1
  quiet_then f (ok a, w') w e h = rw e (h a)
  quiet_then f (err x, w') w e h = rw e (OnlySends-refl w)

  -- A step that may send, and then one that changes nothing.
  then_quiet :
      {A B : Type 0} (f : A → World F → Result B × World F) (r : Result A × World F) (w : World F)
      → OnlySends w r.1
      → ((a : A) (w' : World F) → (f a w').1 ≡ w')
      → OnlySends w (continue f r).1
  then_quiet f (ok a, w') w h q = rw (q a w') h
  then_quiet f (err x, w') w h q = h

  send_via_bundled_gateway-OnlySends :
      (d : Delivery) (s : Settings) (pdfs : List Pdf) (t : Fields) (w : World F)
      → OnlySends w (send_via_bundled_gateway F d s pdfs t w).1
  unfolding send_via_bundled_gateway
  send_via_bundled_gateway-OnlySends d s pdfs t w =
      elim (Option-cases (find_key t "gateway_provider")) [
        | inl e ↦ rw (e, send_via_bundled_gateway) (OnlySends-refl w)
        | inr (p, e) ↦ rw (e, send_via_bundled_gateway) (gateway_request-OnlySends "/v1/send" _ w)
      ]

  call_sender-OnlySends :
      (send : Value) (d : Delivery) (s : Settings) (pdfs : List Pdf) (t : Fields) (w : World F)
      → OnlySends w (call_sender F send d s pdfs t w).1
  unfolding call_sender
  call_sender-OnlySends send d s pdfs t w = elim (Option-cases (as_str send)) [
    | inl e ↦ rw (e, call_sender) (OnlySends-refl w)
    | inr (path, e) ↦
        rw (e, call_sender)
          (elim (Bool-cases (str_eq path bundled_sender)) [
            | inl b ↦ rw b (send_via_bundled_gateway-OnlySends d s pdfs t w)
            | inr b ↦ rw b (record {
              table = refl;
              files = refl;
              templates = refl;
              settings = refl;
              user = refl;
              jobs = refl;
              log = inr (_, refl);
            })
          ])
  ]

  send_delivery-OnlySends :
      (d : Delivery) (s : Settings) (pdfs : List Pdf) (w : World F)
      → OnlySends w (send_delivery F d s pdfs w).1
  unfolding send_delivery
  send_delivery-OnlySends d s pdfs w = elim (Result-cases (get_transport F d.provider)) [
    | inl (t, e) ↦ rw (e, send_delivery) (call_sender-OnlySends (get t "send") d s pdfs t w)
    | inr (x, e) ↦ rw (e, send_delivery) (OnlySends-refl w)
  ]

  throw_if-world : (b : Bool) (x : Error) (w : World F) → (throw_if b x w).1 ≡ w
  throw_if-world true x w = refl
  throw_if-world false x w = refl

  continue-world :
      {A B : Type 0} (f : A → World F → Result B × World F) (r : Result A × World F) (w : World F)
      → r.1 ≡ w
      → ((a : A) (w' : World F) → (f a w').1 ≡ w')
      → (continue f r).1 ≡ w
  continue-world f (ok a, w') w e q = q a w' ∙ e
  continue-world f (err x, w') w e q = e

  check_group-world : (d : Delivery) (s : Settings) (w : World F) → (check_group F d s w).1 ≡ w
  unfolding check_group
  check_group-world d s w = elim (Bool-cases (is_group d.recipient_type)) [
    | inl e ↦ rw e (
        continue-world (λ done. throw_if (not done) incomplete) (validate_copy F d s w) w
          (validate_copy-world d s w) (λ done w'. throw_if-world (not done) incomplete w'))
    | inr e ↦ rw e
  ]

  -- One run of the `try` block sends at most once, and touches no row, no job and no setting.
  pub deliver-OnlySends : (d : Delivery) (w : World F) → OnlySends w (deliver F d w).1
  unfolding deliver
  deliver-OnlySends d w =
      quiet_then _ (throw_if (not w.settings.enabled) disabled w) w (throw_if-world _ _ w) λ _.
        quiet_then _ (check_group F d w.settings w) w (check_group-world d w.settings w) λ _.
          quiet_then _ (read_pdf F d w) w refl λ pdfs.
            then_quiet _ (send_delivery F d w.settings pdfs w) w
              (send_delivery-OnlySends d w.settings pdfs w) (λ _ _. refl)

  pub plan_retry-OnlySends :
      (d : Delivery) (w w' : World F) → OnlySends w w' → OnlySends w (plan_retry F d w').1
  unfolding plan_retry
  plan_retry-OnlySends d w w' h = elim (Bool-cases (may_retry d)) [
    | inl e ↦ elim (Option-cases (retry_delay d.retry_count)) [
      | inl out ↦ rw (e, out) h
      | inr (delay, found) ↦
          rw (e, found)
            (record {
              table = h.table;
              files = h.files;
              templates = h.templates;
              settings = h.settings;
              user = h.user;
              jobs = h.jobs;
              log = h.log;
            })
    ]
    | inr e ↦ rw e h
  ]

  pub settle-OnlySends :
      (d : Delivery) (w : World F) (r : Result Delivery × World F)
      → OnlySends w r.1
      → OnlySends w (settle F d r).1
  settle-OnlySends d w (ok done, w') h = h
  settle-OnlySends d w (err e, w') h = plan_retry-OnlySends (refused d e) w w' h
