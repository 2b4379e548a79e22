-- ===== src/Outbound/Outcome.antt =====
-- What one attempt makes of a delivery's row (erpnext_whatsapp_connection/outbound.py).
use erpnext_whatsapp_connect.Base.{
  ℕ, suc, zero, String, true, false, not, Option, none, some, ◌≡◌, refl, ◌⊎◌, inl, inr, pos, ◌-ℤ◌,
  min_ℤ, arith, true-ne-false, subst, All, sym, Bool-cases, Option-cases,
}
use erpnext_whatsapp_connect.Py.Result.{
  Error, Result, ok, err, Result-cases, ok-injective, err-ne-ok,
}
use erpnext_whatsapp_connect.Py.Action.{throw_if, continue-ok}
use erpnext_whatsapp_connect.Py.Value.{Value, or_else, list, nil}
use erpnext_whatsapp_connect.Site.Records.{Delivery, submitted, failed}
use erpnext_whatsapp_connect.Site.Frappe.{plain, Frappe}
use erpnext_whatsapp_connect.Site.World.{World}
use erpnext_whatsapp_connect.History.{immutable_fields, has_document, has_report}
use erpnext_whatsapp_connect.Gateway.{get_of}
use erpnext_whatsapp_connect.Datetime.{provider_datetime}
use erpnext_whatsapp_connect.Transport.{send_delivery}
use erpnext_whatsapp_connect.Outbound.Worker.{
  attempt_limit, retry_delay, may_retry, refused, sent, accept, deliver, settle, plan_retry,
  disabled, check_group, read_pdf,
}

-- What an attempt leaves of a row: its name, its counters and all that identifies it.
pub record SameRow (d d' : Delivery) : Type 0 where
  pub name : d'.name ≡ d.name
  pub retry_count : d'.retry_count ≡ d.retry_count
  pub max_retries : d'.max_retries ≡ d.max_retries
  pub identity : All (λ f. f d' ≡ f d) immutable_fields
  pub document : has_document d' ≡ has_document d
  pub report : has_report d' ≡ has_report d
  pub kind : d'.recipient_type ≡ d.recipient_type

abbrev planned : Delivery → Option ℕ → Option String → Delivery
planned d at text = record d { next_retry_at = at; result_message = text }

SameRow-planned :
    (d : Delivery) (at : Option ℕ) (text : Option String) → SameRow d (planned d at text)
SameRow-planned d at text = record {
  name = refl;
  retry_count = refl;
  max_retries = refl;
  identity = ground arith;
  document = refl;
  report = refl;
  kind = refl;
}

-- The first retry waits 30 seconds, the second 120 and every later one 600.
abbrev pub delay_after : ℕ → ℕ
delay_after zero = 30
delay_after (suc zero) = 120
delay_after (suc (suc n)) = 600

pub retry_delay-after : (n : ℕ) → retry_delay (pos (suc n)) ≡ some (delay_after n)
unfolding retry_delay min_ℤ ◌-ℤ◌
retry_delay-after zero = refl
retry_delay-after (suc zero) = refl
retry_delay-after (suc (suc n)) = ground arith

module _ (F : Frappe) where
  -- A failed row is due again exactly if a retry is left.
  abbrev pub Planned : Delivery → Type 0
  Planned d =
      (may_retry d ≡ true
        → (k : ℕ) × (delay : ℕ) × (retry_delay d.retry_count ≡ some delay)
          × (d.next_retry_at ≡ some (F.add_to_date (F.clock k) delay)))
      × (may_retry d ≡ false → d.next_retry_at ≡ none)

  abbrev pub Submitted : Delivery → Type 0
  Submitted d =
      (d.status ≡ submitted)
      × (d.next_retry_at ≡ none)
      × (d.error_message ≡ some "")
      × (v : Value) × (d.provider_message_ids ≡ some (F.dumps plain v))

  abbrev pub Outcome : Delivery → Type 0
  Outcome d = Submitted d ⊎ ((d.status ≡ failed) × Planned d)

  plan_retry-Planned :
      (d d' : Delivery) (w : World F)
      → (plan_retry F d w).0 ≡ ok d'
      → SameRow d d' × (d'.status ≡ d.status) × Planned d'
  unfolding plan_retry attempt_limit
  plan_retry-Planned d d' w h = elim (Bool-cases (may_retry d)) [
    | inl e ↦ elim (Option-cases (retry_delay d.retry_count)) [
      | inl out ↦ absurd (err-ne-ok _ d' (rw (e, out, plan_retry) at h))
      | inr (delay, found) ↦ subst Result_of (ok-injective _ d' (rw (e, found, plan_retry) at h)) (
        SameRow-planned d _ _,
        refl,
        ((λ _. (w.tick, delay, found, refl)), (λ n. absurd (true-ne-false _ e n))),
      )
    ]
    | inr e ↦
        subst Result_of (ok-injective _ d' (rw (e, plan_retry) at h))
          (SameRow-planned d _ _, refl, ((λ n. absurd (true-ne-false _ n e)), (λ _. refl)))
  ]
    where
      Result_of : Delivery → Type 0
      Result_of x = SameRow d x × (x.status ≡ d.status) × Planned x

  accept-sent :
      (d d' : Delivery) (result : Value)
      → accept F d result ≡ ok d'
      → (at : Option ℕ) × (v : Value) × (d' ≡ sent d at (F.dumps plain v))
  unfolding accept
  accept-sent d d' result h = elim (Result-cases (get_of result "submitted_at")) [
    | inr (x, e) ↦ absurd (err-ne-ok x d' (rw (e, accept) at h))
    | inl (stamp, e) ↦ elim (Result-cases (provider_datetime F stamp)) [
      | inr (x, e') ↦ absurd (err-ne-ok x d' (rw (e, e', accept) at h))
      | inl (at, e') ↦ elim (Result-cases (get_of result "message_ids")) [
        | inr (x, e'') ↦ absurd (err-ne-ok x d' (rw (e, e', e'', accept) at h))
        | inl (ids, e'') ↦
            (at, or_else ids (list nil), sym (ok-injective _ d' (rw (e, e', e'', accept) at h)))
      ]
    ]
  ]

  deliver-sent :
      (d d' : Delivery) (w : World F)
      → (deliver F d w).0 ≡ ok d'
      → (at : Option ℕ) × (v : Value) × (d' ≡ sent d at (F.dumps plain v))
  unfolding deliver
  deliver-sent d d' w h =
      let (_, w1, h1) = continue-ok _ (throw_if (not w.settings.enabled) disabled w) d' h in
      let (_, w2, h2) = continue-ok _ (check_group F d w.settings w1) d' h1 in
      let (pdfs, w3, h3) = continue-ok _ (read_pdf F d w2) d' h2 in
      let (result, w4, h4) = continue-ok _ (send_delivery F d w.settings pdfs w3) d' h3 in
      accept-sent d d' result h4

  SameRow-sent : (d : Delivery) (at : Option ℕ) (ids : String) → SameRow d (sent d at ids)
  SameRow-sent d at ids = record {
    name = refl;
    retry_count = refl;
    max_retries = refl;
    identity = ground arith;
    document = refl;
    report = refl;
    kind = refl;
  }

  SameRow-refused : (d d' : Delivery) (e : Error) → SameRow (refused d e) d' → SameRow d d'
  SameRow-refused d d' e h = record {
    name = h.name;
    retry_count = h.retry_count;
    max_retries = h.max_retries;
    identity = h.identity;
    document = h.document;
    report = h.report;
    kind = h.kind;
  }

  settled-Outcome :
      (d d' : Delivery) (r : Result Delivery × World F)
      → (r.0 ≡ ok d' → (at : Option ℕ) × (v : Value) × (d' ≡ sent d at (F.dumps plain v)))
      → (settle F d r).0 ≡ ok d'
      → SameRow d d' × Outcome d'
  settled-Outcome d d' (ok x, w) k h =
      let (at, v, e) = k h in
      rw e (SameRow-sent d at (F.dumps plain v), inl (refl, refl, refl, v, refl))
  settled-Outcome d d' (err x, w) k h =
      let (same, status, plan) = plan_retry-Planned (refused d x) d' w h in
      (SameRow-refused d d' x same, inr (status, plan))

  -- Whatever the attempt meets, the row that it ends with is submitted, or failed with its retry
  -- planned or its retries ended, and is the same delivery.
  pub settle-Outcome :
      (d d' : Delivery) (w : World F)
      → (settle F d (deliver F d w)).0 ≡ ok d'
      → SameRow d d' × Outcome d'
  settle-Outcome d d' w h = settled-Outcome d d' (deliver F d w) (deliver-sent d d' w) h
