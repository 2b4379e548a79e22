-- ===== src/Outbound/Worker.antt =====
-- The delivery worker: `process_outbound_message` of erpnext_whatsapp_connection/outbound.py.
use erpnext_whatsapp_connect.Base.{
  ℕ, zero, suc, String, Bool, true, false, not, ◌&&◌, ◌||◌, Option, none, some, List, [], ◌∷◌, ℤ,
  pos, negsuc, ◌+ℤ◌, ◌-ℤ◌, max_ℤ, min_ℤ, ltb_ℤ, leb_ℤ, ltb, length, if◌then◌else◌, ◌-◌,
}
use erpnext_whatsapp_connect.Py.Result.{
  Error, message, needs_reconciliation, validation, crash, Result, ok, err,
}
use erpnext_whatsapp_connect.Py.Action.{Action, pure, lift, gets, throw_if, continue, ◌>>=◌, ◌>>◌}
use erpnext_whatsapp_connect.Py.Value.{Value, list, nil, or_else}
use erpnext_whatsapp_connect.Py.Text.{take}
use erpnext_whatsapp_connect.Site.Records.{
  Pdf, Delivery, Settings, Status, queued, processing, submitted, acknowledged, failed, waiting,
  other, is_group, is_blank,
}
use erpnext_whatsapp_connect.Site.Frappe.{plain, Frappe}
use erpnext_whatsapp_connect.Site.World.{World, now_datetime}
use erpnext_whatsapp_connect.History.{is_terminal, save}
use erpnext_whatsapp_connect.Gateway.{get_of}
use erpnext_whatsapp_connect.Datetime.{provider_datetime}
use erpnext_whatsapp_connect.Transport.{send_delivery}
use erpnext_whatsapp_connect.Groups.Copy.{validate_copy, release_waiting_copies, text_or_empty}
use erpnext_whatsapp_connect.Outbound.Snapshot.{pdf_payload}

abbrev pub incomplete : Error
incomplete = validation "Primary delivery is not complete."

abbrev pub disabled : Error
disabled = validation "The site's WhatsApp transport is disabled."

-- `RETRY_DELAYS_SECONDS`.
abbrev pub retry_delays : List ℕ
retry_delays = 30 ∷ 120 ∷ 600 ∷ []

-- `xs[i]`: a negative index counts from the end, and one out of range raises.
abbrev pub at_index : List ℕ → ℕ → Option ℕ
at_index [] i = none
at_index (x ∷ xs) zero = some x
at_index (x ∷ xs) (suc i) = at_index xs i

abbrev pub index : List ℕ → ℤ → Option ℕ
index xs (pos i) = at_index xs i
index xs (negsuc i) = if ltb i (length xs) then at_index xs (length xs - i - 1) else none

abbrev pub is_processing : Status → Bool
is_processing processing = true
is_processing queued = false
is_processing submitted = false
is_processing acknowledged = false
is_processing failed = false
is_processing waiting = false
is_processing (other s) = false

abbrev pub is_failed : Status → Bool
is_failed failed = true
is_failed queued = false
is_failed submitted = false
is_failed acknowledged = false
is_failed processing = false
is_failed waiting = false
is_failed (other s) = false

-- `_attempt_limit`.
unfoldable pub attempt_limit : Delivery → ℤ
attempt_limit d = max_ℤ (pos 1) (d.max_retries +ℤ pos 1)

abbrev pub later_than : Option ℕ → ℕ → Bool
later_than none now = false
later_than (some t) now = ltb now t

-- The backoff window of a failed delivery is still open.
abbrev pub is_backing_off : Delivery → ℕ → Bool
is_backing_off d now = is_failed d.status && later_than d.next_retry_at now

-- The row as the worker saves it before it sends, and on giving up.
abbrev pub claimed : Delivery → ℕ → Delivery
claimed d now = record d {
  attempted_at = some now;
  retry_count = d.retry_count +ℤ pos 1;
  status = processing;
  next_retry_at = none;
}

abbrev pub exhausted : Delivery → Delivery
exhausted d = record d {
  status = failed;
  next_retry_at = none;
  result_message = some "Automatic retry limit reached";
}

abbrev pub sent : Delivery → Option ℕ → String → Delivery
sent d at ids = record d {
  status = submitted;
  submitted_at = at;
  provider_message_ids = some ids;
  result_message = some "Submitted to WhatsApp";
  error_message = some "";
  next_retry_at = none;
}

abbrev pub stopped_message : Bool → String
stopped_message true = "Delivery outcome requires reconciliation; automatic retry stopped."
stopped_message false = "Automatic retry limit reached"

-- The row after an exception: what the handler writes before it looks at the limit.
abbrev pub refused : Delivery → Error → Delivery
refused d e = record d {
  status = failed;
  error_message = some (take 500 (message e));
  reconciliation_required = needs_reconciliation e;
}

abbrev pub may_retry : Delivery → Bool
may_retry d = not d.reconciliation_required && ltb_ℤ d.retry_count (attempt_limit d)

-- `RETRY_DELAYS_SECONDS[min(cint(document.retry_count) - 1, len(RETRY_DELAYS_SECONDS) - 1)]`.
unfoldable pub retry_delay : ℤ → Option ℕ
retry_delay count = index retry_delays (min_ℤ (count -ℤ pos 1) (pos 2))

module _ (F : Frappe) where
  -- The rest of the handler: the next attempt is planned, or the retries end.
  unfoldable pub plan_retry : Delivery → Action (World F) Delivery
  plan_retry d w =
      if may_retry d
      then (elim (retry_delay d.retry_count) [
        | none ↦ (err (crash "tuple index out of range"), w)
        | some delay ↦
            let (now, w') = now_datetime F w in
            (elim now [
              | err e ↦ (err e, w')
              | ok t ↦ (ok (record d { next_retry_at = some (F.add_to_date t delay) }), w')
            ])
      ])
      else (
        ok (record d {
          next_retry_at = none;
          result_message = some (stopped_message d.reconciliation_required);
        }),
        w,
      )

  -- The copy is checked again before it is sent.
  unfoldable pub check_group : Delivery → Settings → Action (World F) (Unit {0})
  check_group d settings w =
      if is_group d.recipient_type
      then continue (λ complete. throw_if (not complete) incomplete) (validate_copy F d settings w)
      else (ok tt, w)

  -- What the answer of the transport makes of the row.
  unfoldable pub accept : Delivery → Value → Result Delivery
  accept d result = elim (get_of result "submitted_at") [
    | err e ↦ err e
    | ok stamp ↦ elim (provider_datetime F stamp) [
      | err e ↦ err e
      | ok at ↦ elim (get_of result "message_ids") [
        | err e ↦ err e
        | ok ids ↦ ok (sent d at (F.dumps plain (or_else ids (list nil))))
      ]
    ]
  ]

  abbrev pub read_pdf : Delivery → Action (World F) (List Pdf)
  read_pdf d w = (pdf_payload F w.files d, w)

  -- The `try` block.
  unfoldable pub deliver : Delivery → Action (World F) Delivery
  deliver d = do
    settings ← gets (λ w. w.settings)
    throw_if (not settings.enabled) disabled
    check_group d settings
    pdfs ← read_pdf d
    result ← send_delivery F d settings pdfs
    lift (accept d result)

  -- `except Exception`.
  abbrev pub settle : Delivery → Result Delivery × World F → Result Delivery × World F
  settle d (ok done, w) = (ok done, w)
  settle d (err e, w) = plan_retry (refused d e) w

  -- A submitted primary releases its copies.
  unfoldable pub release_after : Delivery → Action (World F) (Unit {0})
  release_after d w =
      if is_terminal d.status && not (is_group d.recipient_type)
      then release_waiting_copies F d.name w
      else (ok tt, w)

  -- The row is stored as the attempt left it.
  unfoldable pub store : Delivery → Action (World F) (Unit {0})
  store done = do save F done; release_after done

  unfoldable pub attempt : Delivery → ℕ → Action (World F) (Unit {0})
  attempt d now = do
    save F (claimed d now)
    done ← λ w. settle (claimed d now) (deliver (claimed d now) w)
    store done

  unfoldable pub try_attempt : Delivery → Action (World F) (Unit {0})
  try_attempt d = do
    now ← now_datetime F
    if leb_ℤ (attempt_limit d) d.retry_count
        then save F (exhausted d)
        else (if is_backing_off d now then pure tt else attempt d now)

  -- `frappe.db.get_value(HISTORY_DOCTYPE, document.copy_of, 'status') not in TERMINAL_STATUSES`.
  abbrev pub waits_for_parent : Delivery → F.Table → Bool
  waits_for_parent d t = not (is_blank d.copy_of) && (elim (F.find t (text_or_empty d.copy_of)) [
    | none ↦ true
    | some parent ↦ not (is_terminal parent.status)
  ])

  unfoldable pub process : Delivery → Action (World F) (Unit {0})
  process d w =
      if is_terminal d.status || is_processing d.status
      then release_after d w
      else (if d.reconciliation_required || waits_for_parent d w.table
          then (ok tt, w)
          else try_attempt d w)

  unfoldable pub process_outbound_message : String → Action (World F) (Unit {0})
  process_outbound_message message_name w = elim (F.find w.table message_name) [
    | none ↦ (err (validation "ERPNext WhatsApp Delivery History not found"), w)
    | some d ↦ process d w
  ]
