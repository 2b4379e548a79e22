-- ===== src/Outbound/Total.antt =====
-- The worker on a well-formed row (erpnext_whatsapp_connection/outbound.py).
use erpnext_whatsapp_connect.Base.{
  ℕ, suc, String, Bool, true, false, not, ◌&&◌, ◌||◌, none, some, ◌≡◌, refl, inl, inr, ◌∙◌, sym, ap,
  subst, pos, ◌+ℤ◌, leb_ℤ, arith, All, Bool-cases,
}
use erpnext_whatsapp_connect.Py.Result.{Result, ok, err}
use erpnext_whatsapp_connect.Py.Action.{continue}
use erpnext_whatsapp_connect.Site.Records.{Delivery, is_group}
use erpnext_whatsapp_connect.Site.Frappe.{plain, Frappe, IsLawful}
use erpnext_whatsapp_connect.Site.World.{World}
use erpnext_whatsapp_connect.Site.Rows.{find-put_self}
use erpnext_whatsapp_connect.History.{
  has_document, has_report, has_message_id, optional_eq, is_terminal, immutable_fields,
}
use erpnext_whatsapp_connect.History.Saves.{save_lem}
use erpnext_whatsapp_connect.Groups.Copy.{is_waiting_copy}
use erpnext_whatsapp_connect.Groups.Release.{EndsOrQueue, release_waiting_copies-idle}
use erpnext_whatsapp_connect.Outbound.Worker.{
  claimed, stopped_message, retry_delay, may_retry, plan_retry, refused, deliver, settle,
  release_after, store, attempt, attempt_limit, is_processing, is_backing_off, waits_for_parent,
  try_attempt, process, process_outbound_message,
}
use erpnext_whatsapp_connect.Outbound.Frame.{deliver-OnlySends, settle-OnlySends}
use erpnext_whatsapp_connect.Outbound.Retry.{Verdict, Outcome-Verdict}
use erpnext_whatsapp_connect.Outbound.Outcome.{
  SameRow, Outcome, settle-Outcome, retry_delay-after, delay_after,
}

-- A row that names its source and has made so many attempts.
pub record IsWellFormed (d : Delivery) (made : ℕ) : Type 0 where
  pub document : has_document d ≡ true
  pub report : has_report d ≡ true
  pub attempts : d.retry_count ≡ pos made

or-true : (b : Bool) → (b || true) ≡ true
or-true b = ground arith

pub and-false : (b : Bool) → (b && false) ≡ false
and-false b = ground arith

pub pos-suc : (n : ℕ) → pos n +ℤ pos 1 ≡ pos (suc n)
unfolding ◌+ℤ◌
pos-suc n = ground arith

claimed-identity : (d : Delivery) (now : ℕ) → All (λ f. f (claimed d now) ≡ f d) immutable_fields
claimed-identity d now = ground arith

module _ (F : Frappe) where
  -- A stored row that a worker tries to send at its next look at the clock.
  pub record IsReady (d : Delivery) (w : World F) : Type 0 where
    pub open_status : (is_terminal d.status || is_processing d.status) ≡ false
    pub free : (d.reconciliation_required || waits_for_parent F d w.table) ≡ false
    pub attempts_left : leb_ℤ (attempt_limit d) d.retry_count ≡ false
    pub due : is_backing_off d (F.clock w.tick) ≡ false

  plan_retry-total :
      (d : Delivery) (n : ℕ) (w : World F)
      → d.retry_count ≡ pos (suc n)
      → (x : Delivery) × ((plan_retry F d w).0 ≡ ok x)
  unfolding plan_retry
  plan_retry-total d n w h = elim (Bool-cases (may_retry d)) [
    | inl e ↦
        let delay = ap retry_delay h ∙ retry_delay-after n in
        (
          record d { next_retry_at = some (F.add_to_date (F.clock w.tick) (delay_after n)) },
          rw (e, delay, plan_retry),
        )
    | inr e ↦ (
      record d {
        next_retry_at = none;
        result_message = some (stopped_message d.reconciliation_required);
      },
      rw (e, plan_retry),
    )
  ]

  settle-total :
      (d : Delivery) (n : ℕ) (r : Result Delivery × World F)
      → d.retry_count ≡ pos (suc n)
      → (x : Delivery) × ((settle F d r).0 ≡ ok x)
  settle-total d n (ok x, w) h = (x, refl)
  settle-total d n (err e, w) h = plan_retry-total (refused d e) n w h

module _ (F : Frappe) (L : IsLawful F) where
  Outcome-has_message_id : (d : Delivery) → Outcome F d → has_message_id d ≡ true
  Outcome-has_message_id d (inl (s, _, _, v, ids)) =
      rw ids (rw (L.dumps-not_empty plain v) (or-true (not (is_terminal d.status))))
  Outcome-has_message_id d (inr (s, _)) = rw s

  Outcome-not_waiting : (p : String) (d : Delivery) → Outcome F d → is_waiting_copy p d ≡ false
  Outcome-not_waiting p d (inl h) = rw h.0 (and-false (optional_eq d.copy_of (some p)))
  Outcome-not_waiting p d (inr h) = rw h.0 (and-false (optional_eq d.copy_of (some p)))

  -- What a release leaves alone.
  release_after_lem :
      (done : Delivery) (w : World F) (m : String) (x : Delivery)
      → F.find w.table m ≡ some x
      → is_waiting_copy done.name x ≡ false
      → EndsOrQueue F (release_after F done w).0
        × (F.find (release_after F done w).1.table m ≡ some x)
  unfolding release_after
  release_after_lem done w m x found idle =
      elim (Bool-cases (is_terminal done.status && not (is_group done.recipient_type))) [
        | inl e ↦ rw e (release_waiting_copies-idle F L done.name w m x found idle)
        | inr e ↦ rw e (inl refl, found)
      ]

  -- Storing the row of an attempt succeeds, and the row stays as it was stored.
  store_lem :
      (c done : Delivery) (w : World F)
      → F.find w.table c.name ≡ some c
      → has_document c ≡ true
      → has_report c ≡ true
      → SameRow c done
      → Outcome F done
      → EndsOrQueue F (store F done w).0 × (F.find (store F done w).1.table c.name ≡ some done)
  unfolding store
  store_lem c done w found doc rep same out =
      let w' : World F = record w { table = F.put w.table done } in
      let stored : F.find w'.table c.name ≡ some done =
        subst (λ k. F.find w'.table k ≡ some done) same.name (find-put_self F L w.table done) in
      let saved =
        save_lem F done c w (subst (λ k. F.find w.table k ≡ some c) (sym same.name) found)
          same.identity (Outcome-has_message_id done out) (same.document ∙ doc)
          (same.report ∙ rep) in
      rw (saved, store)
        (release_after_lem done w' c.name done stored (Outcome-not_waiting done.name done out))

  -- An attempt at a well-formed row: it ends, and the row is stored with its outcome.
  abbrev pub Attempted : Delivery → ℕ → World F → Type 0
  Attempted d now w' =
      (done : Delivery) × SameRow (claimed d now) done
      × Outcome F done
      × (F.find w'.table d.name ≡ some done)

  finish_lem :
      (c : Delivery) (n : ℕ) (w : World F)
      → F.find w.table c.name ≡ some c
      → has_document c ≡ true
      → has_report c ≡ true
      → c.retry_count ≡ pos (suc n)
      → let r = continue (store F) (settle F c (deliver F c w)) in
        EndsOrQueue F r.0
        × ((done : Delivery) × SameRow c done
            × Outcome F done
            × (F.find r.1.table c.name ≡ some done))
  finish_lem c n w found doc rep count =
      let r = settle F c (deliver F c w) in
      let quiet = settle-OnlySends F c w (deliver F c w) (deliver-OnlySends F c w) in
      let (done, e) = settle-total F c n (deliver F c w) count in
      let (same, out) = settle-Outcome F c done w e in
      let (fine, row) = store_lem c done r.1 (rw quiet.table found) doc rep same out in
      rw (e, continue) (fine, (done, same, out, row))

  attempt_lem :
      (d : Delivery) (made now : ℕ) (w : World F)
      → F.find w.table d.name ≡ some d
      → IsWellFormed d made
      → EndsOrQueue F (attempt F d now w).0 × Attempted d now (attempt F d now w).1
  unfolding attempt
  attempt_lem d made now w found good =
      let c = claimed d now in
      let w' : World F = record w { table = F.put w.table c } in
      let saved = save_lem F c d w found (claimed-identity d now) refl good.document good.report in
      rw (saved, attempt)
        (finish_lem c made w' (find-put_self F L w.table c) good.document good.report
          (rw good.attempts (pos-suc made)))

  -- On a site whose tables behave as documented, a worker that is given a stored delivery that is
  -- ready and well-formed ends well, whatever the transport does, or raises what the queue raises
  -- when it is asked for the job of a release. In both cases it has counted one more attempt, and
  -- the row that it has written is the same delivery, either submitted, or failed. A failed row is
  -- due again after 30 seconds, 120 or 600 (its first attempt, its second, a later one), counted
  -- from a look at the clock, if it is not held for reconciliation and has made no more attempts
  -- than it has retries; otherwise no retry is planned.
  pub process_outbound_message_attempts :
      (w : World F) (n : String) (d : Delivery) (made : ℕ)
      → F.find w.table n ≡ some d
      → IsWellFormed d made
      → IsReady F d w
      → EndsOrQueue F (process_outbound_message F n w).0
        × ((done : Delivery) × SameRow (claimed d (F.clock w.tick)) done
            × Verdict F made done
            × (F.find (process_outbound_message F n w).1.table n ≡ some done))
  unfolding process_outbound_message process try_attempt
  process_outbound_message_attempts w n d made found good ready =
      let name : d.name ≡ n = L.find-name w.table n d found in
      let w' : World F = record w { tick = suc w.tick } in
      let (fine, (done, same, out, row)) =
        attempt_lem d made (F.clock w.tick) w'
          (subst (λ k. F.find w.table k ≡ some d) (sym name) found) good in
      let row' =
        subst (λ k. F.find (attempt F d (F.clock w.tick) w').1.table k ≡ some done) name row in
      let count = same.retry_count ∙ rw good.attempts (pos-suc made) in
      rw (found, process_outbound_message)
        (rw (ready.open_status, process)
          (rw (ready.free, process)
            (rw (ready.attempts_left, try_attempt)
              (rw (ready.due, try_attempt)
                (fine, (done, same, Outcome-Verdict F done made count out, row'))))))
