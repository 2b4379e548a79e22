-- ===== src/Outbound/Runs.antt =====
-- One run of the worker and the budgets of deliveries (erpnext_whatsapp_connection/outbound.py).
use mathlib.Core.Option.{some-injective}
use erpnext_whatsapp_connect.Base.{
  Bool, false, suc, ℕ, String, some, ◌≡◌, ◌≢◌, ◌⊎◌, refl, sym, ap, ◌∙◌, subst, inl, inr, Bool-cases,
  Option-cases, not, ◌||◌, ◌&&◌, leb_ℤ,
}
use erpnext_whatsapp_connect.Py.Action.{continue}
use erpnext_whatsapp_connect.Py.Result.{Result, ok, err, Result-cases}
use erpnext_whatsapp_connect.Site.Records.{Delivery, is_group}
use erpnext_whatsapp_connect.Site.Frappe.{Frappe, IsLawful}
use erpnext_whatsapp_connect.Site.World.{World}
use erpnext_whatsapp_connect.Site.Rows.{find-put_self, find-put_ne}
use erpnext_whatsapp_connect.History.{validate, save, is_terminal}
use erpnext_whatsapp_connect.Outbound.Worker.{
  claimed, exhausted, deliver, settle, release_after, store, attempt, attempt_limit, is_processing,
  is_backing_off, waits_for_parent, try_attempt, process, process_outbound_message,
}
use erpnext_whatsapp_connect.Outbound.Frame.{deliver-OnlySends, settle-OnlySends}
use erpnext_whatsapp_connect.Outbound.Outcome.{SameRow, settle-Outcome}
use erpnext_whatsapp_connect.Outbound.Total.{IsReady}
use erpnext_whatsapp_connect.Outbound.Budget.{
  SameBudget, KeepsBudget, KeepsBudget-found, KeepsBudget-table, KeepsBudget-trans,
  continue-KeepsBudget,
}
use erpnext_whatsapp_connect.Outbound.Kept.{release_waiting_copies-KeepsBudget}

module _ (F : Frappe) (L : IsLawful F) where
  release_after-KeepsBudget :
      (n : String) (d : Delivery) (w : World F) → KeepsBudget F n w (release_after F d w).1
  unfolding release_after
  release_after-KeepsBudget n d w =
      elim (Bool-cases (is_terminal d.status && not (is_group d.recipient_type))) [
        | inl e ↦ rw e (release_waiting_copies-KeepsBudget F L n d.name w)
        | inr e ↦ rw e (KeepsBudget-table F n w w refl)
      ]

  -- Saving another row, or this one with the budget that it has.
  save-KeepsBudget_other :
      (n : String) (d : Delivery) (w : World F) → d.name ≢ n → KeepsBudget F n w (save F d w).1
  unfolding save
  save-KeepsBudget_other n d w h = elim (Result-cases (validate (F.find w.table d.name) d)) [
    | inl (_, e) ↦
        rw (e, save)
          (KeepsBudget-found F n w (record w { table = F.put w.table d })
            (find-put_ne F L w.table d n h))
    | inr (_, e) ↦ rw (e, save) (KeepsBudget-table F n w w refl)
  ]

  save-KeepsBudget_same :
      (d x : Delivery) (w : World F)
      → F.find w.table x.name ≡ some d
      → SameBudget d x
      → KeepsBudget F x.name w (save F x w).1
  unfolding save
  save-KeepsBudget_same d x w found same =
      elim (Result-cases (validate (F.find w.table x.name) x)) [
        | inl (_, e) ↦
            rw (e, save)
              (λ y there. (
                x,
                find-put_self F L w.table x,
                subst (λ z. SameBudget z x) (some-injective d y (sym found ∙ there)) same,
              ))
        | inr (_, e) ↦ rw (e, save) (KeepsBudget-table F x.name w w refl)
      ]

  -- An attempt at one row leaves the others alone.
  finish-KeepsBudget :
      (n : String) (c : Delivery) (r : Result Delivery × World F)
      → c.name ≢ n
      → ((done : Delivery) → r.0 ≡ ok done → SameRow c done)
      → KeepsBudget F n r.1 (continue (store F) r).1
  unfolding store
  finish-KeepsBudget n c (err e, w) h same = KeepsBudget-table F n w w refl
  finish-KeepsBudget n c (ok done, w) h same =
      continue-KeepsBudget F n (λ _. release_after F done) (save F done w) w
        (save-KeepsBudget_other n done w (λ e. h (sym (same done refl).name ∙ e)))
        (λ _ v. release_after-KeepsBudget n done v)

  attempt-KeepsBudget_other :
      (n : String) (d : Delivery) (now : ℕ) (w : World F)
      → d.name ≢ n
      → KeepsBudget F n w (attempt F d now w).1
  unfolding attempt
  attempt-KeepsBudget_other n d now w h =
      let c = claimed d now in
      continue-KeepsBudget F n _ (save F c w) w (save-KeepsBudget_other n c w h) (λ _ v.
        let r = settle F c (deliver F c v) in
        let quiet = settle-OnlySends F c v (deliver F c v) (deliver-OnlySends F c v) in
        KeepsBudget-trans F n v r.1 (continue (store F) r).1
          (KeepsBudget-table F n v r.1 quiet.table)
          (finish-KeepsBudget n c r h (λ done e. (settle-Outcome F c done v e).0)))

  abbrev pub ticked : World F → World F
  ticked w = record w { tick = suc w.tick }

  -- What a run does with a row: a release, nothing but a look at the clock, giving up, an attempt.
  -- Whether the row's status stops a run at once.
  abbrev pub IsStarted : Delivery → Bool → Type 0
  IsStarted d b = (is_terminal d.status || is_processing d.status) ≡ b

  abbrev pub DoesOne : Delivery → World F → Result (Unit {0}) × World F → Type 0
  DoesOne d w r =
      (r ≡ release_after F d w)
      ⊎ ((r.1.table ≡ w.table)
          ⊎ ((r ≡ save F (exhausted d) (ticked w)) × IsStarted d false
              ⊎ ((r ≡ attempt F d (F.clock w.tick) (ticked w)) × IsReady F d w)))

  pub process-DoesOne : (d : Delivery) (w : World F) → DoesOne d w (process F d w)
  unfolding process try_attempt
  process-DoesOne d w = elim (Bool-cases (is_terminal d.status || is_processing d.status)) [
    | inl e ↦ rw (e, process) (inl refl)
    | inr a ↦ elim (Bool-cases (d.reconciliation_required || waits_for_parent F d w.table)) [
      | inl e ↦ rw (a, process) (rw (e, process) (inr (inl refl)))
      | inr b ↦ elim (Bool-cases (leb_ℤ (attempt_limit d) d.retry_count)) [
        | inl e ↦
            rw (a, process) (rw (b, process) (rw (e, try_attempt) (inr (inr (inl (refl, refl))))))
        | inr c ↦ elim (Bool-cases (is_backing_off d (F.clock w.tick))) [
          | inl e ↦
              rw (a, process)
                (rw (b, process) (rw (c, try_attempt) (rw (e, try_attempt) (inr (inl refl)))))
          | inr f ↦
              rw (a, process)
                (rw (b, process)
                  (rw (c, try_attempt)
                    (rw (f, try_attempt)
                      (inr (
                        inr (
                          inr (
                            refl,
                            record { open_status = a; free = b; attempts_left = c; due = f },
                          )))))))
        ]
      ]
    ]
  ]

  process-KeepsBudget_other :
      (n : String) (d : Delivery) (w : World F) → d.name ≢ n → KeepsBudget F n w (process F d w).1
  process-KeepsBudget_other n d w h = by_case (process F d w) (process-DoesOne d w)
    where
      by_case : (r : Result (Unit {0}) × World F) → DoesOne d w r → KeepsBudget F n w r.1
      by_case r (inl e) =
          subst (λ x. KeepsBudget F n w x.1) (sym e) (release_after-KeepsBudget n d w)
      by_case r (inr (inl e)) = KeepsBudget-table F n w r.1 e
      by_case r (inr (inr (inl (e, _)))) =
          subst (λ x. KeepsBudget F n w x.1) (sym e)
            (save-KeepsBudget_other n (exhausted d) (ticked w) h)
      by_case r (inr (inr (inr (e, _)))) =
          subst (λ x. KeepsBudget F n w x.1) (sym e)
            (attempt-KeepsBudget_other n d (F.clock w.tick) (ticked w) h)

  -- A run on a row leaves the row's budget alone, or the row was ready.
  process-KeepsBudget_same :
      (d : Delivery) (w : World F)
      → F.find w.table d.name ≡ some d
      → KeepsBudget F d.name w (process F d w).1 ⊎ IsReady F d w
  process-KeepsBudget_same d w found = by_case (process F d w) (process-DoesOne d w)
    where
      by_case :
          (r : Result (Unit {0}) × World F)
          → DoesOne d w r
          → KeepsBudget F d.name w r.1 ⊎ IsReady F d w
      by_case r (inl e) =
          inl
            (subst (λ x. KeepsBudget F d.name w x.1) (sym e) (release_after-KeepsBudget d.name d w))
      by_case r (inr (inl e)) = inl (KeepsBudget-table F d.name w r.1 e)
      by_case r (inr (inr (inl (e, _)))) = inl (
          subst (λ x. KeepsBudget F d.name w x.1) (sym e)
            (save-KeepsBudget_same d (exhausted d) (ticked w) found (refl, refl, refl, refl)))
      by_case r (inr (inr (inr (_, ready)))) = inr ready

  -- A run of the worker for one row leaves the budgets of the others alone.
  pub process_outbound_message-KeepsBudget_other :
      (n m : String) (w : World F) → m ≢ n → KeepsBudget F n w (process_outbound_message F m w).1
  unfolding process_outbound_message
  process_outbound_message-KeepsBudget_other n m w h = elim (Option-cases (F.find w.table m)) [
    | inl e ↦ rw (e, process_outbound_message) (KeepsBudget-table F n w w refl)
    | inr (d, e) ↦
        rw (e, process_outbound_message)
          (process-KeepsBudget_other n d w (λ same. h (sym (L.find-name w.table m d e) ∙ same)))
  ]

  pub process_outbound_message-KeepsBudget_same :
      (n : String) (d : Delivery) (w : World F)
      → F.find w.table n ≡ some d
      → KeepsBudget F n w (process_outbound_message F n w).1 ⊎ IsReady F d w
  unfolding process_outbound_message
  process_outbound_message-KeepsBudget_same n d w found =
      let name : d.name ≡ n = L.find-name w.table n d found in
      let ran : process_outbound_message F n w ≡ process F d w =
        rw (found, process_outbound_message) refl in
      subst (λ r. KeepsBudget F n w r.1 ⊎ IsReady F d w) (sym ran)
        (subst (λ k. KeepsBudget F k w (process F d w).1 ⊎ IsReady F d w) name
          (process-KeepsBudget_same d w (ap (λ k. F.find w.table k) name ∙ found)))
