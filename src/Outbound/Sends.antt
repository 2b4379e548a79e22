-- ===== src/Outbound/Sends.antt =====
-- How often, and when, a run of the worker reaches a transport
-- (erpnext_whatsapp_connection/outbound.py).
use erpnext_whatsapp_connect.Base.{
  ℕ, suc, ◌∙◌, String, not, ◌&&◌, ◌||◌, none, some, List, [], ◌∷◌, ◌++◌, ◌≡◌, refl, subst, ◌⊎◌, inl,
  inr, Bool-cases, Option-cases, leb_ℤ,
}
use erpnext_whatsapp_connect.Py.Result.{Result, ok, err, Result-cases}
use erpnext_whatsapp_connect.Py.Action.{continue, for_each}
use erpnext_whatsapp_connect.Site.Records.{Delivery, is_group}
use erpnext_whatsapp_connect.Site.Frappe.{Frappe}
use erpnext_whatsapp_connect.Site.World.{World, Event}
use erpnext_whatsapp_connect.History.{save, validate, is_terminal}
use erpnext_whatsapp_connect.Groups.Copy.{is_waiting_copy, release_copy, release_waiting_copies}
use erpnext_whatsapp_connect.Groups.Release.{release_copy-frame}
use erpnext_whatsapp_connect.Outbound.Worker.{
  claimed, exhausted, deliver, settle, release_after, store, attempt, attempt_limit, is_processing,
  is_backing_off, waits_for_parent, try_attempt, process, process_outbound_message,
}
use erpnext_whatsapp_connect.Outbound.Frame.{deliver-OnlySends, settle-OnlySends}
use erpnext_whatsapp_connect.Outbound.Total.{IsReady}

module _ (F : Frappe) where
  save-log : (d : Delivery) (w : World F) → (save F d w).1.log ≡ w.log
  unfolding save
  save-log d w = elim (Result-cases (validate (F.find w.table d.name) d)) [
    | inl (_, e) ↦ rw (e, save)
    | inr (_, e) ↦ rw (e, save)
  ]

  continue-log :
      {A B : Type 0} (f : A → World F → Result B × World F) (r : Result A × World F)
      → ((a : A) (w : World F) → (f a w).1.log ≡ w.log)
      → (continue f r).1.log ≡ r.1.log
  continue-log f (ok a, w) h = h a w
  continue-log f (err e, w) h = refl

  release_all-log :
      (ns : List String) (w : World F) → (for_each ns (release_copy F) w).1.log ≡ w.log
  unfolding for_each
  release_all-log [] w = refl
  release_all-log (n ∷ ns) w =
      continue-log (λ _. for_each ns (release_copy F)) (release_copy F n w)
        (λ _ v. release_all-log ns v)
      ∙ (release_copy-frame F n w).1

  release_after-log : (d : Delivery) (w : World F) → (release_after F d w).1.log ≡ w.log
  unfolding release_after release_waiting_copies
  release_after-log d w =
      elim (Bool-cases (is_terminal d.status && not (is_group d.recipient_type))) [
        | inl e ↦ rw e (release_all-log (F.matching (is_waiting_copy d.name) none w.table) w)
        | inr e ↦ rw e
      ]

  store-log : (d : Delivery) (w : World F) → (store F d w).1.log ≡ w.log
  unfolding store
  store-log d w =
      rw (continue-log (λ _. release_after F d) (save F d w) (λ _ v. release_after-log d v))
        (save-log d w)

  -- The log has grown by one event at most.
  abbrev LogsOne : World F → World F → Type 0
  LogsOne w w' = (w'.log ≡ w.log) ⊎ ((e : Event) × (w'.log ≡ w.log ++ e ∷ []))

  finish-LogsOne :
      (c : Delivery) (w : World F) → LogsOne w (continue (store F) (settle F c (deliver F c w))).1
  finish-LogsOne c w =
      rw (continue-log (store F) (settle F c (deliver F c w)) store-log)
        (settle-OnlySends F c w (deliver F c w) (deliver-OnlySends F c w)).log

  then-LogsOne :
      {A B : Type 0} (f : A → World F → Result B × World F) (r : Result A × World F) (w : World F)
      → r.1.log ≡ w.log
      → ((a : A) (v : World F) → LogsOne v (f a v).1)
      → LogsOne w (continue f r).1
  then-LogsOne f (ok a, v) w e h =
      subst (λ l. ((f a v).1.log ≡ l) ⊎ ((x : Event) × ((f a v).1.log ≡ l ++ x ∷ []))) e (h a v)
  then-LogsOne f (err x, v) w e h = inl e

  attempt-LogsOne : (d : Delivery) (now : ℕ) (w : World F) → LogsOne w (attempt F d now w).1
  unfolding attempt
  attempt-LogsOne d now w =
      then-LogsOne _ (save F (claimed d now) w) w (save-log (claimed d now) w)
        (λ _ v. finish-LogsOne (claimed d now) v)

  -- What a run that starts at a row may log.
  abbrev SendsIfReady : Delivery → World F → World F → Type 0
  SendsIfReady d w w' =
      (w'.log ≡ w.log) ⊎ ((e : Event) × (w'.log ≡ w.log ++ e ∷ []) × IsReady F d w)

  abbrev ticked : World F → World F
  ticked w = record w { tick = suc w.tick }

  ready_sends :
      (d : Delivery) (w w' : World F) → IsReady F d w → LogsOne (ticked w) w' → SendsIfReady d w w'
  ready_sends d w w' ready (inl e) = inl e
  ready_sends d w w' ready (inr (e, grown)) = inr (e, grown, ready)

  process-sends : (d : Delivery) (w : World F) → SendsIfReady d w (process F d w).1
  unfolding process try_attempt
  process-sends d w = elim (Bool-cases (is_terminal d.status || is_processing d.status)) [
    | inl e ↦ rw (e, process) (inl (release_after-log d w))
    | inr a ↦ elim (Bool-cases (d.reconciliation_required || waits_for_parent F d w.table)) [
      | inl e ↦ rw (a, process) (rw (e, process) (inl refl))
      | inr b ↦ elim (Bool-cases (leb_ℤ (attempt_limit d) d.retry_count)) [
        | inl e ↦
            rw (a, process)
              (rw (b, process) (rw (e, try_attempt) (inl (save-log (exhausted d) (ticked w)))))
        | inr c ↦ elim (Bool-cases (is_backing_off d (F.clock w.tick))) [
          | inl e ↦
              rw (a, process)
                (rw (b, process) (rw (c, try_attempt) (rw (e, try_attempt) (inl refl))))
          | inr f ↦
              rw (a, process)
                (rw (b, process)
                  (rw (c, try_attempt)
                    (rw (f, try_attempt)
                      (ready_sends d w (attempt F d (F.clock w.tick) (ticked w)).1
                        (record { open_status = a; free = b; attempts_left = c; due = f })
                        (attempt-LogsOne d (F.clock w.tick) (ticked w))))))
        ]
      ]
    ]
  ]

  -- One run of the worker reaches a transport at most once, and only for a stored row that is ready:
  -- neither sent nor being sent, not held for reconciliation or for its original, with an attempt
  -- left, and not inside its backoff window. In every other case no request leaves the site.
  pub process_outbound_message_sends :
      (w : World F) (n : String)
      → let w' = (process_outbound_message F n w).1 in
        (w'.log ≡ w.log)
        ⊎ ((e : Event) × (d : Delivery) × (w'.log ≡ w.log ++ e ∷ [])
            × (F.find w.table n ≡ some d)
            × IsReady F d w)
  unfolding process_outbound_message
  process_outbound_message_sends w n = elim (Option-cases (F.find w.table n)) [
    | inl e ↦ rw (e, process_outbound_message) (inl refl)
    | inr (d, found) ↦
        rw (found, process_outbound_message) (for_row d (process F d w).1 found (process-sends d w))
  ]
    where
      for_row :
          (d : Delivery) (w' : World F)
          → F.find w.table n ≡ some d
          → SendsIfReady d w w'
          → (w'.log ≡ w.log)
            ⊎ ((e : Event) × (x : Delivery) × (w'.log ≡ w.log ++ e ∷ [])
                × (some d ≡ some x)
                × IsReady F x w)
      for_row d w' found (inl e) = inl e
      for_row d w' found (inr (e, grown, ready)) = inr (e, d, grown, refl, ready)
