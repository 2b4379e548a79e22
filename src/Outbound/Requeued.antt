-- ===== src/Outbound/Requeued.antt =====
-- A whole run of `retry_due_messages`
-- (erpnext_whatsapp_connection/outbound.py).
use mathlib.Core.Option.{some-injective}
use erpnext_whatsapp_connect.Base.{
  suc, String, some, List, [], ◌∷◌, ◌≡◌, refl, sym, ap, ◌∙◌, inl, inr, Bool-cases, Option-cases,
  false, All,
}
use erpnext_whatsapp_connect.Py.Action.{continue, for_each}
use erpnext_whatsapp_connect.Py.Result.{Result, ok, err}
use erpnext_whatsapp_connect.Site.Records.{Delivery, failed}
use erpnext_whatsapp_connect.Site.Frappe.{Frappe, IsLawful}
use erpnext_whatsapp_connect.Site.World.{World}
use erpnext_whatsapp_connect.History.{optional_eq}
use erpnext_whatsapp_connect.Source.Document.{distinct_from}
use erpnext_whatsapp_connect.Groups.Copy.{is_waiting_copy}
use erpnext_whatsapp_connect.Groups.Release.{release_waiting_copies-idle}
use erpnext_whatsapp_connect.Outbound.Total.{and-false}
use erpnext_whatsapp_connect.Outbound.Due.{IsHandled, rounds-IsHandled}
use erpnext_whatsapp_connect.Outbound.Scheduler.{
  row_is_terminal, parents_of, release_parent, retry_due_messages, is_due, is_unreleased, retry_row,
  rows_of,
}

module _ (F : Frappe) (n : String) (L : IsLawful F) where
  rows_of-read :
      (ns : List String) (t : F.Table) (d : Delivery)
      → F.find t n ≡ some d
      → All (λ r. r.name ≡ n → r ≡ d) (rows_of F ns t)
  rows_of-read [] t d found = tt
  rows_of-read (m ∷ ns) t d found = elim (Option-cases (F.find t m)) [
    | inl e ↦ rw (e, All, rows_of) (rows_of-read ns t d found)
    | inr (r, e) ↦
        let whose : r.name ≡ n → r ≡ d = λ name.
          let same : m ≡ n = sym (L.find-name t m r e) ∙ name in
          some-injective r d (sym e ∙ ap (F.find t) same ∙ found) in
        rw (e, All, rows_of) (whose, rows_of-read ns t d found)
  ]

  -- The release of copies leaves a failed row alone.
  release_parent-found :
      (d : Delivery) (parent : String) (w : World F)
      → d.status ≡ failed
      → F.find w.table n ≡ some d
      → F.find (release_parent F parent w).1.table n ≡ some d
  unfolding release_parent
  release_parent-found d parent w status found =
      elim (Bool-cases (row_is_terminal F parent w.table)) [
        | inl e ↦
            let idle : is_waiting_copy parent d ≡ false =
              rw status (and-false (optional_eq d.copy_of (some parent))) in
            rw e (release_waiting_copies-idle F L parent w n d found idle).1
        | inr e ↦ rw e found
      ]

  continue-found :
      (d : Delivery) (f : Unit {0} → World F → Result (Unit {0}) × World F)
      (r : Result (Unit {0}) × World F)
      → F.find r.1.table n ≡ some d
      → ((u : Unit {0}) (v : World F)
          → F.find v.table n ≡ some d
          → F.find (f u v).1.table n ≡ some d)
      → F.find (continue f r).1.table n ≡ some d
  continue-found d f (ok u, v) h k = k u v h
  continue-found d f (err e, v) h k = h

  releases-found :
      (d : Delivery) (ps : List String) (w : World F)
      → d.status ≡ failed
      → F.find w.table n ≡ some d
      → F.find (for_each ps (release_parent F) w).1.table n ≡ some d
  unfolding for_each
  releases-found d [] w status found = found
  releases-found d (p ∷ ps) w status found =
      continue-found d (λ _. for_each ps (release_parent F)) (release_parent F p w)
        (release_parent-found d p w status found) (λ _ v h. releases-found d ps v status h)

  -- No failed delivery is lost by the job that queues deliveries again, also where it raises in the
  -- middle because the queue cannot be reached: afterwards the delivery is queued and a worker will
  -- be given it, or it is still failed and due when it was before or at once, or it has used up its
  -- attempts.
  pub retry_due_messages-IsHandled :
      (w : World F) (d : Delivery)
      → F.find w.table n ≡ some d
      → d.status ≡ failed
      → IsHandled F n d (retry_due_messages F w).1
  unfolding retry_due_messages
  retry_due_messages-IsHandled w d found status =
      let held =
        distinct_from []
          (parents_of F (rows_of F (F.matching is_unreleased (some 50) w.table) w.table)) in
      after_release (for_each held (release_parent F) w) (releases-found d held w status found)
    where
      after_release :
          (r : Result (Unit {0}) × World F)
          → F.find r.1.table n ≡ some d
          → IsHandled F n d
              (continue
                (λ _ v.
                  for_each
                    (rows_of F (F.matching (is_due (F.clock v.tick)) (some 50) v.table) v.table)
                    (retry_row F)
                    (record v { tick = suc v.tick }))
                r).1
      after_release (err e, v) h = record { row = d; found = h; way = inr (inl (status, inl refl)) }
      after_release (ok u, v) h =
          rounds-IsHandled F n L d
            (rows_of F (F.matching (is_due (F.clock v.tick)) (some 50) v.table) v.table)
            (record v { tick = suc v.tick })
            (rows_of-read (F.matching (is_due (F.clock v.tick)) (some 50) v.table) v.table d h)
            (record { row = d; found = h; way = inr (inl (status, inl refl)) })
