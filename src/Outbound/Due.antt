-- ===== src/Outbound/Due.antt =====
-- What becomes of a failed delivery in the rounds of `retry_due_messages`
-- (erpnext_whatsapp_connection/outbound.py).
use text.Mathlib.TextPositions.{eq_refl}
use erpnext_whatsapp_connect.Base.{
  suc, ℕ, String, Bool, some, List, [], ◌∷◌, ◌++◌, ◌≡◌, ◌≢◌, ◌⊎◌, refl, sym, ap, ◌∙◌, subst, inl,
  inr, Bool-cases, Option-cases, true, false, true-ne-false, ◌||◌, leb_ℤ, str_eq, eq_iff, All,
  arith,
}
use erpnext_whatsapp_connect.Py.Action.{continue, for_each}
use erpnext_whatsapp_connect.Py.Result.{Result, ok, err}
use erpnext_whatsapp_connect.Site.Records.{Delivery, Job, queued, failed}
use erpnext_whatsapp_connect.Site.Frappe.{Frappe, IsLawful}
use erpnext_whatsapp_connect.Site.World.{World, update_row, enqueue}
use erpnext_whatsapp_connect.Site.Rows.{find-update_self, find-update_ne}
use erpnext_whatsapp_connect.Outbound.Worker.{attempt_limit}
use erpnext_whatsapp_connect.Outbound.Scheduler.{
  claim, reopen, give_up, retry_job, or_reopen, retry_row,
}

-- A worker will be given the delivery.
abbrev pub has_job : String → List Job → Bool
has_job n [] = false
has_job n (j ∷ js) = str_eq j.message_name n || has_job n js

has_job-append :
    (n : String) (j : Job) (js : List Job) → has_job n js ≡ true → has_job n (js ++ j ∷ []) ≡ true
has_job-append n j [] h = cc
has_job-append n j (x ∷ js) h = ground (arith, has_job-append n j js)

has_job-last : (j : Job) (js : List Job) → has_job j.message_name (js ++ j ∷ []) ≡ true
has_job-last j [] = rw (eq_refl j.message_name) refl
has_job-last j (x ∷ js) = ground (arith, has_job-last j js)

module _ (F : Frappe) (n : String) where
  -- A delivery that is queued again with a job, is still failed and due as before or at once, or has
  -- used up its attempts.
  abbrev pub Way : Delivery → Delivery → List Job → Type 0
  Way d row jobs =
      ((row.status ≡ queued) × (has_job n jobs ≡ true))
      ⊎ (((row.status ≡ failed)
            × ((row.next_retry_at ≡ d.next_retry_at)
                ⊎ ((k : ℕ) × (row.next_retry_at ≡ some (F.clock k)))))
          ⊎ ((row.status ≡ failed) × (leb_ℤ (attempt_limit d) d.retry_count ≡ true)))

  pub record IsHandled (d : Delivery) (w : World F) : Type 0 where
    pub row : Delivery
    pub found : F.find w.table n ≡ some row
    pub way : Way d row w.jobs

  more_jobs :
      (d row : Delivery) (js ks : List Job)
      → (has_job n js ≡ true → has_job n ks ≡ true)
      → Way d row js
      → Way d row ks
  more_jobs d row js ks h (inl (s, j)) = inl (s, h j)
  more_jobs d row js ks h (inr x) = inr x

  given_up :
      (d row : Delivery) (js : List Job)
      → leb_ℤ (attempt_limit d) d.retry_count ≡ true
      → Way d row js
      → Way d (give_up row) js
  given_up d row js h (inl x) = inl x
  given_up d row js h (inr (inl (s, _))) = inr (inr (s, h))
  given_up d row js h (inr (inr x)) = inr (inr x)

  module _ (L : IsLawful F) where
    -- What does not touch the row, and takes no job away.
    kept-IsHandled :
        (d : Delivery) (w v : World F)
        → IsHandled d w
        → F.find v.table n ≡ F.find w.table n
        → (has_job n w.jobs ≡ true → has_job n v.jobs ≡ true)
        → IsHandled d v
    kept-IsHandled d w v h same jobs = record {
      row = h.row;
      found = same ∙ h.found;
      way = more_jobs d h.row w.jobs v.jobs jobs h.way;
    }

    -- The end of a round: the row is queued, and its job is to be added.
    enqueued-IsHandled :
        (d x : Delivery) (j : Job) (w : World F)
        → F.find w.table n ≡ some x
        → x.status ≡ queued
        → j.message_name ≡ n
        → IsHandled d (or_reopen F n (enqueue F j w)).1
    unfolding enqueue
    enqueued-IsHandled d x j w found status name = elim (Option-cases (F.enqueue_error w.tick j)) [
      | inl e ↦
          rw (e, enqueue)
            (record {
              row = x;
              found = found;
              way = inl (
                status,
                ap (λ k. has_job k (w.jobs ++ j ∷ [])) (sym name) ∙ has_job-last j w.jobs,
              );
            })
      | inr (y, e) ↦
          let now = F.clock (suc w.tick) in
          rw (e, enqueue)
            (record {
              row = reopen now x;
              found = find-update_self F L (reopen now) w.table n x refl found;
              way = inr (inl (refl, inr (suc w.tick, refl)));
            })
    ]

    -- A round for another row.
    other-IsHandled :
        (d : Delivery) (m : String) (j : Job) (w : World F)
        → m ≢ n
        → IsHandled d w
        → IsHandled d (or_reopen F m (enqueue F j w)).1
    unfolding enqueue
    other-IsHandled d m j w other h = elim (Option-cases (F.enqueue_error w.tick j)) [
      | inl e ↦
          rw (e, enqueue)
            (record {
              row = h.row;
              found = h.found;
              way = more_jobs d h.row w.jobs (w.jobs ++ j ∷ []) (has_job-append n j w.jobs) h.way;
            })
      | inr (y, e) ↦
          rw (e, enqueue)
            (record {
              row = h.row;
              found =
                  find-update_ne F L (reopen (F.clock (suc w.tick))) w.table m n (λ x. refl) other
                  ∙ h.found;
              way = h.way;
            })
    ]

    abbrev claimed_in : String → World F → World F
    claimed_in m w = record w { table = update_row F m claim w.table }

    retry_row-IsHandled_same :
        (d : Delivery) (w : World F) → d.name ≡ n → IsHandled d w → IsHandled d (retry_row F d w).1
    unfolding retry_row
    retry_row-IsHandled_same d w name h =
        elim (Bool-cases (leb_ℤ (attempt_limit d) d.retry_count)) [
          | inl e ↦ rw e (
              subst (λ k. IsHandled d (record w { table = update_row F k give_up w.table }))
                (sym name)
                (record {
                  row = give_up h.row;
                  found = find-update_self F L give_up w.table n h.row refl h.found;
                  way = given_up d h.row w.jobs e h.way;
                }))
          | inr e ↦ rw e (
              subst
                (λ k. IsHandled d (or_reopen F k (enqueue F (retry_job F d) (claimed_in k w))).1)
                (sym name)
                (enqueued-IsHandled d (claim h.row) (retry_job F d) (claimed_in n w)
                  (find-update_self F L claim w.table n h.row refl h.found) refl name))
        ]

    retry_row-IsHandled_other :
        (d r : Delivery) (w : World F)
        → r.name ≢ n
        → IsHandled d w
        → IsHandled d (retry_row F r w).1
    unfolding retry_row
    retry_row-IsHandled_other d r w other h =
        elim (Bool-cases (leb_ℤ (attempt_limit r) r.retry_count)) [
          | inl e ↦ rw e (
              kept-IsHandled d w (record w { table = update_row F r.name give_up w.table }) h
                (find-update_ne F L give_up w.table r.name n (λ x. refl) other) (λ x. x))
          | inr e ↦ rw e (
              other-IsHandled d r.name (retry_job F r) (claimed_in r.name w) other (
                kept-IsHandled d w (claimed_in r.name w) h
                  (find-update_ne F L claim w.table r.name n (λ x. refl) other) (λ x. x)))
        ]

    -- A round for the row itself works on the row as the query has read it.
    retry_row-IsHandled :
        (d r : Delivery) (w : World F)
        → (r.name ≡ n → r ≡ d)
        → IsHandled d w
        → IsHandled d (retry_row F r w).1
    retry_row-IsHandled d r w read h = elim (Bool-cases (str_eq r.name n)) [
      | inl e ↦
          let name = (eq_iff r.name n).0 e in
          let same = read name in
          subst (λ x. IsHandled d (retry_row F x w).1) (sym same)
            (retry_row-IsHandled_same d w (ap (λ x. x.name) (sym same) ∙ name) h)
      | inr e ↦
          retry_row-IsHandled_other d r w
            (λ same. true-ne-false (str_eq r.name n) ((eq_iff r.name n).1 same) e) h
    ]

    continue-IsHandled :
        (d : Delivery) (f : Unit {0} → World F → Result (Unit {0}) × World F)
        (r : Result (Unit {0}) × World F)
        → IsHandled d r.1
        → ((u : Unit {0}) (v : World F) → IsHandled d v → IsHandled d (f u v).1)
        → IsHandled d (continue f r).1
    continue-IsHandled d f (ok u, v) h k = k u v h
    continue-IsHandled d f (err e, v) h k = h

    pub rounds-IsHandled :
        (d : Delivery) (rs : List Delivery) (w : World F)
        → All (λ r. r.name ≡ n → r ≡ d) rs
        → IsHandled d w
        → IsHandled d (for_each rs (retry_row F) w).1
    unfolding for_each
    rounds-IsHandled d [] w read h = h
    rounds-IsHandled d (r ∷ rs) w (first, read) h =
        continue-IsHandled d (λ _. for_each rs (retry_row F)) (retry_row F r w)
          (retry_row-IsHandled d r w first h) (λ _ v k. rounds-IsHandled d rs v read k)
