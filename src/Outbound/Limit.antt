-- ===== src/Outbound/Limit.antt =====
-- How often a delivery is sent, over any run of the site (erpnext_whatsapp_connection/outbound.py).
use mathlib.Core.Option.{some-injective}
use erpnext_whatsapp_connect.Base.{
  ℕ, suc, ◌+◌, ◌-◌, ◌≤◌, String, some, List, [], ◌∷◌, ◌++◌, length, length-append_one, ◌≡◌, ◌≢◌,
  refl, sym, ap, ◌∙◌, subst, inl, inr, Bool-cases, false, str_eq, eq_iff, pos, ℤ, true-ne-false,
  ◌≤ℤ◌, leb_ℤ, max_ℤ, if◌then◌else◌, arith, int_laws,
}
use erpnext_whatsapp_connect.Site.Records.{Delivery}
use erpnext_whatsapp_connect.Site.Frappe.{Frappe, IsLawful}
use erpnext_whatsapp_connect.Site.World.{World}
use erpnext_whatsapp_connect.Outbound.Worker.{attempt_limit, process_outbound_message}
use erpnext_whatsapp_connect.Outbound.Scheduler.{scheduled_maintenance}
use erpnext_whatsapp_connect.Outbound.Total.{
  pos-suc, IsWellFormed, IsReady, process_outbound_message_attempts,
}
use erpnext_whatsapp_connect.Outbound.Sends.{process_outbound_message_sends}
use erpnext_whatsapp_connect.Outbound.Budget.{KeepsBudget, KeepsBudget-table}
use erpnext_whatsapp_connect.Outbound.Kept.{scheduled_maintenance-SameBudget}
use erpnext_whatsapp_connect.Outbound.Runs.{
  process_outbound_message-KeepsBudget_other, process_outbound_message-KeepsBudget_same,
}

module _ (F : Frappe) (n : String) where
  -- A step of the site, for one delivery: a worker takes a job of whatever delivery, the job of each
  -- minute runs, or something else happens that leaves the delivery's budget alone.
  pub data Step : World F → World F → Type 0 where
    work : (m : String) (w : World F) → Step w (process_outbound_message F m w).1
    maintain : (w : World F) → Step w (scheduled_maintenance F w).1
    elsewhere : (w v : World F) → KeepsBudget F n w v → Step w v

  pub data Steps (w : World F) : World F → Type 0 where
    start : Steps w w
    next : {u v : World F} → Steps w u → Step u v → Steps w v

  -- What the worker's runs for the delivery have put into the log.
  abbrev pub sent_by : {w v : World F} → Step w v → ℕ
  sent_by (work m w) =
      if str_eq m n then length (process_outbound_message F m w).1.log - length w.log else 0
  sent_by (maintain w) = 0
  sent_by (elsewhere w v h) = 0

  abbrev pub sends : {w v : World F} → Steps w v → ℕ
  sends start = 0
  sends (next s t) = sends s + sent_by t

  -- The delivery after a step or a run: so many attempts more than sends, and none beyond the limit.
  abbrev Spent : Delivery → ℕ → ℕ → World F → Type 0
  Spent d made k v =
      (d' : Delivery) × (made' : ℕ) × (F.find v.table n ≡ some d')
      × IsWellFormed d' made'
      × (d'.max_retries ≡ d.max_retries)
      × (made + k ≤ made')
      × (pos made' ≤ℤ max_ℤ (pos made) (attempt_limit d))

same_length : {A : Type 0} (xs ys : List A) → ys ≡ xs → length ys - length xs ≡ 0
same_length xs ys h = rw h (omega arith)

one_longer : {A : Type 0} (xs ys : List A) (x : A) → ys ≡ xs ++ x ∷ [] → length ys - length xs ≤ 1
one_longer xs ys x h = rw h (omega (arith, length-append_one xs x))

below_limit : (made : ℕ) (l : ℤ) → leb_ℤ l (pos made) ≡ false → pos (suc made) ≤ℤ max_ℤ (pos made) l
unfolding max_ℤ
below_limit made l h = ground arith

at_limit : (made : ℕ) (l : ℤ) → pos made ≤ℤ max_ℤ (pos made) l
at_limit made l = grind int_laws

limit_same : (d d' : Delivery) → d'.max_retries ≡ d.max_retries → attempt_limit d' ≡ attempt_limit d
unfolding attempt_limit
limit_same d d' h = rw h refl

at_most : (a b : ℕ) (l : ℤ) → a ≤ b → pos b ≤ℤ l → pos a ≤ℤ l
at_most a b l h k = omega arith

max_grows :
    (a b c : ℕ) (l : ℤ)
    → pos b ≤ℤ max_ℤ (pos a) l
    → pos c ≤ℤ max_ℤ (pos b) l
    → pos c ≤ℤ max_ℤ (pos a) l
unfolding max_ℤ
max_grows a b c l h k = ground arith

module _ (F : Frappe) (L : IsLawful F) (n : String) where
  -- A step that keeps the budget sends nothing for the delivery.
  keeps-Spent :
      (d : Delivery) (made : ℕ) (w v : World F)
      → F.find w.table n ≡ some d
      → IsWellFormed d made
      → KeepsBudget F n w v
      → Spent F n d made 0 v
  keeps-Spent d made w v found good h =
      let (d', there, (count, retries, doc, rep)) = h d found in
      (
        d',
        made,
        there,
        record {
          document = doc ∙ good.document;
          report = rep ∙ good.report;
          attempts = count ∙ good.attempts;
        },
        retries,
        omega arith,
        at_limit made (attempt_limit d),
      )

  -- A run on a ready row makes one attempt.
  ready-Spent :
      (d : Delivery) (made k : ℕ) (w : World F)
      → F.find w.table n ≡ some d
      → IsWellFormed d made
      → IsReady F d w
      → k ≤ 1
      → Spent F n d made k (process_outbound_message F n w).1
  ready-Spent d made k w found good ready h =
      let (_, (done, same, _, there)) =
        process_outbound_message_attempts F L w n d made found good ready in
      (
        done,
        suc made,
        there,
        record {
          document = same.document ∙ good.document;
          report = same.report ∙ good.report;
          attempts = same.retry_count ∙ rw good.attempts (pos-suc made);
        },
        same.max_retries,
        omega arith,
        below_limit made (attempt_limit d)
            (ap (leb_ℤ (attempt_limit d)) (sym good.attempts) ∙ ready.attempts_left),
      )

  work-Spent :
      (d : Delivery) (made : ℕ) (w : World F)
      → F.find w.table n ≡ some d
      → IsWellFormed d made
      → Spent F n d made
          (length (process_outbound_message F n w).1.log - length w.log)
          (process_outbound_message F n w).1
  work-Spent d made w found good =
      let w' = (process_outbound_message F n w).1 in
      elim (process_outbound_message_sends F w n) [
        | inr (e, x, grown, at, ready) ↦
            let same = some-injective x d (sym at ∙ found) in
            ready-Spent d made _ w found good (subst (λ y. IsReady F y w) same ready)
              (one_longer w.log w'.log e grown)
        | inl e ↦
            let quiet = same_length w.log w'.log e in
            elim (process_outbound_message-KeepsBudget_same F L n d w found) [
              | inl keeps ↦
                  subst (λ k. Spent F n d made k w') (sym quiet)
                    (keeps-Spent d made w w' found good keeps)
              | inr ready ↦ ready-Spent d made _ w found good ready (rw quiet (omega arith))
            ]
      ]

  Step-Spent :
      {w v : World F} (t : Step F n w v) (d : Delivery) (made : ℕ)
      → F.find w.table n ≡ some d
      → IsWellFormed d made
      → Spent F n d made (sent_by F n t) v
  Step-Spent (work m w) d made found good = elim (Bool-cases (str_eq m n)) [
    | inl e ↦
        let sent : World F → String → ℕ =
          λ u k. length (process_outbound_message F k u).1.log - length u.log in
        rw e (
          subst (λ k. Spent F n d made (sent w k) (process_outbound_message F k w).1)
            (sym ((eq_iff m n).0 e)) (work-Spent d made w found good))
    | inr e ↦
        let other : m ≢ n = λ same. true-ne-false _ ((eq_iff m n).1 same) e in
        rw e (
          keeps-Spent d made w (process_outbound_message F m w).1 found good
            (process_outbound_message-KeepsBudget_other F L n m w other))
  ]
  Step-Spent (maintain w) d made found good =
      keeps-Spent d made w (scheduled_maintenance F w).1 found good
        (scheduled_maintenance-SameBudget F L n w)
  Step-Spent (elsewhere w v h) d made found good = keeps-Spent d made w v found good h

  Steps-Spent :
      {w v : World F} (s : Steps F n w v) (d : Delivery) (made : ℕ)
      → F.find w.table n ≡ some d
      → IsWellFormed d made
      → Spent F n d made (sends F n s) v
  Steps-Spent {w = w} start d made found good =
      keeps-Spent d made w w found good (KeepsBudget-table F n w w refl)
  Steps-Spent {v = v} (next s t) d made found good =
      let (d1, made1, there, good1, retries1, spent1, left1) = Steps-Spent s d made found good in
      let (d2, made2, here, good2, retries2, spent2, left2) = Step-Spent t d1 made1 there good1 in
      (
        d2,
        made2,
        here,
        good2,
        retries2 ∙ retries1,
        omega arith,
        max_grows made made1 made2 (attempt_limit d) left1
            (subst (λ l. pos made2 ≤ℤ max_ℤ (pos made1) l) (limit_same d d1 retries1) left2),
      )

  -- However workers, the job of each minute and whatever else leaves the delivery's budget alone
  -- follow each other, on a site whose tables behave as documented: a well-formed delivery reaches a
  -- transport no more often than its limit allows, the attempts made before counted in. A delivery
  -- that has already spent more is not sent at all.
  pub Steps_limit :
      {w v : World F} (s : Steps F n w v) (d : Delivery) (made : ℕ)
      → F.find w.table n ≡ some d
      → IsWellFormed d made
      → pos (made + sends F n s) ≤ℤ max_ℤ (pos made) (attempt_limit d)
  Steps_limit s d made found good =
      let (_, made', _, _, _, spent, left) = Steps-Spent s d made found good in
      at_most (made + sends F n s) made' _ spent left
