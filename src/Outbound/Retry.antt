-- ===== src/Outbound/Retry.antt =====
-- When a delivery that failed is tried again (erpnext_whatsapp_connection/outbound.py).
use erpnext_whatsapp_connect.Base.{
  ℕ, suc, Bool, true, false, not, ◌&&◌, none, some, ◌≡◌, refl, ◌⊎◌, inl, inr, ◌∙◌, sym, ap, ℤ, pos,
  negsuc, ◌+ℤ◌, max_ℤ, ◌≤ℤ◌, ltb_ℤ, arith,
}
use mathlib.Core.Option.{some-injective}
use erpnext_whatsapp_connect.Site.Records.{Delivery, failed}
use erpnext_whatsapp_connect.Site.Frappe.{Frappe}
use erpnext_whatsapp_connect.Outbound.Worker.{attempt_limit, may_retry, retry_delay}
use erpnext_whatsapp_connect.Outbound.Outcome.{
  Submitted, Planned, Outcome, delay_after, retry_delay-after,
}

-- The delivery is not held for reconciliation, and has made no more attempts than it has retries.
abbrev pub HasRetry : Delivery → Type 0
HasRetry d = (d.reconciliation_required ≡ false) × (d.retry_count ≤ℤ d.max_retries)

limit_lem :
    (n : ℕ) (m : ℤ) → ltb_ℤ (pos (suc n)) (max_ℤ (pos 1) (m +ℤ pos 1)) ≡ true → pos (suc n) ≤ℤ m
unfolding max_ℤ ◌+ℤ◌
limit_lem n (pos m) h = ground arith
limit_lem n (negsuc m) h = ground arith

limit_back :
    (n : ℕ) (m : ℤ) → pos (suc n) ≤ℤ m → ltb_ℤ (pos (suc n)) (max_ℤ (pos 1) (m +ℤ pos 1)) ≡ true
unfolding max_ℤ ◌+ℤ◌
limit_back n (pos m) h = ground arith
limit_back n (negsuc m) h = ground arith

and-parts : (b c : Bool) → (not b && c) ≡ true → (b ≡ false) × (c ≡ true)
and-parts b c h = ground arith

and-both : (b c : Bool) → b ≡ false → c ≡ true → (not b && c) ≡ true
and-both b c h k = ground arith

may_retry_sound :
    (d : Delivery) (n : ℕ) → d.retry_count ≡ pos (suc n) → may_retry d ≡ true → HasRetry d
unfolding attempt_limit
may_retry_sound d n count h =
    let (free, below) = and-parts d.reconciliation_required _ h in
    (free, rw count (limit_lem n d.max_retries (rw count at below)))

may_retry_complete :
    (d : Delivery) (n : ℕ) → d.retry_count ≡ pos (suc n) → HasRetry d → may_retry d ≡ true
unfolding attempt_limit
may_retry_complete d n count (free, left) =
    and-both d.reconciliation_required _ free
      (rw count (limit_back n d.max_retries (rw count at left)))

module _ (F : Frappe) where
  -- After attempt number n + 1 the next one is due the delay after some look at the clock if the
  -- delivery has a retry, and none is due otherwise.
  abbrev pub IsScheduled : ℕ → Delivery → Type 0
  IsScheduled n d =
      (HasRetry d → (k : ℕ) × (d.next_retry_at ≡ some (F.add_to_date (F.clock k) (delay_after n))))
      × (¬ HasRetry d → d.next_retry_at ≡ none)

  -- What an attempt leaves: a submitted row, or a failed one with its schedule.
  abbrev pub Verdict : ℕ → Delivery → Type 0
  Verdict n d = Submitted F d ⊎ ((d.status ≡ failed) × IsScheduled n d)

  Planned-IsScheduled :
      (d : Delivery) (n : ℕ) → d.retry_count ≡ pos (suc n) → Planned F d → IsScheduled n d
  Planned-IsScheduled d n count (yes_plan, no_plan) = (
    (λ r.
        let (k, delay, found, due) = yes_plan (may_retry_complete d n count r) in
        let same : some delay ≡ some (delay_after n) =
          sym found ∙ (ap retry_delay count ∙ retry_delay-after n) in
        (
          k,
          due
              ∙ ap (λ s. some (F.add_to_date (F.clock k) s))
                  (some-injective delay (delay_after n) same),
        )),
    (λ none_left. no_plan (not_true (may_retry d) (λ e. none_left (may_retry_sound d n count e)))),
  )
    where
      not_true : (b : Bool) → ¬ (b ≡ true) → b ≡ false
      not_true true h = absurd (h refl)
      not_true false h = refl

  pub Outcome-Verdict :
      (d : Delivery) (n : ℕ) → d.retry_count ≡ pos (suc n) → Outcome F d → Verdict n d
  Outcome-Verdict d n count (inl h) = inl h
  Outcome-Verdict d n count (inr (status, plan)) = inr (status, Planned-IsScheduled d n count plan)
