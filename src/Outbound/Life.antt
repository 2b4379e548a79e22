-- ===== src/Outbound/Life.antt =====
-- The life of a delivery, as a machine with three kinds of states, and the worker that follows it
-- (erpnext_whatsapp_connection/outbound.py).
use erpnext_whatsapp_connect.Base.{
  ℕ, String, Bool, some, ◌≡◌, ◌⊎◌, refl, sym, ap, ◌∙◌, subst, inl, inr, Bool-cases, true, false,
  not, ◌||◌, ◌&&◌, leb_ℤ, ℤ, pos, ◌+ℤ◌, if◌then◌else◌, arith,
}
use erpnext_whatsapp_connect.Py.Result.{Result, Result-cases}
use erpnext_whatsapp_connect.Site.Records.{
  Delivery, Status, queued, waiting, submitted, failed, acknowledged, processing, other, is_group,
}
use erpnext_whatsapp_connect.Site.Frappe.{Frappe, IsLawful}
use erpnext_whatsapp_connect.Site.World.{World}
use erpnext_whatsapp_connect.Site.Rows.{find-put_self}
use erpnext_whatsapp_connect.History.{validate, save, is_terminal, optional_eq}
use erpnext_whatsapp_connect.Groups.Copy.{
  is_waiting_copy, is_releasable, release, release_waiting_copies,
}
use erpnext_whatsapp_connect.Groups.Release.{IsReleased, release_waiting_copies_lem}
use erpnext_whatsapp_connect.Outbound.Worker.{
  claimed, exhausted, release_after, attempt_limit, process, process_outbound_message,
}
use erpnext_whatsapp_connect.Outbound.Outcome.{SameRow}
use erpnext_whatsapp_connect.Outbound.Retry.{Verdict}
use erpnext_whatsapp_connect.Outbound.Total.{
  IsWellFormed, IsReady, process_outbound_message_attempts,
}
use erpnext_whatsapp_connect.Outbound.Runs.{ticked, IsStarted, DoesOne, process-DoesOne}

-- A delivery is open with a number of attempts made, delivered, or held until someone reconciles it.
pub data Life : Type 0 where
  pending : ℤ → Life
  delivered held : Life

-- An attempt is made only below the limit; it delivers, fails and counts, or holds the delivery.
pub data LifeStep (limit : ℤ) : Life → Life → Type 0 where
  deliver : (n : ℤ) → leb_ℤ limit n ≡ false → LifeStep limit (pending n) delivered
  fail : (n : ℤ) → leb_ℤ limit n ≡ false → LifeStep limit (pending n) (pending (n +ℤ pos 1))
  hold : (n : ℤ) → leb_ℤ limit n ≡ false → LifeStep limit (pending n) held

-- What of a stored row the machine sees.
abbrev pub life : Delivery → Life
life d =
    if is_terminal d.status
    then delivered
    else (if d.reconciliation_required then held else pending d.retry_count)

-- A run leaves the machine where it is, or makes one step of it.
abbrev pub Follows : Delivery → Delivery → Type 0
Follows d d' = (life d' ≡ life d) ⊎ LifeStep (attempt_limit d) (life d) (life d')

releasable-open : (s : Status) → is_releasable s ≡ true → is_terminal s ≡ false
releasable-open queued h = refl
releasable-open waiting h = refl
releasable-open submitted h = cc
releasable-open acknowledged h = cc
releasable-open processing h = cc
releasable-open failed h = cc
releasable-open (other s) h = cc

and-second : (b c : Bool) → (b && c) ≡ true → c ≡ true
and-second b c h = ground arith

or-first : (b c : Bool) → (b || c) ≡ false → b ≡ false
or-first b c h = ground arith

-- A release does not move the machine.
life-release :
    (p : String) (d : Delivery) → life (if is_waiting_copy p d then release d else d) ≡ life d
life-release p d = elim (Bool-cases (is_waiting_copy p d)) [
  | inl e ↦
      let idle = releasable-open d.status (and-second (optional_eq d.copy_of (some p)) _ e) in
      rw (e, idle) refl
  | inr e ↦ rw e refl
]

life-open :
    (d : Delivery)
    → is_terminal d.status ≡ false
    → d.reconciliation_required ≡ false
    → life d ≡ pending d.retry_count
life-open d h k = rw (h, k) refl

life-failed :
    (d : Delivery) → d.status ≡ failed → (life d ≡ held) ⊎ (life d ≡ pending d.retry_count)
life-failed d h = elim (Bool-cases d.reconciliation_required) [
  | inl e ↦ inl (rw (h, e) refl)
  | inr e ↦ inr (rw (h, e) refl)
]

life-submitted : (d : Delivery) → d.status ≡ submitted → life d ≡ delivered
life-submitted d h = rw h refl

module _ (F : Frappe) (L : IsLawful F) where
  -- The row of a name after a run, and how it follows from the row before.
  abbrev Leaves : String → Delivery → World F → Type 0
  Leaves n d v = (d' : Delivery) × (F.find v.table n ≡ some d') × Follows d d'

  IsReleased-Leaves :
      (n : String) (d : Delivery) (p : String) (r : Result (Unit {0}) × World F)
      → IsReleased F (is_waiting_copy p d) d r.0 (F.find r.1.table n)
      → Leaves n d r.1
  IsReleased-Leaves n d p r (inl (_, row)) =
      ((if is_waiting_copy p d then release d else d), row, inl (life-release p d))
  IsReleased-Leaves n d p r (inr (_, inl row)) = (d, row, inl refl)
  IsReleased-Leaves n d p r (inr (_, inr (e, row))) =
      (release d, row, inl (rw e at (life-release p d)))

  release_after-Leaves :
      (n : String) (d : Delivery) (w : World F)
      → F.find w.table n ≡ some d
      → Leaves n d (release_after F d w).1
  unfolding release_after
  release_after-Leaves n d w found =
      elim (Bool-cases (is_terminal d.status && not (is_group d.recipient_type))) [
        | inl e ↦ rw e (
            IsReleased-Leaves n d d.name (release_waiting_copies F d.name w)
              (release_waiting_copies_lem F L d.name w n d found))
        | inr e ↦ rw e (d, found, inl refl)
      ]

  save-Leaves :
      (d x : Delivery) (w : World F)
      → F.find w.table x.name ≡ some d
      → life x ≡ life d
      → Leaves x.name d (save F x w).1
  unfolding save
  save-Leaves d x w found same = elim (Result-cases (validate (F.find w.table x.name) x)) [
    | inl (_, e) ↦ rw (e, save) (x, find-put_self F L w.table x, inl same)
    | inr (_, e) ↦ rw (e, save) (d, found, inl refl)
  ]

  -- An attempt below the limit is a step of the machine.
  attempted-Follows :
      (d done : Delivery) (made now : ℕ) (w : World F)
      → IsReady F d w
      → SameRow (claimed d now) done
      → Verdict F made done
      → Follows d done
  attempted-Follows d done made now w ready same verdict =
      let opened =
        life-open d (or-first (is_terminal d.status) _ ready.open_status)
          (or-first d.reconciliation_required _ ready.free) in
      subst (λ l. (life done ≡ l) ⊎ LifeStep (attempt_limit d) l (life done)) (sym opened)
        (inr (by_verdict verdict))
    where
      by_verdict :
          Verdict F made done → LifeStep (attempt_limit d) (pending d.retry_count) (life done)
      by_verdict (inl sent) =
          subst (LifeStep (attempt_limit d) (pending d.retry_count))
            (sym (life-submitted done sent.0)) (deliver d.retry_count ready.attempts_left)
      by_verdict (inr (status, _)) = elim (life-failed done status) [
        | inl e ↦
            subst (LifeStep (attempt_limit d) (pending d.retry_count)) (sym e)
              (hold d.retry_count ready.attempts_left)
        | inr e ↦
            subst (LifeStep (attempt_limit d) (pending d.retry_count))
              (sym (e ∙ ap pending same.retry_count)) (fail d.retry_count ready.attempts_left)
      ]

  exhausted-life : (d : Delivery) → IsStarted F L d false → life (exhausted d) ≡ life d
  exhausted-life d h = rw (or-first (is_terminal d.status) _ h) refl

  -- A worker's run on a well-formed delivery, whatever the transport does, follows the life of a
  -- delivery: it leaves the delivery where it was, or it makes one attempt, which the limit allows
  -- and which delivers it, counts as a failure, or holds it until someone has reconciled it.
  pub process_outbound_message-Follows :
      (w : World F) (n : String) (d : Delivery) (made : ℕ)
      → F.find w.table n ≡ some d
      → IsWellFormed d made
      → (d' : Delivery) × (F.find (process_outbound_message F n w).1.table n ≡ some d')
        × Follows d d'
  unfolding process_outbound_message
  process_outbound_message-Follows w n d made found good =
      let ran : process_outbound_message F n w ≡ process F d w =
        rw (found, process_outbound_message) refl in
      by_case (process F d w) ran (process-DoesOne F L d w)
    where
      by_case :
          (r : Result (Unit {0}) × World F)
          → process_outbound_message F n w ≡ r
          → DoesOne F L d w r
          → Leaves n d (process_outbound_message F n w).1
      by_case r ran (inl e) =
          subst (λ (x : Result (Unit {0}) × World F). Leaves n d x.1) (sym (ran ∙ e))
            (release_after-Leaves n d w found)
      by_case r ran (inr (inl e)) =
          (d, ap (λ t. F.find t n) (ap (λ x. x.1.table) ran ∙ e) ∙ found, inl refl)
      by_case r ran (inr (inr (inl (e, started)))) =
          let name : d.name ≡ n = L.find-name w.table n d found in
          subst (λ (x : Result (Unit {0}) × World F). Leaves n d x.1) (sym (ran ∙ e))
            (subst (λ k. Leaves k d (save F (exhausted d) (ticked F L w)).1) name
              (save-Leaves d (exhausted d) (ticked F L w) (ap (λ k. F.find w.table k) name ∙ found)
                (exhausted-life d started)))
      by_case r ran (inr (inr (inr (_, ready)))) =
          let (_, (done, same, verdict, there)) =
            process_outbound_message_attempts F L w n d made found good ready in
          (done, there, attempted-Follows d done made (F.clock w.tick) w ready same verdict)
