-- ===== src/Groups/Release.antt =====
-- Which rows the release of waiting copies changes (erpnext_whatsapp_connection/company_groups.py).
use mathlib.Core.Option.{some-injective}
use erpnext_whatsapp_connect.Base.{
  ℕ, ap, ◌⊎◌, ◌||◌, String, Bool, true, false, Option, none, some, List, [], ◌∷◌, ◌≡◌, refl, sym,
  subst, All, contains, str_eq, inl, inr, Bool-cases, true-ne-false, if◌then◌else◌, eq_iff, ◌∙◌,
}
use erpnext_whatsapp_connect.Py.Result.{Error, Result, ok, err, err-ne-ok, Result-cases}
use erpnext_whatsapp_connect.Py.Action.{continue, for_each}
use erpnext_whatsapp_connect.Site.Records.{Delivery}
use erpnext_whatsapp_connect.Site.Frappe.{Frappe, IsLawful}
use erpnext_whatsapp_connect.Site.World.{World, update_row}
use erpnext_whatsapp_connect.Site.Rows.{find-update_self, find-update_ne}
use erpnext_whatsapp_connect.Groups.Copy.{
  release, release_job, release_copy, release_waiting_copies, is_waiting_copy,
}

module _ (F : Frappe) where
  -- What the queue raises when it is asked for the job of a release.
  abbrev pub IsQueueError : Result (Unit {0}) → Type 0
  IsQueueError r =
      (e : Error) × (k : ℕ) × (n : String) × (r ≡ err e)
      × (F.is_job_enqueued k (release_job F n) ≡ err e)

  -- It ends well, or raises what the queue raised.
  abbrev pub EndsOrQueue : Result (Unit {0}) → Type 0
  EndsOrQueue r = (r ≡ ok tt) ⊎ IsQueueError r

  pub release_copy-EndsOrQueue : (n : String) (w : World F) → EndsOrQueue (release_copy F n w).0
  unfolding release_copy
  release_copy-EndsOrQueue n w = elim (Result-cases (F.is_job_enqueued w.tick (release_job F n))) [
    | inl (true, e) ↦ rw (e, release_copy) (inl refl)
    | inl (false, e) ↦ rw (e, release_copy) (inl refl)
    | inr (x, e) ↦ rw (e, release_copy) (inr (x, w.tick, n, refl, e))
  ]

  -- Whatever the queue says, the row is written and nothing leaves the site.
  pub release_copy-frame :
      (n : String) (w : World F)
      → ((release_copy F n w).1.table ≡ update_row F n release w.table)
        × ((release_copy F n w).1.log ≡ w.log)
  unfolding release_copy
  release_copy-frame n w = elim (Result-cases (F.is_job_enqueued w.tick (release_job F n))) [
    | inl (true, e) ↦ rw (e, release_copy) (refl, refl)
    | inl (false, e) ↦ rw (e, release_copy) (refl, refl)
    | inr (x, e) ↦ rw (e, release_copy) (refl, refl)
  ]

  -- How a row ends that is to be released or not: as it should, or, where the queue failed on the way,
  -- as it was or as it should.
  abbrev pub IsReleased : Bool → Delivery → Result (Unit {0}) → Option Delivery → Type 0
  IsReleased b d r row =
      ((r ≡ ok tt) × (row ≡ some (if b then release d else d)))
      ⊎ (IsQueueError r × ((row ≡ some d) ⊎ ((b ≡ true) × (row ≡ some (release d)))))

  -- A row that was released before.
  IsReleased-again :
      (b : Bool) (d : Delivery) (r : Result (Unit {0})) (row : Option Delivery)
      → IsReleased b (release d) r row
      → IsReleased true d r row
  IsReleased-again true d r row (inl h) = inl h
  IsReleased-again false d r row (inl h) = inl h
  IsReleased-again b d r row (inr (f, inl h)) = inr (f, inr (refl, h))
  IsReleased-again b d r row (inr (f, inr (_, h))) = inr (f, inr (refl, h))

  -- A row that is not to be released stays, and in any case the release raises only by the queue.
  pub IsReleased-idle :
      (d : Delivery) (r : Result (Unit {0})) (row : Option Delivery)
      → IsReleased false d r row
      → EndsOrQueue r × (row ≡ some d)
  IsReleased-idle d r row (inl (e, h)) = (inl e, h)
  IsReleased-idle d r row (inr (f, inl h)) = (inr f, h)
  IsReleased-idle d r row (inr (f, inr (e, h))) = absurd (true-ne-false false e refl)

module _ (F : Frappe) (L : IsLawful F) where
  release_step :
      (n m : String) (d : Delivery) (w : World F)
      → F.find w.table m ≡ some d
      → F.find (release_copy F n w).1.table m ≡ some (if str_eq m n then release d else d)
  release_step n m d w h =
      ap (λ t. F.find t m) (release_copy-frame F n w).0 ∙ (elim (Bool-cases (str_eq m n)) [
        | inl e ↦
            let same : m ≡ n = (eq_iff m n).0 e in
            rw e (
              subst (λ k. F.find (update_row F n release w.table) k ≡ some (release d)) (sym same)
                (find-update_self F L release w.table n d refl
                  (subst (λ k. F.find w.table k ≡ some d) same h)))
        | inr e ↦ rw e (
            find-update_ne F L release w.table n m (λ _. refl)
              (λ x. true-ne-false _ ((eq_iff m n).1 (sym x)) e)
            ∙ h)
      ])

  -- The rest of a release, after the round of one copy.
  after-IsReleased :
      (ns : List String) (n m : String) (d : Delivery) (r : Result (Unit {0}) × World F)
      → EndsOrQueue F r.0
      → F.find r.1.table m ≡ some (if str_eq m n then release d else d)
      → ((x : Delivery) (v : World F)
          → F.find v.table m ≡ some x
          → let s = for_each ns (release_copy F) v in
            IsReleased F (contains m ns) x s.0 (F.find s.1.table m))
      → let s = continue (λ _. for_each ns (release_copy F)) r in
        IsReleased F (str_eq m n || contains m ns) d s.0 (F.find s.1.table m)
  after-IsReleased ns n m d (ok u, v) _ row rest = elim (Bool-cases (str_eq m n)) [
    | inl e ↦ rw e (
        let s = for_each ns (release_copy F) v in
        IsReleased-again F (contains m ns) d s.0 (F.find s.1.table m)
          (rest (release d) v (rw e at row)))
    | inr e ↦ rw e (rest d v (rw e at row))
  ]
  after-IsReleased ns n m d (err x, v) (inl quiet) row rest = absurd (err-ne-ok x tt quiet)
  after-IsReleased ns n m d (err x, v) (inr f) row rest = elim (Bool-cases (str_eq m n)) [
    | inl e ↦ rw e (inr (f, inr (refl, rw e at row)))
    | inr e ↦ rw e (inr (f, inl (rw e at row)))
  ]

  release_all-IsReleased :
      (ns : List String) (m : String) (d : Delivery) (w : World F)
      → F.find w.table m ≡ some d
      → let r = for_each ns (release_copy F) w in
        IsReleased F (contains m ns) d r.0 (F.find r.1.table m)
  unfolding for_each
  release_all-IsReleased [] m d w h = inl (refl, h)
  release_all-IsReleased (n ∷ ns) m d w h =
      after-IsReleased ns n m d (release_copy F n w) (release_copy-EndsOrQueue F n w)
        (release_step n m d w h) (λ x v found. release_all-IsReleased ns m x v found)

  -- Only rows that the query selected are in its answer.
  not_selected :
      (p : Delivery → Bool) (t : F.Table) (ns : List String) (m : String) (d : Delivery)
      → F.find t m ≡ some d
      → p d ≡ false
      → All (λ n. (x : Delivery) × (F.find t n ≡ some x) × (p x ≡ true)) ns
      → contains m ns ≡ false
  not_selected p t [] m d h k a = refl
  not_selected p t (n ∷ ns) m d h k ((x, found, yes'), a) = elim (Bool-cases (str_eq m n)) [
    | inl e ↦
        let same : m ≡ n = (eq_iff m n).0 e in
        let x_is_d : some x ≡ some d = sym found ∙ (subst (λ j. F.find t j ≡ some d) same h) in
        absurd (true-ne-false (p d) (rw (some-injective x d x_is_d) at yes') k)
    | inr e ↦ rw e (not_selected p t ns m d h k a)
  ]

  contains-waiting :
      (primary m : String) (d : Delivery) (t : F.Table)
      → F.find t m ≡ some d
      → contains m (F.matching (is_waiting_copy primary) none t) ≡ is_waiting_copy primary d
  contains-waiting primary m d t h = elim (Bool-cases (is_waiting_copy primary d)) [
    | inl e ↦ rw e (L.matching_complete (is_waiting_copy primary) t m d h e)
    | inr e ↦ rw e (
        not_selected (is_waiting_copy primary) t (F.matching (is_waiting_copy primary) none t) m d h
          e (L.matching_sound (is_waiting_copy primary) none t))
  ]

  pub release_waiting_copies_lem :
      (primary : String) (w : World F) (m : String) (d : Delivery)
      → F.find w.table m ≡ some d
      → let r = release_waiting_copies F primary w in
        IsReleased F (is_waiting_copy primary d) d r.0 (F.find r.1.table m)
  unfolding release_waiting_copies
  release_waiting_copies_lem primary w m d h =
      let names = F.matching (is_waiting_copy primary) none w.table in
      let r = for_each names (release_copy F) w in
      subst (λ b. IsReleased F b d r.0 (F.find r.1.table m))
        (contains-waiting primary m d w.table h) (release_all-IsReleased names m d w h)

  -- A row that is no such copy stays.
  pub release_waiting_copies-idle :
      (primary : String) (w : World F) (m : String) (d : Delivery)
      → F.find w.table m ≡ some d
      → is_waiting_copy primary d ≡ false
      → EndsOrQueue F (release_waiting_copies F primary w).0
        × (F.find (release_waiting_copies F primary w).1.table m ≡ some d)
  release_waiting_copies-idle primary w m d h idle =
      IsReleased-idle F d _ _ (rw idle at (release_waiting_copies_lem primary w m d h))
