-- ===== src/Sending/Copies.antt =====
-- The group's copy that `_store_delivery` of erpnext_whatsapp_connection/api.py stores, as the worker
-- and `validate_copy` of erpnext_whatsapp_connection/company_groups.py see it later.
use mathlib.Core.Option.{some-injective}
use erpnext_whatsapp_connect.Base.{
  ℕ, String, true, Option, none, some, [], ◌∷◌, ◌++◌, ◌≡◌, refl, sym, ap, ◌∙◌, subst, All, arith,
}
use erpnext_whatsapp_connect.Py.Result.{ok}
use erpnext_whatsapp_connect.Site.Records.{Delivery, individual, group, waiting}
use erpnext_whatsapp_connect.Site.Frappe.{Frappe, IsLawful}
use erpnext_whatsapp_connect.Site.World.{World}
use erpnext_whatsapp_connect.History.{immutable_fields, is_terminal}
use erpnext_whatsapp_connect.History.Saves.{differs_complete}
use erpnext_whatsapp_connect.Groups.Config.{configured_group}
use erpnext_whatsapp_connect.Groups.Copy.{check_parent, copied_fields}
use erpnext_whatsapp_connect.Sending.Store.{Order, Stored, Answer, job_for, new_row, store_delivery}
use erpnext_whatsapp_connect.Sending.Stored.{row_at, HasStored}
use erpnext_whatsapp_connect.Sending.Delivered.{
  CopyStored, HasDelivered, store_delivery-HasDelivered,
}

-- The controller's fixed fields and the kind of the recipient are as they were.
pub record IsLater (d d' : Delivery) : Type 0 where
  pub identity : All (λ f. f d' ≡ f d) immutable_fields
  pub kind : d'.recipient_type ≡ d.recipient_type

check_parent-agreeing :
    (p d : Delivery)
    → is_terminal p.status ≡ true
    → p.recipient_type ≡ individual
    → p.copy_of ≡ none
    → All (λ f. f d ≡ f p) copied_fields
    → check_parent p d ≡ ok true
unfolding check_parent
check_parent-agreeing p d done kind original same =
    rw (done, kind, original, differs_complete copied_fields d p same) refl

-- The controller's fixed fields are among the copied ones, the order apart.
copied-later :
    (p p' d : Delivery)
    → All (λ f. f p' ≡ f p) immutable_fields
    → All (λ f. f d ≡ f p) copied_fields
    → All (λ f. f d ≡ f p') copied_fields
copied-later p p' d i c = ground arith

copy_of-later : (p p' : Delivery) → All (λ f. f p' ≡ f p) immutable_fields → p'.copy_of ≡ p.copy_of
copy_of-later p p' i = ground arith

module _ (F : Frappe) where
  CopyStored-older :
      (k : Option String) (n : String) (o : Order) (w w' : World F) (c : Option Stored) (m : String)
      (d : Delivery)
      → CopyStored F k n o w w' c
      → F.find w.table m ≡ some d
      → F.find w'.table m ≡ some d
  CopyStored-older none n o w w' c m d h found = ap (λ v. F.find v.table m) h.1 ∙ found
  CopyStored-older (some g) n o w w' c m d h found = h.2.older m d found

  CopyStored-jobs :
      (k : Option String) (n : String) (o : Order) (w w' : World F) (c : Option Stored)
      → CopyStored F k n o w w' c
      → w'.jobs ≡ w.jobs
  CopyStored-jobs none n o w w' c h = ap (λ v. v.jobs) h.1
  CopyStored-jobs (some g) n o w w' c h = h.2.jobs

  CopyStored-log :
      (k : Option String) (n : String) (o : Order) (w w' : World F) (c : Option Stored)
      → CopyStored F k n o w w' c
      → w'.log ≡ w.log
  CopyStored-log none n o w w' c h = ap (λ v. v.log) h.1
  CopyStored-log (some g) n o w w' c h = h.2.log

  -- The row of the customer is there in the end, and its job is the only new one.
  pub HasDelivered-primary :
      (recipient : String) (o : Order) (w w' : World F) (a : Answer)
      → (h : HasDelivered F recipient o w w' a)
      → (F.find w'.table a.stored.name
          ≡ some (row_at F none recipient o w h.primary.now h.primary.hash h.primary.file))
        × (w'.jobs ≡ w.jobs ++ job_for F a.stored.name ∷ [])
        × (w'.log ≡ w.log)
  HasDelivered-primary recipient o w w' a h = (
    CopyStored-older h.copy_group a.stored.name o h.between w' a.group_copy a.stored.name _ h.copy
        h.primary.found,
    CopyStored-jobs h.copy_group a.stored.name o h.between w' a.group_copy h.copy ∙ h.primary.jobs,
    CopyStored-log h.copy_group a.stored.name o h.between w' a.group_copy h.copy ∙ h.primary.log,
  )

  -- The two rows of a delivery that has a copy.
  pub record HasCopy (p d : Delivery) (w : World F) (o : Order) : Type 0 where
    pub waits : d.status ≡ waiting
    pub kind : d.recipient_type ≡ group
    pub original : d.copy_of ≡ some p.name
    pub configured : configured_group F w.user w.settings o.company ≡ ok (some d.recipient)

module _ (F : Frappe) (L : IsLawful F) where
  row_at-HasCopy :
      (recipient g : String) (o : Order) (w v : World F) (now now2 : ℕ)
      (hash file hash2 file2 : String) (p' : Delivery)
      → v.settings ≡ w.settings
      → v.user ≡ w.user
      → configured_group F w.user w.settings o.company ≡ ok (some g)
      → IsLater (row_at F none recipient o w now hash file) p'
      → is_terminal p'.status ≡ true
      → HasCopy F
          (row_at F none recipient o w now hash file)
          (row_at F (some (F.new_name w.table)) g o v now2 hash2 file2)
          w
          o
        × (check_parent p' (row_at F (some (F.new_name w.table)) g o v now2 hash2 file2) ≡ ok true)
  unfolding new_row
  row_at-HasCopy recipient g o w v now now2 hash file hash2 file2 p' settings user chosen later
        done =
      let provider : v.settings.provider ≡ w.settings.provider = ap (λ s. s.provider) settings in
      let p = row_at F none recipient o w now hash file in
      let d = row_at F (some (F.new_name w.table)) g o v now2 hash2 file2 in
      let agree : All (λ f. f d ≡ f p) copied_fields = ground arith in
      (
        record { waits = refl; kind = refl; original = refl; configured = chosen },
        check_parent-agreeing p' d done later.kind (copy_of-later p p' later.identity)
            (copied-later p p' d later.identity agree),
      )

  CopyStored-row :
      (k : Option String) (n : String) (o : Order) (w w' : World F) (copy : Option Stored)
      (c : Stored)
      → CopyStored F k n o w w' copy
      → copy ≡ some c
      → (g : String) × (x : Stored × Option String) × (k ≡ some g)
        × (x.0 ≡ c)
        × HasStored F (some n) g o w w' x
  CopyStored-row none n o w w' copy c (e, _) h = let no : none ≡ some c = sym e ∙ h in cc
  CopyStored-row (some g) n o w w' copy c (x, e, s) h =
      let same : some x.0 ≡ some c = sym e ∙ h in (g, x, refl, cc, s)

  -- If a group's copy is stored beside the customer's row, the copy waits for that row, goes to the
  -- group that is configured for the sender and the company, and passes the checks against every
  -- later version of the customer's row that has been submitted and has the same fixed fields.
  pub store_delivery-HasCopy :
      (recipient : String) (o : Order) (w : World F) (a : Answer) (c : Stored) (p p' : Delivery)
      → (store_delivery F recipient o w).0 ≡ ok a
      → a.group_copy ≡ some c
      → F.find (store_delivery F recipient o w).1.table a.stored.name ≡ some p
      → IsLater p p'
      → is_terminal p'.status ≡ true
      → (d : Delivery) × (F.find (store_delivery F recipient o w).1.table c.name ≡ some d)
        × HasCopy F p d w o
        × (check_parent p' d ≡ ok true)
  store_delivery-HasCopy recipient o w a c p p' h copied found later done =
      let s = store_delivery-HasDelivered F L recipient o w a h in
      let w' = (store_delivery F recipient o w).1 in
      let (g, x, chosen, same, t) =
        CopyStored-row s.copy_group a.stored.name o s.between w' a.group_copy c s.copy copied in
      let r = row_at F none recipient o w s.primary.now s.primary.hash s.primary.file in
      let (stored, _, _) = HasDelivered-primary F recipient o w w' a s in
      let is_row : r ≡ p = some-injective r p (sym stored ∙ found) in
      let (two, passed) =
        subst
          (λ n.
            HasCopy F r (row_at F (some n) g o s.between t.now t.hash t.file) w o
            × (check_parent p' (row_at F (some n) g o s.between t.now t.hash t.file) ≡ ok true))
          (sym s.primary.name)
          (row_at-HasCopy recipient g o w s.between s.primary.now t.now s.primary.hash
            s.primary.file t.hash t.file p' s.primary.settings s.primary.user
            (s.primary.group ∙ ap ok chosen) (subst (λ y. IsLater y p') (sym is_row) later) done) in
      let d = row_at F (some a.stored.name) g o s.between t.now t.hash t.file in
      (
        d,
        ap (λ n. F.find w'.table n) (ap (λ y. y.name) (sym same)) ∙ t.found,
        subst (λ y. HasCopy F y d w o) is_row two,
        passed,
      )
