-- ===== src/Outbound/Budget.antt =====
-- What counts the attempts of a delivery, and the steps that leave it alone
-- (erpnext_whatsapp_connection/outbound.py).
use erpnext_whatsapp_connect.Base.{
  String, some, List, [], ◌∷◌, ◌≡◌, ◌≢◌, refl, sym, ap, ◌∙◌, inl, inr, Bool-cases, str_eq, eq_iff,
  true-ne-false,
}
use erpnext_whatsapp_connect.Py.Action.{continue, for_each}
use erpnext_whatsapp_connect.Py.Result.{Result, ok, err}
use erpnext_whatsapp_connect.Site.Records.{Delivery}
use erpnext_whatsapp_connect.Site.Frappe.{Frappe, IsLawful}
use erpnext_whatsapp_connect.Site.World.{World, update_row}
use erpnext_whatsapp_connect.Site.Rows.{find-update_self, find-update_ne}
use erpnext_whatsapp_connect.History.{has_document, has_report}

-- The same attempts made, the same allowed, and a source named as before.
abbrev pub SameBudget : Delivery → Delivery → Type 0
SameBudget d d' =
    (d'.retry_count ≡ d.retry_count)
    × (d'.max_retries ≡ d.max_retries)
    × (has_document d' ≡ has_document d)
    × (has_report d' ≡ has_report d)

SameBudget-trans : (a b c : Delivery) → SameBudget a b → SameBudget b c → SameBudget a c
SameBudget-trans a b c (h1, h2, h3, h4) (k1, k2, k3, k4) = (k1 ∙ h1, k2 ∙ h2, k3 ∙ h3, k4 ∙ h4)

module _ (F : Frappe) where
  -- The delivery is still there with its budget.
  abbrev pub KeepsBudget : String → World F → World F → Type 0
  KeepsBudget n w w' =
      (d : Delivery)
      → F.find w.table n ≡ some d
      → (d' : Delivery) × (F.find w'.table n ≡ some d') × SameBudget d d'

  pub KeepsBudget-found :
      (n : String) (w w' : World F) → F.find w'.table n ≡ F.find w.table n → KeepsBudget n w w'
  KeepsBudget-found n w w' e d found = (d, e ∙ found, (refl, refl, refl, refl))

  pub KeepsBudget-table : (n : String) (w w' : World F) → w'.table ≡ w.table → KeepsBudget n w w'
  KeepsBudget-table n w w' e = KeepsBudget-found n w w' (ap (λ t. F.find t n) e)

  pub KeepsBudget-trans :
      (n : String) (u v w : World F) → KeepsBudget n u v → KeepsBudget n v w → KeepsBudget n u w
  KeepsBudget-trans n u v w h k d found =
      let (x, at, same) = h d found in
      let (y, there, again) = k x at in (y, there, SameBudget-trans d x y same again)

  -- A run of steps that each leave the budget alone does so.
  pub continue-KeepsBudget :
      {A B : Type 0} (n : String) (f : A → World F → Result B × World F) (r : Result A × World F)
      (w : World F)
      → KeepsBudget n w r.1
      → ((a : A) (v : World F) → KeepsBudget n v (f a v).1)
      → KeepsBudget n w (continue f r).1
  continue-KeepsBudget n f (ok a, v) w h k = KeepsBudget-trans n w v (f a v).1 h (k a v)
  continue-KeepsBudget n f (err e, v) w h k = h

  pub for_each-KeepsBudget :
      {A : Type 0} (n : String) (xs : List A) (f : A → World F → Result (Unit {0}) × World F)
      (w : World F)
      → ((a : A) (v : World F) → KeepsBudget n v (f a v).1)
      → KeepsBudget n w (for_each xs f w).1
  unfolding for_each
  for_each-KeepsBudget n [] f w h = KeepsBudget-table n w w refl
  for_each-KeepsBudget n (a ∷ xs) f w h =
      continue-KeepsBudget n (λ _. for_each xs f) (f a w) w (h a w)
        (λ _ v. for_each-KeepsBudget n xs f v h)

  module _ (L : IsLawful F) where
    -- A write that changes neither name nor budget, to whatever row.
    pub update_row-KeepsBudget :
        (n m : String) (f : Delivery → Delivery) (w : World F)
        → ((d : Delivery) → ((f d).name ≡ d.name) × SameBudget d (f d))
        → KeepsBudget n w (record w { table = update_row F m f w.table })
    update_row-KeepsBudget n m f w h d found = elim (Bool-cases (str_eq m n)) [
      | inl e ↦
          let same = (eq_iff m n).0 e in
          let at : F.find w.table m ≡ some d = ap (λ k. F.find w.table k) same ∙ found in
          let written = find-update_self F L f w.table m d (h d).0 at in
          (f d, ap (λ k. F.find (update_row F m f w.table) k) (sym same) ∙ written, (h d).1)
      | inr e ↦
          let other : m ≢ n = λ same. true-ne-false _ ((eq_iff m n).1 same) e in
          KeepsBudget-found n w (record w { table = update_row F m f w.table })
            (find-update_ne F L f w.table m n (λ x. (h x).0) other) d found
    ]
