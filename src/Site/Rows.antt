-- ===== src/Site/Rows.antt =====
-- How the writes of rows change what is found in the table.
use text.Mathlib.TextPositions.{eq_refl}
use erpnext_whatsapp_connect.Base.{
  String, false, some, ◌≡◌, subst, ◌≢◌, sym, ◌∙◌, arith, str_eq, inl, inr, Option-cases, eq_iff,
}
use erpnext_whatsapp_connect.Site.Records.{Delivery}
use erpnext_whatsapp_connect.Site.Frappe.{Frappe, IsLawful}
use erpnext_whatsapp_connect.Site.World.{update_row}

pub str_eq-ne : (a b : String) → a ≢ b → str_eq a b ≡ false
str_eq-ne a b h = ground (arith, eq_iff a b)

module _ (F : Frappe) (L : IsLawful F) where
  -- A stored row is found under its name.
  pub find-put_self : (t : F.Table) (d : Delivery) → F.find (F.put t d) d.name ≡ some d
  find-put_self t d = L.find-put t d d.name ∙ rw (eq_refl d.name)

  pub find-put_ne :
      (t : F.Table) (d : Delivery) (n : String) → d.name ≢ n → F.find (F.put t d) n ≡ F.find t n
  find-put_ne t d n h = L.find-put t d n ∙ rw (str_eq-ne d.name n h)

  -- A write to a row reaches that row.
  pub find-update_self :
      (f : Delivery → Delivery) (t : F.Table) (n : String) (d : Delivery)
      → (f d).name ≡ d.name
      → F.find t n ≡ some d
      → F.find (update_row F n f t) n ≡ some (f d)
  find-update_self f t n d same h =
      let name : (f d).name ≡ n = same ∙ L.find-name t n d h in
      rw (h, update_row)
        (subst (λ k. F.find (F.put t (f d)) k ≡ some (f d)) name (find-put_self t (f d)))

  pub find-update_ne :
      (f : Delivery → Delivery) (t : F.Table) (n m : String)
      → ((d : Delivery) → (f d).name ≡ d.name)
      → n ≢ m
      → F.find (update_row F n f t) m ≡ F.find t m
  find-update_ne f t n m same h = elim (Option-cases (F.find t n)) [
    | inl e ↦ rw (e, update_row)
    | inr (d, e) ↦
        let name : (f d).name ≡ n = same d ∙ L.find-name t n d e in
        rw (e, update_row) (find-put_ne t (f d) m (λ x. h (sym name ∙ x)))
  ]
