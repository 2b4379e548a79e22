-- ===== src/Sending/Chosen.antt =====
-- A message template that a dialog offers and `_validate_selected_template` of
-- erpnext_whatsapp_connection/api.py.
use erpnext_whatsapp_connect.Base.{
  String, Bool, true, false, not, ◌&&◌, ◌||◌, Option, none, some, List, [], ◌∷◌, keep, all, All,
  map, contains, str_eq, eq_iff, ◌≡◌, ◌⊎◌, refl, sym, ap, ◌∙◌, subst, inl, inr, Bool-cases,
  Option-cases, true-ne-false, if◌then◌else◌, arith,
}
use erpnext_whatsapp_connect.Py.Result.{ok, or_error, crash, bind-ok, ok-injective}
use erpnext_whatsapp_connect.Py.Value.{Value, Fields, as_str}
use erpnext_whatsapp_connect.Site.Records.{ReferenceType, Template}
use erpnext_whatsapp_connect.Site.Frappe.{Frappe, IsLawful}
use erpnext_whatsapp_connect.Sending.Offer.{
  TemplateRow, OfferedTemplate, has_target, row_of, suits, or_fallback, find_template, fits,
  template_rows, render_templates, validate_selected_template,
}

-- Each template is the one of its name.
abbrev pub IsKeyed : List Template → Type 0
IsKeyed templates = All (λ t. find_template t.name templates ≡ some t) templates

abbrev pub row_names : List TemplateRow → List String
row_names rows = map (λ r. r.name) rows

abbrev pub offered_names : List OfferedTemplate → List String
offered_names ts = map (λ t. t.name) ts

find_template-name :
    (name : String) (ts : List Template) (t : Template)
    → find_template name ts ≡ some t
    → t.name ≡ name
unfolding find_template
find_template-name name [] t h = cc
find_template-name name (x ∷ ts) t h =
    ground (arith, find_template-name name ts t, eq_iff x.name name)

module _ (reference_type : ReferenceType) (target : String) (company : Value)
    (templates : List Template) where
  abbrev fits_found : Option Template → Bool
  fits_found none = false
  fits_found (some y) = fits reference_type target company y

  -- If the dialog shows the template, the one of its name fits.
  abbrev accepted : Template → Bool
  accepted x = not (suits company (row_of x)) || fits_found (find_template x.name templates)

  accepted-found :
      (x : Template)
      → find_template x.name templates ≡ some x
      → has_target reference_type target x ≡ true
      → accepted x ≡ true
  accepted-found x h k = elim (Bool-cases (suits company (row_of x))) [
    | inl e ↦ rw (h, k, e) refl
    | inr e ↦ rw (h, k, e) refl
  ]

  keep-accepted :
      (ts : List Template)
      → All (λ t. find_template t.name templates ≡ some t) ts
      → all accepted (keep (has_target reference_type target) ts) ≡ true
  keep-accepted [] h = refl
  keep-accepted (x ∷ ts) (found, h) = elim (Bool-cases (has_target reference_type target x)) [
    | inl e ↦ rw e (rw (accepted-found x found e) (keep-accepted ts h))
    | inr e ↦ rw e (keep-accepted ts h)
  ]

  abbrev pub FitsFound : String → Type 0
  FitsFound name =
      (y : Template) × (find_template name templates ≡ some y)
      × (fits reference_type target company y ≡ true)

  fits_found-some :
      (name : String) → fits_found (find_template name templates) ≡ true → FitsFound name
  fits_found-some name h = elim (Option-cases (find_template name templates)) [
    | inl e ↦ absurd (true-ne-false _ h (rw e refl))
    | inr (y, e) ↦ (y, e, rw e at h)
  ]

  shown-FitsFound :
      (name : String) (ts : List Template)
      → all accepted ts ≡ true
      → contains name (row_names (keep (suits company) (map row_of ts))) ≡ true
      → FitsFound name
  shown-FitsFound name [] h k = absurd (true-ne-false false k refl)
  shown-FitsFound name (x ∷ ts) h k =
      let (first, rest) = both (accepted x) (all accepted ts) h in
      elim (Bool-cases (suits company (row_of x))) [
        | inr e ↦ shown-FitsFound name ts rest (rw e at k)
        | inl e ↦ elim (Bool-cases (str_eq name x.name)) [
          | inl same ↦ fits_found-some name (
              subst (λ n. fits_found (find_template n templates) ≡ true)
                (sym ((eq_iff name x.name).0 same)) (rw e at first))
          | inr other ↦ shown-FitsFound name ts rest (rw other at (rw e at k))
        ]
      ]
    where
      both : (a b : Bool) → (a && b) ≡ true → (a ≡ true) × (b ≡ true)
      both true b h = (refl, h)
      both false b h = absurd (true-ne-false false h refl)

or_fallback-names :
    (fallback : Value) (rows : List TemplateRow) (name : String)
    → str_eq name "" ≡ false
    → contains name (row_names (or_fallback fallback rows)) ≡ true
    → contains name (row_names rows) ≡ true
or_fallback-names fallback [] name h k = absurd (true-ne-false _ k (rw h refl))
or_fallback-names fallback (row ∷ rows) name h k = k

module _ (F : Frappe) where
  -- A dialog shows its rows under their names.
  pub render_templates-names :
      (rows : List TemplateRow) (context : Fields) (offered : List OfferedTemplate)
      → render_templates F rows context ≡ ok offered
      → offered_names offered ≡ row_names rows
  unfolding render_templates
  render_templates-names [] context offered h = ap offered_names (sym (ok-injective _ offered h))
  render_templates-names (row ∷ rows) context offered h =
      let (source, _, h1) =
        bind-ok (or_error (crash "the template is not a text") (as_str row.message_template)) _
          offered h in
      let (message, _, h2) = bind-ok (F.render_template source context) _ offered h1 in
      let (rest, ran, h3) = bind-ok (render_templates F rows context) _ offered h2 in
      ap offered_names (sym (ok-injective _ offered h3))
      ∙ ap (λ ns. row.name ∷ ns) (render_templates-names rows context rest ran)

  -- No template, or one that the dialog offers and the user may read.
  abbrev pub IsSelectable : String → List OfferedTemplate → String → Type 0
  IsSelectable user offered name =
      (name ≡ "")
      ⊎ ((contains name (offered_names offered) ≡ true)
          × (F.may user "read" "ERPNext WhatsApp Message Template" name ≡ true))

  abbrev pub selected_name : String → Option String
  selected_name name = if str_eq name "" then none else some name

  module _ (L : IsLawful F) where
    pub validate_selected_template-offered :
        (user : String) (reference_type : ReferenceType) (target : String)
        (company fallback : Value) (templates : List Template) (offered : List OfferedTemplate)
        (name : String)
        → IsKeyed templates
        → offered_names offered
          ≡ row_names (template_rows F reference_type target company fallback templates)
        → IsSelectable user offered name
        → validate_selected_template F user reference_type target company name templates
          ≡ ok (selected_name name)
    unfolding validate_selected_template template_rows
    validate_selected_template-offered user reference_type target company fallback templates offered
          name keyed names (inl e) =
        rw (e, validate_selected_template) refl
    validate_selected_template-offered user reference_type target company fallback templates offered
          name keyed names (inr (shown, may)) =
        elim (Bool-cases (str_eq name "")) [
          | inl e ↦ rw e refl
          | inr e ↦
              let ordered = F.in_order (keep (has_target reference_type target) templates) in
              let all_accepted =
                L.in_order_sound (accepted reference_type target company templates)
                  (keep (has_target reference_type target) templates)
                  (keep-accepted reference_type target company templates templates keyed) in
              let listed =
                or_fallback-names fallback (keep (suits company) (map row_of ordered)) name e
                  (ap (contains name) (sym names) ∙ shown) in
              let (y, found, good) =
                shown-FitsFound reference_type target company templates name ordered all_accepted
                  listed in
              rw (e, found, may, good)
                (ap (λ n. ok (some n)) (find_template-name name templates y found))
        ]
