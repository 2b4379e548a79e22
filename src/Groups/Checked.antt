-- ===== src/Groups/Checked.antt =====
-- What a group copy that passes its check has been checked for
-- (erpnext_whatsapp_connection/company_groups.py).
use mathlib.Core.Option.{some-injective}
use erpnext_whatsapp_connect.Base.{
  String, Bool, true, false, not, ◌||◌, Option, some, List, [], ◌∷◌, keep, ◌≡◌, refl, sym, ◌∙◌, ap,
  subst, All, inl, inr, Bool-cases, Option-cases, str_eq, true-ne-false,
}
use erpnext_whatsapp_connect.Py.Result.{Result, ok, err, Result-cases, err-ne-ok, ok-injective}
use erpnext_whatsapp_connect.Site.Records.{Delivery, Settings, GroupRow, is_group, is_blank}
use erpnext_whatsapp_connect.Site.Frappe.{Frappe}
use erpnext_whatsapp_connect.Site.World.{World}
use erpnext_whatsapp_connect.History.{differs, is_terminal, optional_eq}
use erpnext_whatsapp_connect.History.Saves.{differs_sound, optional_eq_sound}
use erpnext_whatsapp_connect.Permissions.{require_sender}
use erpnext_whatsapp_connect.Groups.Identity.{group_id, is_group_id}
use erpnext_whatsapp_connect.Groups.Config.{configured_group, choose_group, check_company, is_match}
use erpnext_whatsapp_connect.Groups.Copy.{
  copied_fields, check_parent, check_owner, check_as_owner, check_source, recheck, after_parent,
  validate_copy, parent_of,
}

group_id-eq-ok : (v g : String) → group_id v ≡ ok g → (v ≡ g) × (is_group_id v ≡ true)
unfolding group_id
group_id-eq-ok v g h = elim (Bool-cases (is_group_id v)) [
  | inl e ↦ (ok-injective v g (rw (e, group_id) at h), e)
  | inr e ↦ absurd (err-ne-ok _ g (rw (e, group_id) at h))
]

-- The one row that `configured_group` goes by.
pub record IsChosen (F : Frappe) (user : String) (s : Settings) (company : Option String)
    (g : String) (r : GroupRow) : Type 0 where
  pub only : keep (is_match company) s.company_groups ≡ r ∷ []
  pub linked : str_eq s.provider "Linked Device" ≡ true
  pub permitted : check_company F user company ≡ ok tt
  pub group : r.group_id ≡ g
  pub valid : is_group_id g ≡ true

choose_group-one :
    (F : Frappe) (user provider : String) (company : Option String) (rows : List GroupRow)
    (g : String)
    → choose_group F user provider company rows ≡ ok (some g)
    → (r : GroupRow) × (rows ≡ r ∷ [])
      × (str_eq provider "Linked Device" ≡ true)
      × (check_company F user company ≡ ok tt)
      × (r.group_id ≡ g)
      × (is_group_id g ≡ true)
unfolding choose_group
choose_group-one F user provider company [] g h = cc
choose_group-one F user provider company (r ∷ []) g h =
    elim (Bool-cases (str_eq provider "Linked Device")) [
      | inr e ↦ absurd (err-ne-ok _ (some g) (rw (e, choose_group) at h))
      | inl linked ↦ elim (Result-cases (check_company F user company)) [
        | inr (x, e) ↦ absurd (err-ne-ok x (some g) (rw (linked, e, choose_group) at h))
        | inl (_, permitted) ↦ elim (Result-cases (group_id r.group_id)) [
          | inr (x, e) ↦
              absurd (err-ne-ok x (some g) (rw (linked, permitted, e, choose_group) at h))
          | inl (v, e) ↦
              let same : v ≡ g =
                some-injective v g
                  (ok-injective _ _ (rw (linked, permitted, e, choose_group) at h)) in
              let (is_v, valid) = group_id-eq-ok r.group_id v e in
              (
                r,
                refl,
                linked,
                permitted,
                is_v ∙ same,
                subst (λ k. is_group_id k ≡ true) (is_v ∙ same) valid,
              )
        ]
      ]
    ]
choose_group-one F user provider company (r ∷ (q ∷ rest)) g h = cc

-- The lookup of a company's group returns one only if it is the group of the one enabled row of
-- that company, the site sends by Linked Device, the row holds a valid group identity and the user
-- may read the company.
pub configured_group-IsChosen :
    (F : Frappe) (user : String) (s : Settings) (company : Option String) (g : String)
    → configured_group F user s company ≡ ok (some g)
    → (r : GroupRow) × IsChosen F user s company g r
unfolding configured_group
configured_group-IsChosen F user s company g h =
    let (r, only, linked, permitted, group, valid) =
      choose_group-one F user s.provider company (keep (is_match company) s.company_groups) g h in
    (
      r,
      record { only = only; linked = linked; permitted = permitted; group = group; valid = valid },
    )

-- What has been established of a copy that may be sent.
pub record IsChecked (F : Frappe) (d : Delivery) (s : Settings) (w : World F) (parent : Delivery)
    : Type 0 where
  pub stored : parent_of F d w ≡ some parent
  pub delivered : is_terminal parent.status ≡ true
  pub original : (is_group parent.recipient_type || not (is_blank parent.copy_of)) ≡ false
  pub same : All (λ f. f d ≡ f parent) copied_fields
  pub named : str_eq d.owner "Guest" ≡ false
  pub enabled : F.user_enabled d.owner ≡ true
  pub sender : require_sender F d.owner ≡ ok tt
  pub configured : configured_group F d.owner s d.company ≡ ok (some d.recipient)
  pub source : check_source F d.owner s d d.reference_type ≡ ok tt

check_parent-true :
    (parent d : Delivery)
    → check_parent parent d ≡ ok true
    → (is_terminal parent.status ≡ true)
      × ((is_group parent.recipient_type || not (is_blank parent.copy_of)) ≡ false)
      × All (λ f. f d ≡ f parent) copied_fields
unfolding check_parent
check_parent-true parent d h = elim (Bool-cases (is_terminal parent.status)) [
  | inr e ↦ absurd (true-ne-false true refl (sym (ok-injective _ _ (rw (e, check_parent) at h))))
  | inl terminal ↦
      elim (Bool-cases (is_group parent.recipient_type || not (is_blank parent.copy_of))) [
        | inl e ↦ absurd (err-ne-ok _ true (rw (terminal, e, check_parent) at h))
        | inr original ↦ elim (Bool-cases (differs copied_fields d parent)) [
          | inl e ↦ absurd (err-ne-ok _ true (rw (terminal, original, e, check_parent) at h))
          | inr e ↦ (terminal, original, differs_sound copied_fields d parent e)
        ]
      ]
]

after_parent-true :
    (F : Frappe) (r : Result Bool) (d : Delivery) (s : Settings) (w : World F)
    → (after_parent F r d s w).0 ≡ ok true
    → (r ≡ ok true) × ((recheck F d s w).0 ≡ ok true)
unfolding after_parent
after_parent-true F (ok true) d s w h = (refl, h)
after_parent-true F (ok false) d s w h = cc
after_parent-true F (err e) d s w h = cc

check_owner-ok :
    (F : Frappe) (d : Delivery)
    → check_owner F d ≡ ok tt
    → (str_eq d.owner "Guest" ≡ false) × (F.user_enabled d.owner ≡ true)
check_owner-ok F d h = elim (Bool-cases (str_eq d.owner "Guest")) [
  | inl e ↦ absurd (err-ne-ok _ tt (rw e at h))
  | inr e ↦ elim (Bool-cases (F.user_enabled d.owner)) [
    | inl f ↦ (e, f)
    | inr f ↦ absurd (err-ne-ok _ tt (rw f at (rw e at h)))
  ]
]

recheck-true :
    (F : Frappe) (d : Delivery) (s : Settings) (w : World F)
    → (recheck F d s w).0 ≡ ok true
    → ((str_eq d.owner "Guest" ≡ false) × (F.user_enabled d.owner ≡ true))
      × (require_sender F d.owner ≡ ok tt)
      × (configured_group F d.owner s d.company ≡ ok (some d.recipient))
      × (check_source F d.owner s d d.reference_type ≡ ok tt)
unfolding recheck check_as_owner
recheck-true F d s w h = elim (Result-cases (check_owner F d)) [
  | inr (x, e) ↦ absurd (err-ne-ok x true (rw (e, recheck) at h))
  | inl (_, owner) ↦ elim (Result-cases (require_sender F d.owner)) [
    | inr (x, e) ↦ absurd (err-ne-ok x true (rw (owner, recheck, e) at h))
    | inl (_, sender) ↦ elim (Result-cases (configured_group F d.owner s d.company)) [
      | inr (x, e) ↦ absurd (err-ne-ok x true (rw (owner, recheck, sender, e) at h))
      | inl (g, configured) ↦ elim (Bool-cases (optional_eq g (some d.recipient))) [
        | inr e ↦ absurd (err-ne-ok _ true (rw (owner, recheck, sender, configured, e) at h))
        | inl same ↦ elim (Result-cases (check_source F d.owner s d d.reference_type)) [
          | inr (x, e) ↦
              absurd (err-ne-ok x true (rw (owner, recheck, sender, configured, same, e) at h))
          | inl (_, source) ↦ (
            check_owner-ok F d owner,
            sender,
            configured ∙ ap ok (optional_eq_sound g (some d.recipient) same),
            source,
          )
        ]
      ]
    ]
  ]
]

-- The check of a group copy before it is sent accepts it only if all of this holds: its original
-- is stored and was submitted, is not itself a group copy and agrees with it in every copied
-- field; the owner is no guest, is enabled and may send; the company's configured group is the
-- recipient; and the checks of the source, made with the owner's rights, accept it.
pub validate_copy-IsChecked :
    (F : Frappe) (d : Delivery) (s : Settings) (w : World F)
    → (validate_copy F d s w).0 ≡ ok true
    → (parent : Delivery) × IsChecked F d s w parent
unfolding validate_copy
validate_copy-IsChecked F d s w h = elim (Option-cases (parent_of F d w)) [
  | inl e ↦ absurd (err-ne-ok _ true (rw (e, validate_copy) at h))
  | inr (parent, e) ↦
      let (passed, rechecked) =
        after_parent-true F (check_parent parent d) d s w (rw (e, validate_copy) at h) in
      let (delivered, original, same) = check_parent-true parent d passed in
      let (owner, sender, configured, source) = recheck-true F d s w rechecked in
      (
        parent,
        record {
          stored = e;
          delivered = delivered;
          original = original;
          same = same;
          named = owner.0;
          enabled = owner.1;
          sender = sender;
          configured = configured;
          source = source;
        },
      )
]
