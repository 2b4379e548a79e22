-- ===== src/Groups/Renamed.antt =====
-- What `validate_settings` of erpnext_whatsapp_connection/company_groups.py accepts and changes.
use erpnext_whatsapp_connect.Base.{
  String, Bool, true, false, not, ◌||◌, Option, List, [], ◌∷◌, ◌≡◌, refl, sym, ap, ◌∙◌, subst, inl,
  inr, Bool-cases, Option-cases, contains, map, str_eq,
}
use erpnext_whatsapp_connect.Py.Result.{
  Result, ok, err, Result-cases, err-ne-ok, ok-injective, bind-ok, ◌>>=◌,
}
use erpnext_whatsapp_connect.Site.Records.{Settings, GroupRow}
use erpnext_whatsapp_connect.Site.Frappe.{Frappe}
use erpnext_whatsapp_connect.Site.World.{World}
use erpnext_whatsapp_connect.Groups.Identity.{group_id}
use erpnext_whatsapp_connect.Groups.Config.{Groups, lookup, joined_groups}
use erpnext_whatsapp_connect.Groups.Rules.{
  any_enabled, distinct_companies, checked_row, checked_rows, with_rows, check_settings,
  check_changed, previous_state, check_companies, changed, state, validate_settings,
}

-- A checked row keeps its company and its switch.
checked_row-same :
    (groups : Groups) (r q : GroupRow)
    → checked_row groups r ≡ ok q
    → (q.company ≡ r.company) × (q.enabled ≡ r.enabled)
unfolding checked_row
checked_row-same groups r q h = elim (Result-cases (group_id r.group_id)) [
  | inr (x, e) ↦ absurd (err-ne-ok x q (rw (e, checked_row) at h))
  | inl (_, e) ↦ elim (Bool-cases r.enabled) [
    | inr off ↦
        let same = ok-injective _ q (rw (e, off, checked_row) at h) in
        (ap (λ x. x.company) (sym same), ap (λ x. x.enabled) (sym same) ∙ sym off)
    | inl on ↦ elim (Option-cases (lookup r.group_id groups)) [
      | inl missing ↦ absurd (err-ne-ok _ q (rw (e, on, missing, checked_row) at h))
      | inr (name, found) ↦
          let same = ok-injective _ q (rw (e, on, found, checked_row) at h) in
          (ap (λ x. x.company) (sym same), ap (λ x. x.enabled) (sym same))
    ]
  ]
]

-- Rows with the same companies and switches, one by one.
abbrev pub AreSame : List GroupRow → List GroupRow → Type 0
AreSame [] [] = Unit
AreSame [] (r ∷ rows) = ⊥
AreSame (q ∷ qs) [] = ⊥
AreSame (q ∷ qs) (r ∷ rows) = (q.company ≡ r.company) × (q.enabled ≡ r.enabled) × AreSame qs rows

AreSame-refl : (rows : List GroupRow) → AreSame rows rows
AreSame-refl [] = tt
AreSame-refl (r ∷ rows) = (refl, refl, AreSame-refl rows)

checked_rows-AreSame :
    (groups : Groups) (rows qs : List GroupRow) → checked_rows groups rows ≡ ok qs → AreSame qs rows
unfolding checked_rows
checked_rows-AreSame groups [] qs h = subst (λ l. AreSame l []) (ok-injective [] qs h) tt
checked_rows-AreSame groups (r ∷ rows) qs h = elim (Result-cases (checked_row groups r)) [
  | inr (x, e) ↦ absurd (err-ne-ok x qs (rw (e, checked_rows) at h))
  | inl (q, e) ↦ elim (Result-cases (checked_rows groups rows)) [
    | inr (x, f) ↦ absurd (err-ne-ok x qs (rw (e, f, checked_rows) at h))
    | inl (rest, f) ↦
        let (company, enabled) = checked_row-same groups r q e in
        subst (λ l. AreSame l (r ∷ rows))
          (ok-injective (q ∷ rest) qs (rw (e, f, checked_rows) at h))
          (company, enabled, checked_rows-AreSame groups rows rest f)
  ]
]

any_enabled-same : (qs rows : List GroupRow) → AreSame qs rows → any_enabled qs ≡ any_enabled rows
any_enabled-same [] [] h = refl
any_enabled-same [] (r ∷ rows) h = absurd h
any_enabled-same (q ∷ qs) [] h = absurd h
any_enabled-same (q ∷ qs) (r ∷ rows) (c, e, h) = rw (e, any_enabled-same qs rows h)

contains-same :
    (a : String) (qs rows : List GroupRow)
    → AreSame qs rows
    → contains a (map (λ r. r.company) qs) ≡ contains a (map (λ r. r.company) rows)
contains-same a [] [] h = refl
contains-same a [] (r ∷ rows) h = absurd h
contains-same a (q ∷ qs) [] h = absurd h
contains-same a (q ∷ qs) (r ∷ rows) (c, e, h) = rw (c, contains-same a qs rows h)

distinct_companies-same :
    (qs rows : List GroupRow) → AreSame qs rows → distinct_companies qs ≡ distinct_companies rows
unfolding distinct_companies
distinct_companies-same [] [] h = refl
distinct_companies-same [] (r ∷ rows) h = absurd h
distinct_companies-same (q ∷ qs) [] h = absurd h
distinct_companies-same (q ∷ qs) (r ∷ rows) (c, e, h) =
    rw (c, contains-same r.company qs rows h, distinct_companies-same qs rows h)

-- What the checks leave of a group table: one row per company, and none that is enabled unless the
-- transport is the one with groups.
pub record HasGroups (s : Settings) : Type 0 where
  pub distinct : distinct_companies s.company_groups ≡ true
  pub supported : (not (any_enabled s.company_groups) || str_eq s.provider "Linked Device") ≡ true

check_changed-supported :
    (F : Frappe) (user : String) (cs : List String) (s : Settings) (b : Bool)
    → check_changed F user cs s ≡ ok b
    → (not (any_enabled s.company_groups) || str_eq s.provider "Linked Device") ≡ true
unfolding check_changed
check_changed-supported F user cs s b h = elim (Result-cases (check_companies F user cs)) [
  | inr (x, e) ↦ absurd (err-ne-ok x b (rw (e, check_changed) at h))
  | inl (_, e) ↦
      elim (Bool-cases (not (any_enabled s.company_groups) || str_eq s.provider "Linked Device")) [
        | inl f ↦ f
        | inr f ↦ absurd (err-ne-ok _ b (rw (e, f, check_changed) at h))
      ]
]

check_settings-HasGroups :
    (F : Frappe) (user : String) (before : Option Settings) (s : Settings) (b : Bool)
    → check_settings F user before s ≡ ok b
    → HasGroups s
unfolding check_settings
check_settings-HasGroups F user before s b h =
    elim (Bool-cases (distinct_companies s.company_groups)) [
      | inr e ↦ absurd (err-ne-ok _ b (rw (e, check_settings) at h))
      | inl e ↦ record {
        distinct = e;
        supported =
            check_changed-supported F user
              (changed (previous_state before) (state [] s.company_groups)) s b
              (rw (e, check_settings) at h);
      }
    ]

pub HasGroups-rows :
    (s : Settings) (qs : List GroupRow)
    → HasGroups s
    → AreSame qs s.company_groups
    → HasGroups (record s { company_groups = qs })
HasGroups-rows s qs h same = record {
  distinct = distinct_companies-same qs s.company_groups same ∙ h.distinct;
  supported = rw (any_enabled-same qs s.company_groups same) h.supported;
}

-- What `validate_settings` changes: nothing but the names in the rows.
pub record IsRenamed (s t : Settings) : Type 0 where
  pub rows : AreSame t.company_groups s.company_groups
  pub rest : t ≡ record s { company_groups = t.company_groups }

with_rows-IsRenamed :
    (s t : Settings) (r : Result (List GroupRow))
    → ((qs : List GroupRow) → r ≡ ok qs → AreSame qs s.company_groups)
    → with_rows s r ≡ ok t
    → IsRenamed s t
with_rows-IsRenamed s t (ok qs) same h =
    subst (IsRenamed s) (ok-injective (record s { company_groups = qs }) t h)
      (record { rows = same qs refl; rest = refl })
with_rows-IsRenamed s t (err e) same h = absurd (err-ne-ok e t h)

pub validate_settings-IsRenamed :
    (F : Frappe) (before : Option Settings) (s t : Settings) (w : World F)
    → (validate_settings F before s w).0 ≡ ok t
    → HasGroups s × IsRenamed s t
unfolding validate_settings
validate_settings-IsRenamed F before s t w h =
    elim (Result-cases (check_settings F w.user before s)) [
      | inr (x, e) ↦ absurd (err-ne-ok x t (rw (e, validate_settings) at h))
      | inl (false, e) ↦ (
        check_settings-HasGroups F w.user before s false e,
        subst (IsRenamed s) (ok-injective s t (rw (e, validate_settings) at h))
            (record { rows = AreSame-refl s.company_groups; rest = refl }),
      )
      | inl (true, e) ↦ (
        check_settings-HasGroups F w.user before s true e,
        (elim (Bool-cases (any_enabled s.company_groups)) [
          | inl on ↦
              with_rows-IsRenamed s t
                ((joined_groups F w).0 >>= λ groups. checked_rows groups s.company_groups)
                (λ qs k.
                  let (groups, _, checked) = bind-ok (joined_groups F w).0 _ qs k in
                  checked_rows-AreSame groups s.company_groups qs checked)
                (rw (e, on, validate_settings) at h)
          | inr off ↦
              with_rows-IsRenamed s t (checked_rows [] s.company_groups)
                (checked_rows-AreSame [] s.company_groups) (rw (e, off, validate_settings) at h)
        ]),
      )
    ]
