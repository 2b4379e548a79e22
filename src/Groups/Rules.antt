-- ===== src/Groups/Rules.antt =====
-- The rules for saving the company groups: `validate_settings` of
-- erpnext_whatsapp_connection/company_groups.py.
use erpnext_whatsapp_connect.Base.{
  String, Bool, true, false, not, ◌&&◌, ◌||◌, Option, none, some, List, [], ◌∷◌, ◌++◌, keep,
  contains, str_eq, map, if◌then◌else◌,
}
use erpnext_whatsapp_connect.Py.Result.{validation, Result, ok, err, check, ◌>>=◌, ◌>>◌}
use erpnext_whatsapp_connect.Py.Action.{Action}
use erpnext_whatsapp_connect.Site.Records.{Settings, GroupRow}
use erpnext_whatsapp_connect.Site.Frappe.{Frappe}
use erpnext_whatsapp_connect.Site.World.{World}
use erpnext_whatsapp_connect.Groups.Identity.{group_id}
use erpnext_whatsapp_connect.Groups.Config.{Groups, lookup, joined_groups, check_company}

-- `{row.company: (cint(row.enabled), row.group_id) for row in rows}`.
abbrev pub State : Type 0
State = List (String × (Bool × String))

unfoldable pub record_state : String → Bool × String → State → State
record_state c v [] = (c, v) ∷ []
record_state c v ((k, u) ∷ rest) =
    if str_eq k c then (k, v) ∷ rest else (k, u) ∷ record_state c v rest

unfoldable pub state : State → List GroupRow → State
unfolding record_state
state acc [] = acc
state acc (r ∷ rows) = state (record_state r.company (r.enabled, r.group_id) acc) rows

unfoldable pub state_of : String → State → Option (Bool × String)
state_of c [] = none
state_of c ((k, v) ∷ rest) = if str_eq k c then some v else state_of c rest

abbrev pub bool_eq : Bool → Bool → Bool
bool_eq true b = b
bool_eq false b = not b

abbrev pub entry_eq : Option (Bool × String) → Option (Bool × String) → Bool
entry_eq none none = true
entry_eq none (some _) = false
entry_eq (some _) none = false
entry_eq (some (a, s)) (some (b, t)) = bool_eq a b && str_eq s t

-- The companies whose entry differs, in the order of the two dicts.
unfoldable pub changed : State → State → List String
unfolding state_of
changed previous current =
    keep (λ c. not (entry_eq (state_of c previous) (state_of c current)))
      (map (λ e. e.0) previous ++ map (λ e. e.0) current)

-- `len({row.company for row in rows}) == len(rows)`.
unfoldable pub distinct_companies : List GroupRow → Bool
distinct_companies [] = true
distinct_companies (r ∷ rows) =
    not (contains r.company (map (λ q. q.company) rows)) && distinct_companies rows

abbrev pub any_enabled : List GroupRow → Bool
any_enabled [] = false
any_enabled (r ∷ rows) = r.enabled || any_enabled rows

module _ (F : Frappe) where
  unfoldable pub check_companies : String → List String → Result (Unit {0})
  check_companies user [] = ok tt
  check_companies user (c ∷ cs) = check_company F user (some c) >> check_companies user cs

-- One row of the last loop, and the loop.
unfoldable pub checked_row : Groups → GroupRow → Result GroupRow
checked_row groups r = do
  id ← group_id r.group_id
  if r.enabled
      then (elim (lookup r.group_id groups) [
        | none ↦ err (validation "Select a group currently joined by this site account.")
        | some name ↦ ok (record r { group_name = name })
      ])
      else ok r

unfoldable pub checked_rows : Groups → List GroupRow → Result (List GroupRow)
unfolding checked_row
checked_rows groups [] = ok []
checked_rows groups (r ∷ rows) = do
  q ← checked_row groups r
  qs ← checked_rows groups rows
  ok (q ∷ qs)

abbrev pub with_rows : Settings → Result (List GroupRow) → Result Settings
with_rows s (ok rows) = ok (record s { company_groups = rows })
with_rows s (err e) = err e

-- `bool(changed)`, and the state before the save.
abbrev pub has_any : List String → Bool
has_any [] = false
has_any (_ ∷ _) = true

unfoldable pub previous_state : Option Settings → State
unfolding state
previous_state none = []
previous_state (some before) = state [] before.company_groups

module _ (F : Frappe) where
  -- The checks once the companies whose entry changed are known; the result says whether any did.
  unfoldable pub check_changed : String → List String → Settings → Result Bool
  unfolding check_companies
  check_changed user cs s = do
    check_companies F user cs
    check (not (any_enabled s.company_groups) || str_eq s.provider "Linked Device")
        (validation "Disable group copies before selecting a transport without group support.")
    ok (has_any cs)

  -- The checks of `validate_settings` that need no gateway.
  unfoldable pub check_settings : String → Option Settings → Settings → Result Bool
  unfolding changed state distinct_companies check_changed
  check_settings user before s =
      check (distinct_companies s.company_groups)
        (validation "Configure at most one WhatsApp group per company.")
      >> check_changed user (changed (previous_state before) (state [] s.company_groups)) s

  unfoldable pub validate_settings : Option Settings → Settings → Action (World F) Settings
  unfolding check_settings checked_rows joined_groups
  validate_settings before s w = elim (check_settings w.user before s) [
    | err e ↦ (err e, w)
    | ok false ↦ (ok s, w)
    | ok true ↦
        if any_enabled s.company_groups
        then (let (r, w') = joined_groups F w in
            (with_rows s (r >>= λ groups. checked_rows groups s.company_groups), w'))
        else (with_rows s (checked_rows [] s.company_groups), w)
  ]
