-- ===== src/Acceptance/Installed.antt =====
-- The checks of an installation and of the group fixture that migrations must preserve:
-- erpnext_whatsapp_connection/acceptance.py.
use erpnext_whatsapp_connect.Base.{
  ℕ, suc, String, Bool, true, false, not, ◌&&◌, ◌||◌, Option, none, some, List, [], ◌∷◌, ◌++◌, ◌==◌,
  pos, contains, length, keep, all, str_eq, if◌then◌else◌,
}
use erpnext_whatsapp_connect.Py.Result.{
  Error, validation, crash, Result, ok, err, check, or_error, ◌>>=◌, ◌>>◌,
}
use erpnext_whatsapp_connect.Py.Action as Action
use erpnext_whatsapp_connect.Py.Action.{Action, for_each}
use erpnext_whatsapp_connect.Py.Value.{
  Value, Items, nil, cons, bool, int, str, list, dict, Fields, end, field, get, as_str, as_dict,
  truthy,
}
use erpnext_whatsapp_connect.Py.Equality.{value_eq}
use erpnext_whatsapp_connect.Py.Text.{concat}
use erpnext_whatsapp_connect.Site.Records.{Template}
use erpnext_whatsapp_connect.Site.Frappe.{Frappe, plain}
use erpnext_whatsapp_connect.Templates.{exists}
use erpnext_whatsapp_connect.Install.{Setup, is_named, after_migrate}
use erpnext_whatsapp_connect.Acceptance.Peer.{fixture_site}

-- What the checks read of the site: a row of the settings is a dict of its fields, and the snapshot
-- is one of the site's default values.
pub record TestSite : Type 0 where
  pub roles : List String
  pub doctypes : List String
  pub templates : List Template
  pub warehouse_types : List String
  pub companies : List String
  pub company_groups : List Fields
  pub snapshot : Option String

abbrev pub required_doctypes : List String
required_doctypes =
    "ERPNext WhatsApp Settings" ∷ "ERPNext WhatsApp Message Template"
    ∷ "ERPNext WhatsApp Delivery History" ∷ "ERPNext WhatsApp Company Group" ∷ []

abbrev pub required_roles : List String
required_roles = "ERPNext WhatsApp Manager" ∷ "ERPNext WhatsApp Sender" ∷ []

-- The part of the site that a migration sets up.
abbrev pub setup_of : TestSite → Setup
setup_of s = record {
  roles = s.roles;
  has_doctype = contains "ERPNext WhatsApp Message Template" s.doctypes;
  templates = s.templates;
}

abbrev pub with_setup : TestSite → Result (Unit {0}) × Setup → Result (Unit {0}) × TestSite
with_setup s (r, t) = (r, record s { roles = t.roles; templates = t.templates })

unfoldable pub migrate : Action TestSite (Unit {0})
migrate s = with_setup s (after_migrate (setup_of s))

-- The loops over the required names, which raise for the first that is missing.
unfoldable pub check_all : String → List String → List String → Result (Unit {0})
check_all text [] present = ok tt
check_all text (n ∷ ns) present =
    check (contains n present) (validation (concat text n)) >> check_all text ns present

-- `frappe.db.count(..., {"name": name})`.
unfoldable pub count_named : String → List Template → ℕ
count_named name [] = 0
count_named name (t ∷ ts) =
    let rest = count_named name ts in if is_named name t then suc rest else rest

unfoldable pub check_contract : TestSite → Result (Unit {0})
unfolding check_all count_named
check_contract s = do
  check_all "Missing installed DocType: " required_doctypes s.doctypes
  check_all "Missing installed role: " required_roles s.roles
  check (exists (is_named "Default Sales Invoice") s.templates)
      (validation "Default Sales Invoice message template was not seeded")
  check (count_named "Default Sales Invoice" s.templates == 1)
      (validation "Default Sales Invoice message template is not idempotent")

abbrev pub no_fixture : Error
no_fixture = crash "Original group preservation fixture is missing"

abbrev pub changed_groups : Error
changed_groups = crash "Migration changed original company group configuration"

-- `any(row.get(key) != value for key, value in snapshot.items())`, turned round.
unfoldable pub agrees : Fields → Fields → Bool
agrees row end = true
agrees row (field k v rest) = value_eq (get row k) v && agrees row rest

-- The row of settings that have one only.
abbrev pub only_row : List Fields → Option Fields
only_row [] = none
only_row (row ∷ []) = some row
only_row (row ∷ (next ∷ rows)) = none

unfoldable pub check_rows : List Fields → Value → Result (Unit {0})
unfolding agrees
check_rows rows snapshot = or_error changed_groups (only_row rows) >>= λ row.
    or_error (crash "object has no attribute 'items'") (as_dict snapshot) >>= λ fields.
    check (agrees row fields) changed_groups

-- What the fixture needs of ERPNext: the presets of a country, and the inserts and the save, which
-- may refuse; `save_row` gives the appended row as it is stored, with its name.
pub record Native : Type 0 where
  pub presets : String → List Fields
  pub insert_error : String → Option Error
  pub save_row : Fields → Result Fields

abbrev pub text_items : List String → Items
text_items [] = nil
text_items (n ∷ ns) = cons (str n) (text_items ns)

abbrev pub name_list : List String → Value
name_list names = list (text_items names)

abbrev pub not_disposable : String → Error
not_disposable what = crash (concat what " requires the disposable integration site")

abbrev pub snapshot_text : Option String → String
snapshot_text none = "{}"
snapshot_text (some s) = if str_eq s "" then "{}" else s

-- The checks that follow the two migrations, and what they return.
abbrev pub installation_report : Fields
installation_report = field "app" (str "erpnext_whatsapp_connection") (
    field "doctypes" (name_list required_doctypes) (
      field "roles" (name_list required_roles) (
        field "repeat_migration" (str "passed")
          (field "company_group_settings_preserved" (bool true) end))))

abbrev pub is_preset : Fields → Bool
is_preset row = value_eq (get row "doctype") (str "Warehouse Type")

-- A preset with a name that is a text and not empty.
abbrev pub has_name : Option String → Bool
has_name none = false
has_name (some name) = not (str_eq name "")

abbrev pub preset_name : Fields → Option String
preset_name row = as_str (get row "name")

unfoldable pub add_preset : Native → Fields → Action TestSite (Unit {0})
add_preset N row s = elim (preset_name row) [
  | none ↦ (ok tt, s)
  | some name ↦ if contains name s.warehouse_types then (ok tt, s) else elim (N.insert_error name) [
    | none ↦ (ok tt, record s { warehouse_types = s.warehouse_types ++ name ∷ [] })
    | some e ↦ (err e, s)
  ]
]

abbrev pub bad_presets : Error
bad_presets = crash "Native company Warehouse Type presets are missing or invalid"

abbrev pub fixture_company : String
fixture_company = "WhatsApp Fixture Company"

-- The row that is appended.
abbrev pub fixture_row : Fields
fixture_row = field "company" (str fixture_company) (
    field "enabled" (int (pos 0)) (
      field "group_id" (str "120000000000000000@g.us")
        (field "group_name" (str "Synthetic disabled group") end)))

abbrev pub snapshot_of : Fields → Fields
snapshot_of row = field "company" (str fixture_company) (
    field "name" (get row "name")
      (field "group_id" (get row "group_id") (field "enabled" (int (pos 0)) end)))

-- `except Exception: frappe.db.rollback(); raise`.
abbrev pub or_rollback : TestSite → Result (Unit {0}) × TestSite → Result (Unit {0}) × TestSite
or_rollback before (ok u, s) = (ok u, s)
or_rollback before (err e, s) = (err e, before)

module _ (F : Frappe) where
  unfoldable pub validate_group_preservation : TestSite → Result (Unit {0})
  unfolding check_rows
  validate_group_preservation s = do
    check (str_eq F.site fixture_site) (not_disposable "Group preservation")
    snapshot ← F.parse_json (snapshot_text s.snapshot)
    check (truthy snapshot) no_fixture
    check_rows s.company_groups snapshot

  abbrev pub after_checks : Action TestSite Fields
  after_checks s =
      (check_contract s >> (validate_group_preservation s >> ok installation_report), s)

  unfoldable pub validate_installation : Action TestSite Fields
  unfolding migrate check_contract validate_group_preservation
  validate_installation s =
      Action.continue (λ _ t. Action.continue (λ _. after_checks) (migrate t)) (migrate s)

  -- `_prepare_company_prerequisites`.
  unfoldable pub prepare_prerequisites : Native → String → Action TestSite (Unit {0})
  unfolding add_preset for_each
  prepare_prerequisites N country s =
      let records = keep is_preset (N.presets country) in
      if not (str_eq F.site fixture_site)
      then (err (not_disposable "Company prerequisites"), s)
      else if length records == 0 || not (all (λ row. has_name (preset_name row)) records)
      then (err bad_presets, s)
      else for_each records (add_preset N) s

  -- The body of the `try`, after the prerequisites.
  unfoldable pub add_fixture : Native → Action TestSite (Unit {0})
  add_fixture N s = elim (N.insert_error fixture_company) [
    | some e ↦ (err e, s)
    | none ↦ elim (N.save_row fixture_row) [
      | err e ↦ (err e, s)
      | ok row ↦ (
        ok tt,
        record s {
          companies = s.companies ++ fixture_company ∷ [];
          company_groups = row ∷ [];
          snapshot = some (F.dumps plain (dict (snapshot_of row)));
        },
      )
    ]
  ]

  unfoldable pub prepare_group_preservation : Native → Action TestSite (Unit {0})
  unfolding prepare_prerequisites add_fixture
  prepare_group_preservation N s =
      if not (str_eq F.site fixture_site)
      then (err (not_disposable "Group preservation"), s)
      else if not (length s.company_groups == 0)
      then (err (crash "Fresh group fixture must not overwrite existing configuration"), s)
      else or_rollback s
          (Action.continue (λ _. add_fixture N) (prepare_prerequisites N "United States" s))
