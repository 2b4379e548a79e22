-- ===== src/Groups/Config.antt =====
-- The configured group of a company: `joined_groups`, `_company`, `list_groups` and
-- `configured_group` of erpnext_whatsapp_connection/company_groups.py.
use erpnext_whatsapp_connect.Base.{
  String, Bool, false, ◌&&◌, Option, none, some, List, [], ◌∷◌, keep, str_eq, map, if◌then◌else◌,
}
use erpnext_whatsapp_connect.Py.Result.{
  Error, validation, permission, crash, Result, ok, err, check, or_error, ◌>>=◌, ◌>>◌,
}
use erpnext_whatsapp_connect.Py.Action.{Action}
use erpnext_whatsapp_connect.Py.Value.{
  Value, str, end, get, find_key, as_str, as_dict, as_list, or_else,
}
use erpnext_whatsapp_connect.Site.Records.{Settings, GroupRow}
use erpnext_whatsapp_connect.Site.Frappe.{Frappe}
use erpnext_whatsapp_connect.Site.World.{World}
use erpnext_whatsapp_connect.Gateway.{gateway_request, site_payload, get_of}
use erpnext_whatsapp_connect.Groups.Identity.{group_id}

-- A dict from group identities to names.
abbrev pub Groups : Type 0
Groups = List (String × String)

unfoldable pub lookup : String → Groups → Option String
lookup k [] = none
lookup k ((j, v) ∷ rest) = if str_eq j k then some v else lookup k rest

unfoldable pub insert : String → String → Groups → Groups
insert k v [] = (k, v) ∷ []
insert k v ((j, w) ∷ rest) = if str_eq j k then (j, v) ∷ rest else (j, w) ∷ insert k v rest

abbrev pub bad_list : Error
bad_list = validation "The gateway did not return a valid group list."

-- The entries of a gateway's list, `{group_id(row['id']): str(row.get('name') or '')}`.
module _ (F : Frappe) where
  entry_id : Value → Result String
  entry_id v = elim (as_str v) [
    | none ↦ err (validation "Select a valid joined WhatsApp group.")
    | some s ↦ group_id s
  ]

  entry : Value → Result (String × String)
  unfolding entry_id
  entry row = do
    fields ← or_error (crash "string indices must be integers") (as_dict row)
    key ← or_error (crash "'id'") (find_key fields "id")
    id ← entry_id key
    ok (id, F.text_of (or_else (get fields "name") (str "")))

  unfoldable pub collect : List Value → Groups → Result Groups
  unfolding entry
  collect [] groups = ok groups
  collect (row ∷ rows) groups = entry row >>= λ e. collect rows (insert e.0 e.1 groups)

  unfoldable pub read_groups : Value → Result Groups
  unfolding collect
  read_groups result = do
    groups ← get_of result "groups"
    rows ← or_error bad_list (as_list groups)
    collect rows []

  unfoldable pub joined_groups : Action (World F) Groups
  unfolding read_groups
  joined_groups w =
      let (r, w') = gateway_request F "/v1/groups" (site_payload F end) w in (r >>= read_groups, w')

  -- `_company`, for the user of the session.
  unfoldable pub check_company : String → Option String → Result (Unit {0})
  check_company user none = err (permission "A group copy requires one explicit permitted company.")
  check_company user (some c) =
      if str_eq c ""
      then err (permission "A group copy requires one explicit permitted company.")
      else do
        or_error (validation "Company not found") (F.get_doc "Company" c)
        check (F.may user "read" "Company" c) (permission "Not permitted")

-- `name or _('Unnamed group')`.
abbrev pub label : String × String → String × String
label (id, name) = (id, if str_eq name "" then "Unnamed group" else name)

-- `row.company == company and cint(row.enabled)`.
abbrev pub is_match : Option String → GroupRow → Bool
is_match none r = false
is_match (some c) r = str_eq r.company c && r.enabled

module _ (F : Frappe) where
  -- The verdict of `configured_group` on the rows that match.
  unfoldable pub choose_group :
      String → String → Option String → List GroupRow → Result (Option String)
  choose_group user provider company [] = ok none
  choose_group user provider company (r ∷ []) =
      if str_eq provider "Linked Device"
      then (do check_company F user company; g ← group_id r.group_id; ok (some g))
      else err (validation "The company group configuration requires reconciliation.")
  choose_group user provider company (r ∷ (q ∷ rest)) =
      err (validation "The company group configuration requires reconciliation.")

  unfoldable pub configured_group : String → Settings → Option String → Result (Option String)
  unfolding choose_group
  configured_group user settings company =
      choose_group user settings.provider company (keep (is_match company) settings.company_groups)

module _ (F : Frappe) where
  unfoldable pub may_list_groups : String → Settings → Option String → Result (Unit {0})
  may_list_groups user settings company = do
    check (F.may user "write" "ERPNext WhatsApp Settings" "")
        (permission "WhatsApp Settings Write permission is required.")
    check_company F user company
    check (str_eq settings.provider "Linked Device")
        (validation "Group copies require Linked Device transport.")

  -- `list_groups`: each joined group with its label.
  unfoldable pub list_groups : Option String → Action (World F) Groups
  unfolding joined_groups may_list_groups
  list_groups company w = elim (may_list_groups w.user w.settings company) [
    | err e ↦ (err e, w)
    | ok _ ↦ let (r, w') = joined_groups F w in (r >>= λ groups. ok (map label groups), w')
  ]
