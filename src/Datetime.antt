-- ===== src/Datetime.antt =====
-- Timestamps of the provider: erpnext_whatsapp_connection/datetime_utils.py.
use Prim.Native.Char.{code}
use Prim.Native.String.{[], ◌∷◌}
use erpnext_whatsapp_connect.Base.{
  ℕ, String, Bool, true, false, Option, none, some, str_eq, ◌==◌, if◌then◌else◌, ◌≡◌, refl,
}
use erpnext_whatsapp_connect.Py.Result.{crash, Result, ok, err}
use erpnext_whatsapp_connect.Py.Value.{Value, null, bool, int, str, list, dict}
use erpnext_whatsapp_connect.Py.Text.{concat}
use erpnext_whatsapp_connect.Site.Frappe.{Frappe, Stamp}

-- `text.replace("Z", "+00:00")`.
unfoldable pub replace_z : String → String
replace_z [] = []
replace_z (c ∷ s) =
    let rest = replace_z s in if code c == b'Z' then concat "+00:00" rest else c ∷ rest

replace_z_test : replace_z "2026-01-01T00:00:00Z" ≡ "2026-01-01T00:00:00+00:00"
unfolding replace_z
replace_z_test = refl

-- `value in (None, "")`.
abbrev pub is_missing : Value → Bool
is_missing null = true
is_missing (str s) = str_eq s ""
is_missing (bool _) = false
is_missing (int _) = false
is_missing (list _) = false
is_missing (dict _) = false

module _ (F : Frappe) where
  -- A moment without a zone is taken as the site's; another is carried over to the site's zone.
  abbrev site_moment : Stamp → ℕ
  site_moment stamp = if stamp.aware then F.to_site_zone stamp else stamp.shown

  -- `provider_datetime` on a decoded JSON value, which is never a `datetime`, in the site's zone.
  unfoldable pub provider_datetime : Value → Result (Option ℕ)
  unfolding replace_z
  provider_datetime value =
      if is_missing value then ok none else (elim (F.from_iso (replace_z (F.text_of value))) [
        | none ↦ err (crash "Invalid isoformat string")
        | some stamp ↦ ok (some (site_moment stamp))
      ])
