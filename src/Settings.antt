-- ===== src/Settings.antt =====
-- The controller of the settings: `ERPNextWhatsAppSettings.validate` of
-- doctype/erpnext_whatsapp_settings/erpnext_whatsapp_settings.py, and the save that runs it.
pub mod Bounds
pub mod Sound
use erpnext_whatsapp_connect.Base.{
  String, Bool, true, false, ◌||◌, Option, none, some, ℤ, pos, negsuc, max_ℤ, min_ℤ, str_eq,
  if◌then◌else◌, ◌==◌,
}
use erpnext_whatsapp_connect.Py.Result.{validation, Result, ok, err}
use erpnext_whatsapp_connect.Py.Action.{Action}
use erpnext_whatsapp_connect.Site.Records.{Settings}
use erpnext_whatsapp_connect.Site.Frappe.{Frappe}
use erpnext_whatsapp_connect.Site.World.{World}
use erpnext_whatsapp_connect.Groups.Rules.{validate_settings}

-- `throttle_seconds or 10`, which takes 0 for missing.
abbrev pub throttle_or_ten : Option ℤ → ℤ
throttle_or_ten none = pos 10
throttle_or_ten (some (pos n)) = if n == 0 then pos 10 else pos n
throttle_or_ten (some (negsuc n)) = negsuc n

-- `maximum_retries if maximum_retries is not None else 3`.
abbrev pub retries_or_three : Option ℤ → ℤ
retries_or_three none = pos 3
retries_or_three (some n) = n

unfoldable pub clamp_throttle : Option ℤ → ℤ
clamp_throttle n = max_ℤ (pos 10) (min_ℤ (pos 300) (throttle_or_ten n))

unfoldable pub clamp_retries : Option ℤ → ℤ
clamp_retries n = max_ℤ (pos 0) (min_ℤ (pos 5) (retries_or_three n))

abbrev pub clamped : Settings → Settings
clamped s = record s {
  throttle_seconds = some (clamp_throttle s.throttle_seconds);
  maximum_retries = some (clamp_retries s.maximum_retries);
}

abbrev pub is_supported : String → Bool
is_supported provider = str_eq provider "Linked Device" || str_eq provider "Official API"

module _ (F : Frappe) where
  unfoldable pub validate : Option Settings → Settings → Action (World F) Settings
  validate before s w =
      if is_supported s.provider
      then validate_settings F before (clamped s) w
      else (err (validation "Select a supported WhatsApp provider."), w)

  abbrev pub stored : Result Settings × World F → Result (Unit {0}) × World F
  stored (ok s, w) = (ok tt, record w { settings = s })
  stored (err e, w) = (err e, w)

  -- `settings.save(ignore_permissions=True)`.
  unfoldable pub save_settings : Settings → Action (World F) (Unit {0})
  unfolding validate
  save_settings s w = stored (validate (some w.settings) s w)
