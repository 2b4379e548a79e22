-- ===== src/Settings/Sound.antt =====
-- What a save of the settings guarantees
-- (doctype/erpnext_whatsapp_settings/erpnext_whatsapp_settings.py and company_groups.py).
use erpnext_whatsapp_connect.Base.{
  ℕ, ◌≤◌, Bool, true, not, ◌||◌, Option, some, List, ◌≡◌, refl, sym, ap, subst, arith, inl, inr,
  Bool-cases, str_eq, ℤ, pos, ◌≤ℤ◌,
}
use erpnext_whatsapp_connect.Py.Result.{Result, ok, err, err-ne-ok}
use erpnext_whatsapp_connect.Site.Records.{Settings, GroupRow}
use erpnext_whatsapp_connect.Site.Frappe.{Frappe}
use erpnext_whatsapp_connect.Site.World.{World}
use erpnext_whatsapp_connect.Groups.Rules.{any_enabled, distinct_companies}
use erpnext_whatsapp_connect.Settings.{
  is_supported, clamped, clamp_retries, validate, stored, save_settings,
}
use erpnext_whatsapp_connect.Settings.Bounds.{throttle_ms-clamp_throttle, clamp_retries_bounds}
use erpnext_whatsapp_connect.Groups.Renamed.{HasGroups, HasGroups-rows, validate_settings-IsRenamed}

-- Settings that the other parts can rely on.
pub record IsSound (t : Settings) : Type 0 where
  pub provider : is_supported t.provider ≡ true
  pub throttle : (n : ℕ) × (t.throttle_seconds ≡ some (pos n)) × (10 ≤ n) × (n ≤ 300)
  pub retries : (m : ℤ) × (t.maximum_retries ≡ some m) × (pos 0 ≤ℤ m) × (m ≤ℤ pos 5)
  pub distinct : distinct_companies t.company_groups ≡ true
  pub groups : any_enabled t.company_groups ≡ true → str_eq t.provider "Linked Device" ≡ true

or-second : (b c : Bool) → (not b || c) ≡ true → b ≡ true → c ≡ true
or-second b c h k = ground arith

clamped-IsSound :
    (s : Settings) (qs : List GroupRow)
    → is_supported s.provider ≡ true
    → HasGroups (record (clamped s) { company_groups = qs })
    → IsSound (record (clamped s) { company_groups = qs })
clamped-IsSound s qs known h =
    let (n, e, low, high, _) = throttle_ms-clamp_throttle s.throttle_seconds in
    let (least, most) = clamp_retries_bounds s.maximum_retries in
    record {
      provider = known;
      throttle = (n, ap some e, low, high);
      retries = (clamp_retries s.maximum_retries, refl, least, most);
      distinct = h.distinct;
      groups = or-second (any_enabled qs) (str_eq s.provider "Linked Device") h.supported;
    }

module _ (F : Frappe) where
  validate-IsSound :
      (before : Option Settings) (s t : Settings) (w : World F)
      → (validate F before s w).0 ≡ ok t
      → IsSound t
  unfolding validate
  validate-IsSound before s t w h = elim (Bool-cases (is_supported s.provider)) [
    | inr e ↦ absurd (err-ne-ok _ t (rw (e, validate) at h))
    | inl e ↦
        let (good, renamed) =
          validate_settings-IsRenamed F before (clamped s) t w (rw (e, validate) at h) in
        subst IsSound (sym renamed.rest) (
          clamped-IsSound s t.company_groups e
            (HasGroups-rows (clamped s) t.company_groups good renamed.rows))
  ]

  stored-ok :
      (r : Result Settings × World F)
      → (stored F r).0 ≡ ok tt
      → (t : Settings) × (r.0 ≡ ok t) × ((stored F r).1.settings ≡ t)
  stored-ok (ok t, w) h = (t, refl, refl)
  stored-ok (err e, w) h = absurd (err-ne-ok e tt h)

  -- Settings that a save accepts are sound, whatever was asked for: a known transport, 10 to 300
  -- seconds between messages, 0 to 5 retries, one group per company at most, and no enabled group
  -- unless the transport is Linked Device.
  pub save_settings-IsSound :
      (s : Settings) (w : World F)
      → (save_settings F s w).0 ≡ ok tt
      → IsSound (save_settings F s w).1.settings
  unfolding save_settings
  save_settings-IsSound s w h =
      let (t, e, same) = stored-ok (validate F (some w.settings) s w) h in
      subst IsSound (sym same) (validate-IsSound (some w.settings) s t w e)
