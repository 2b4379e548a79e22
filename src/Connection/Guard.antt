-- ===== src/Connection/Guard.antt =====
-- Who manages the connection (erpnext_whatsapp_connection/settings_api.py).
use erpnext_whatsapp_connect.Base.{
  String, Bool, true, false, not, ◌||◌, ◌≡◌, ◌≢◌, ◌⊎◌, inl, inr, str_eq, eq_iff, refl,
  true-ne-false, Bool-cases,
}
use erpnext_whatsapp_connect.Py.Result.{Result, err}
use erpnext_whatsapp_connect.Py.Value.{Value}
use erpnext_whatsapp_connect.Permissions.{is_manager}
use erpnext_whatsapp_connect.Site.Frappe.{Frappe}
use erpnext_whatsapp_connect.Site.World.{World}
use erpnext_whatsapp_connect.Connection.{
  not_manager, is_denied, Credentials, get_status, connect, disconnect_and_remove_authentication,
  configure_official_api,
}

either-true : (a b : Bool) → (a || b) ≡ true → (a ≡ true) ⊎ (b ≡ true)
either-true true b h = inl h
either-true false b h = inr h

not_either : (a b : Bool) → (a || not b) ≡ false → (a ≡ false) × (b ≡ true)
not_either true b h = absurd (true-ne-false true refl h)
not_either false true h = (refl, refl)
not_either false false h = absurd (true-ne-false true refl h)

module _ (F : Frappe) where
  -- Who may manage: no guest, and one of the two roles.
  abbrev pub MayManage : String → Type 0
  MayManage user =
      (user ≢ "Guest")
      × ((F.has_role user "System Manager" ≡ true)
          ⊎ (F.has_role user "ERPNext WhatsApp Manager" ≡ true))

  is_denied-MayManage : (user : String) → is_denied F user ≡ false → MayManage user
  unfolding is_manager
  is_denied-MayManage user h =
      let (known, manager) = not_either (str_eq user "Guest") (is_manager F user) h in
      (
        λ same. true-ne-false (str_eq user "Guest") ((eq_iff user "Guest").1 same) known,
        either-true (F.has_role user "System Manager") _ manager,
      )

  -- The operation is refused at once, and the site is as it was.
  abbrev pub IsRefused : World F → Result Value × World F → Type 0
  IsRefused w r = r ≡ (err not_manager, w)

  -- Unless the user of the session is no guest and has the role System Manager or ERPNext WhatsApp
  -- Manager, each of the four operations on the connection (its status, connecting, disconnecting and
  -- the configuration of the official API) raises at once, sends nothing to the gateway and leaves the
  -- site as it is.
  pub connection_guarded :
      (c : Credentials) (w : World F)
      → MayManage w.user
        ⊎ (IsRefused w (get_status F w)
            × IsRefused w (connect F w)
            × IsRefused w (disconnect_and_remove_authentication F w)
            × IsRefused w (configure_official_api F c w))
  unfolding get_status connect disconnect_and_remove_authentication configure_official_api
  connection_guarded c w = elim (Bool-cases (is_denied F w.user)) [
    | inl e ↦ inr (rw e, rw e, rw e, rw e)
    | inr e ↦ inl (is_denied-MayManage w.user e)
  ]
