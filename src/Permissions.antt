-- ===== src/Permissions.antt =====
-- Who may send and who sees a delivery: erpnext_whatsapp_connection/permissions.py.
pub mod Visible
use erpnext_whatsapp_connect.Base.{
  ℕ, String, Bool, true, false, not, ◌&&◌, ◌||◌, Option, none, some, List, [], ◌∷◌, str_eq,
  if◌then◌else◌,
}
use erpnext_whatsapp_connect.Py.Result.{permission, Result, check}
use erpnext_whatsapp_connect.Site.Records.{Delivery}
use erpnext_whatsapp_connect.Site.Frappe.{Frappe}

abbrev pub sender_role : String
sender_role = "ERPNext WhatsApp Sender"

-- The query condition on the delivery list: no condition, the rows of one owner, or no row.
pub data Condition : Type 0 where
  all_rows no_rows : Condition
  owned_by : String → Condition

-- The rows that a condition selects.
abbrev pub selects : Condition → Delivery → Bool
selects all_rows d = true
selects no_rows d = false
selects (owned_by user) d = str_eq d.owner user

-- `user or frappe.session.user`.
abbrev pub or_session : Option String → String → String
or_session none session = session
or_session (some user) session = if str_eq user "" then session else user

module _ (F : Frappe) where
  unfoldable pub is_manager : String → Bool
  is_manager user = F.has_role user "System Manager" || F.has_role user "ERPNext WhatsApp Manager"

  unfoldable pub can_send : String → Bool
  unfolding is_manager
  can_send user = is_manager user || F.has_role user sender_role

  -- `require_sender()` for the user of the session.
  unfoldable pub require_sender : String → Result (Unit {0})
  unfolding can_send
  require_sender session =
      check (not (str_eq session "Guest" || not (can_send session)))
        (permission "You do not have permission to send documents by WhatsApp.")

  unfoldable pub outbound_message_query_conditions : Option String → String → Condition
  unfolding is_manager
  outbound_message_query_conditions user session =
      let name = or_session user session in
      if is_manager name
      then all_rows
      else if F.has_role name sender_role
      then owned_by name
      else no_rows

  unfoldable pub outbound_message_has_permission : Delivery → Option String → String → Bool
  unfolding is_manager
  outbound_message_has_permission d user session =
      let name = or_session user session in
      if is_manager name then true else F.has_role name sender_role && str_eq d.owner name
