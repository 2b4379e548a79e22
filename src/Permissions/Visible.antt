-- ===== src/Permissions/Visible.antt =====
-- Who sees a delivery (erpnext_whatsapp_connection/permissions.py).
use erpnext_whatsapp_connect.Base.{String, Option, ◌≡◌, Bool-cases, inl, inr}
use erpnext_whatsapp_connect.Site.Records.{Delivery}
use erpnext_whatsapp_connect.Site.Frappe.{Frappe}
use erpnext_whatsapp_connect.Permissions.{
  selects, outbound_message_query_conditions, outbound_message_has_permission, or_session,
  is_manager, sender_role,
}

module _ (F : Frappe) where
  -- The list query and the permission check of one row agree: for every user, the query selects
  -- exactly the rows that the user has permission for.
  pub outbound_message_visibility :
      (d : Delivery) (user : Option String) (session : String)
      → selects (outbound_message_query_conditions F user session) d
        ≡ outbound_message_has_permission F d user session
  unfolding outbound_message_query_conditions outbound_message_has_permission
  outbound_message_visibility d user session =
      elim (Bool-cases (is_manager F (or_session user session))) [
        | inl e ↦ rw e
        | inr e ↦ rw e (elim (Bool-cases (F.has_role (or_session user session) sender_role)) [
          | inl s ↦ rw s
          | inr s ↦ rw s
        ])
      ]
