-- ===== src/Sending/Attempts.antt =====
-- A queued delivery and its first attempt: `queue_document` and `queue_report` of
-- erpnext_whatsapp_connection/api.py with `process_outbound_message` of
-- erpnext_whatsapp_connection/outbound.py.
use erpnext_whatsapp_connect.Base.{String, some, ◌≡◌}
use erpnext_whatsapp_connect.Site.Records.{Delivery}
use erpnext_whatsapp_connect.Site.Frappe.{Frappe}
use erpnext_whatsapp_connect.Site.World.{World}
use erpnext_whatsapp_connect.Groups.Release.{EndsOrQueue}
use erpnext_whatsapp_connect.Outbound.Worker.{claimed, process_outbound_message}
use erpnext_whatsapp_connect.Outbound.Retry.{Verdict}
use erpnext_whatsapp_connect.Outbound.Outcome.{SameRow}

module _ (F : Frappe) where
  -- A worker's first run on a row, in a world where the row is ready.
  pub record IsAttempted (n : String) (v : World F) : Type 0 where
    pub before : Delivery
    pub done : Delivery
    pub was : F.find v.table n ≡ some before
    pub quiet : EndsOrQueue F (process_outbound_message F n v).0
    pub found : F.find (process_outbound_message F n v).1.table n ≡ some done
    pub same : SameRow (claimed before (F.clock v.tick)) done
    pub verdict : Verdict F 0 done
