-- ===== src/Tests/Data.antt =====
-- Rows, settings and sites that the examples share.
use erpnext_whatsapp_connect.Sending.Store.{Answer}
use erpnext_whatsapp_connect.Base.{String, true, false, none, some, List, [], ◌∷◌, pos}
use erpnext_whatsapp_connect.Py.Value.{null}
use erpnext_whatsapp_connect.Site.Records.{
  Delivery, Settings, queued, submitted, waiting, individual, group, document,
}
use erpnext_whatsapp_connect.Site.World.{World}
use erpnext_whatsapp_connect.Tests.Site.{site}

abbrev pub acme_group : String
acme_group = "120363000000000001@g.us"

abbrev pub primary : Delivery
primary = record {
  name = "WA-1";
  owner = "alice";
  status = queued;
  provider = "Linked Device";
  company = some "ACME";
  recipient_type = individual;
  copy_of = none;
  reconciliation_required = false;
  reference_type = document;
  reference_doctype = some "Sales Invoice";
  reference_name = some "SINV-1";
  report_name = none;
  report_filters = none;
  recipient = "+491511234567";
  recipient_masked = "+49*****567";
  message_template = none;
  message_text = "Dear customer";
  print_format = some "Standard";
  pdf_file = some "F1";
  pdf_sha256 = some "sum";
  source_modified = some "v1";
  queued_at = some 10;
  attempted_at = none;
  submitted_at = none;
  acknowledged_at = none;
  next_retry_at = none;
  retry_count = pos 0;
  max_retries = pos 3;
  idempotency_key = "k1";
  provider_message_ids = none;
  result_message = none;
  error_message = none;
}

-- The primary once it has been sent, and its group copy.
abbrev pub delivered : Delivery
delivered = record primary { status = submitted; provider_message_ids = some "[1]" }

abbrev pub copy : Delivery
copy = record primary {
  name = "WA-2";
  recipient_type = group;
  copy_of = some "WA-1";
  recipient = acme_group;
  idempotency_key = "k2";
}

abbrev pub options : Settings
options = record {
  enabled = true;
  provider = "Linked Device";
  require_submitted_documents = true;
  throttle_seconds = some (pos 10);
  maximum_retries = some (pos 3);
  last_event_id = pos 0;
  company_groups =
      record { company = "ACME"; enabled = true; group_id = acme_group; group_name = "Sales" } ∷ [];
  connection_status = null;
  last_error = null;
  last_connected_at = null;
  last_disconnected_at = null;
  official_phone_number_id = "";
  official_business_account_id = "";
  official_api_version = "";
  webhook_url = "";
}

abbrev pub holding : List Delivery → World site
holding rows = record {
  table = rows;
  files = [];
  templates = [];
  settings = options;
  user = "Administrator";
  jobs = [];
  log = [];
  tick = 0;
}

abbrev pub fresh : World site
fresh = holding (primary ∷ [])

abbrev pub sent : World site
sent = holding (delivered ∷ copy ∷ [])

-- A site without rows.
abbrev pub office : World site
office = holding []

-- The customer's row and the group's copy.
abbrev pub answer : Answer
answer = record {
  stored = record { name = "WA"; status = queued };
  group_copy = some (record { name = "WAWAWA"; status = waiting });
}
