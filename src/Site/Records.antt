-- ===== src/Site/Records.antt =====
-- The rows that the app stores: the DocTypes Delivery History, Settings and Company Group, with their
-- fields, and the jobs and requests that leave it.
use erpnext_whatsapp_connect.Base.{
  ℕ, String, Bool, true, false, Option, none, some, List, ℤ, str_eq, if◌then◌else◌,
}
use erpnext_whatsapp_connect.Py.Value.{Value, Fields}

-- The options of the field `status`; the gateway's events may write any other text.
pub data Status : Type 0 where
  queued processing submitted acknowledged failed waiting : Status
  other : String → Status

abbrev pub status_text : Status → String
status_text queued = "Queued"
status_text processing = "Processing"
status_text submitted = "Submitted to WhatsApp"
status_text acknowledged = "Acknowledged by WhatsApp"
status_text failed = "Failed"
status_text waiting = "Waiting for Primary"
status_text (other s) = s

-- A stored text as a status.
abbrev pub parse_status : String → Status
parse_status s =
    if str_eq s "Queued"
    then queued
    else (if str_eq s "Processing"
        then processing
        else (if str_eq s "Submitted to WhatsApp"
            then submitted
            else (if str_eq s "Acknowledged by WhatsApp"
                then acknowledged
                else (if str_eq s "Failed"
                    then failed
                    else (if str_eq s "Waiting for Primary" then waiting else other s)))))

-- `unset` is an empty field, as rows from before the field have it.
pub data RecipientType : Type 0 where
  individual group unset : RecipientType

abbrev pub recipient_type_text : RecipientType → Option String
recipient_type_text individual = some "Individual"
recipient_type_text group = some "Group"
recipient_type_text unset = none

abbrev pub is_group : RecipientType → Bool
is_group group = true
is_group individual = false
is_group unset = false

pub data ReferenceType : Type 0 where
  document report : ReferenceType

abbrev pub reference_type_text : ReferenceType → String
reference_type_text document = "Document"
reference_type_text report = "Report"

-- Moments are numbers on the site's clock; `none` is an empty field.
pub record Delivery : Type 0 where
  pub name : String
  pub owner : String
  pub status : Status
  pub provider : String
  pub company : Option String
  pub recipient_type : RecipientType
  pub copy_of : Option String
  pub reconciliation_required : Bool
  pub reference_type : ReferenceType
  pub reference_doctype : Option String
  pub reference_name : Option String
  pub report_name : Option String
  pub report_filters : Option String
  pub recipient : String
  pub recipient_masked : String
  pub message_template : Option String
  pub message_text : String
  pub print_format : Option String
  pub pdf_file : Option String
  pub pdf_sha256 : Option String
  pub source_modified : Option String
  pub queued_at : Option ℕ
  pub attempted_at : Option ℕ
  pub submitted_at : Option ℕ
  pub acknowledged_at : Option ℕ
  pub next_retry_at : Option ℕ
  pub retry_count : ℤ
  pub max_retries : ℤ
  pub idempotency_key : String
  pub provider_message_ids : Option String
  pub result_message : Option String
  pub error_message : Option String

pub record GroupRow : Type 0 where
  pub company : String
  pub enabled : Bool
  pub group_id : String
  pub group_name : String

pub record Settings : Type 0 where
  pub enabled : Bool
  pub provider : String
  pub require_submitted_documents : Bool
  pub throttle_seconds : Option ℤ
  pub maximum_retries : Option ℤ
  pub last_event_id : ℤ
  pub company_groups : List GroupRow
  pub connection_status : Value
  pub last_error : Value
  pub last_connected_at : Value
  pub last_disconnected_at : Value
  pub official_phone_number_id : String
  pub official_business_account_id : String
  pub official_api_version : String
  pub webhook_url : String

-- A call of `process_outbound_message` that waits in the long queue.
pub record Job : Type 0 where
  pub message_name : String
  pub job_id : String
  pub deduplicate : Bool

-- What `gateway_request` puts on the socket.
pub record Request : Type 0 where
  pub path : String
  pub payload : Fields
  pub body : String
  pub timestamp : String
  pub nonce : String
  pub signature : String

pub record Pdf : Type 0 where
  pub filename : String
  pub content_base64 : String

-- `not text` on an optional field.
abbrev pub is_blank : Option String → Bool
is_blank none = true
is_blank (some s) = str_eq s ""

-- A row of the DocType Message Template; its name is the template's name.
pub record Template : Type 0 where
  pub name : String
  pub enabled : Bool
  pub is_default : Bool
  pub reference_type : ReferenceType
  pub document_type : Option String
  pub report_name : Option String
  pub company : Option String
  pub message_template : String
