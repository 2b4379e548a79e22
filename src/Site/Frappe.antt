-- ===== src/Site/Frappe.antt =====
-- What the app relies on outside its own sources, as one interface: Frappe's tables, permissions,
-- files and queue, Python's library where it is data (hashes, encodings, dates), and the gateway's
-- answers. `tick` counts the calls that may answer differently each time.
use erpnext_whatsapp_connect.Base.{
  ℕ, ◌≡◌, String, Bool, true, false, Option, none, some, List, str_eq, if◌then◌else◌, All, all,
  contains, ℤ,
}
use erpnext_whatsapp_connect.Py.Result.{Error, Result}
use erpnext_whatsapp_connect.Py.Value.{Value, Fields}
use erpnext_whatsapp_connect.Site.Records.{Delivery, Settings, Job, Request, Pdf, Template}

-- A file row: `content` is the list of its bytes.
pub record StoredFile : Type 0 where
  pub file_name : String
  pub attached_to_doctype : Option String
  pub attached_to_name : Option String
  pub is_private : Bool
  pub content : List ℕ

-- A document of another app: its name, version, docstatus and fields.
pub record SourceDoc : Type 0 where
  pub name : String
  pub modified : String
  pub docstatus : ℕ
  pub is_submittable : Bool
  pub fields : Fields

-- The options of a call of json.dumps: none, compact separators, or sorted keys.
pub data JsonStyle : Type 0 where
  plain compact sorted : JsonStyle

-- What came back over the socket: nothing (OSError and the like), a body that is no text, or a status
-- with the body, which is `none` if it is no JSON.
pub data Reply : Type 0 where
  unreachable undecodable : Reply
  response : ℕ → Option Value → Reply

-- A parsed ISO date: the moment it shows, and whether it names a time zone.
pub record Stamp : Type 0 where
  pub aware : Bool
  pub shown : ℕ

pub record Frappe : Type 1 where
  -- The table of deliveries: `get_doc`, the write of one row, and `get_all` with a filter and a limit.
  pub Table : Type 0
  pub find : Table → String → Option Delivery
  pub put : Table → Delivery → Table
  pub matching : (Delivery → Bool) → Option ℕ → Table → List String
  pub site : String
  pub has_role : String → String → Bool
  pub may : String → String → String → String → Bool
  pub user_enabled : String → Bool
  pub get_doc : String → String → Option SourceDoc
  -- The stored files, and a new one with its name.
  pub Files : Type 0
  pub get_file : Files → String → Option StoredFile
  pub add_file : Files → StoredFile → Files × String
  -- The name that `insert` gives to a new delivery, and its own refusals.
  pub new_name : Table → String
  pub insert_error : ℕ → Option Error
  pub has_field : String → String → Bool
  pub contacts_of : String → List String
  -- The order of a query on message templates.
  pub in_order : List Template → List Template
  pub render_template : String → Fields → Result String
  pub fmt_money : Value → Value → String
  pub get_print : ℕ → String → Option String → SourceDoc → Result (List ℕ)
  -- A report's rows; the bytes of an app's own renderer, `none` if it returns something else; a PDF.
  pub run_report : ℕ → String → Fields → Result Value
  pub report_renderer : ℕ → String → String → Fields → Result (Option (List ℕ))
  pub get_pdf : ℕ → String → Result (List ℕ)
  pub hooks : String → List (String × Result Value)
  pub print_formats : String → List String
  pub parse_json : String → Result Value
  pub dumps : JsonStyle → Value → String
  pub text_of : Value → String
  pub number_text : ℕ → String
  pub int_text : ℤ → String
  pub cint : Value → ℤ
  pub sha256 : String → String
  pub sha256_bytes : List ℕ → String
  pub hmac : List ℕ → String → String
  pub base64 : List ℕ → String
  pub hmac_key_file : Option (List ℕ)
  pub token : ℕ → String
  pub generate_hash : ℕ → String
  pub clock : ℕ → ℕ
  pub add_to_date : ℕ → ℕ → ℕ
  pub from_iso : String → Option Stamp
  pub to_site_zone : Stamp → ℕ
  pub exchange : ℕ → Request → Reply
  pub custom_sender : ℕ → String → Delivery → Settings → List Pdf → Fields → Result Value
  pub enqueue_error : ℕ → Job → Option Error
  -- Whether a job with this identity is queued or runs; it raises where the queue cannot be reached.
  pub is_job_enqueued : ℕ → Job → Result Bool

-- The documented behaviour that the theorems use.
pub record IsLawful (F : Frappe) : Type 0 where
  pub find-put :
      (t : F.Table) (d : Delivery) (n : String)
      → F.find (F.put t d) n ≡ (if str_eq d.name n then some d else F.find t n)
  pub find-name : (t : F.Table) (n : String) (d : Delivery) → F.find t n ≡ some d → d.name ≡ n
  pub matching_sound :
      (p : Delivery → Bool) (limit : Option ℕ) (t : F.Table)
      → All (λ n. (d : Delivery) × (F.find t n ≡ some d) × (p d ≡ true)) (F.matching p limit t)
  pub matching_complete :
      (p : Delivery → Bool) (t : F.Table) (n : String) (d : Delivery)
      → F.find t n ≡ some d
      → p d ≡ true
      → contains n (F.matching p none t) ≡ true
  pub in_order_sound :
      (p : Template → Bool) (ts : List Template) → all p ts ≡ true → all p (F.in_order ts) ≡ true
  pub dumps-not_empty : (style : JsonStyle) (v : Value) → str_eq (F.dumps style v) "" ≡ false
  pub new_name_fresh : (t : F.Table) → F.find t (F.new_name t) ≡ none
  pub get-add_file :
      (fs : F.Files) (f : StoredFile)
      → (g : StoredFile) × (F.get_file (F.add_file fs f).0 (F.add_file fs f).1 ≡ some g)
        × (str_eq (F.add_file fs f).1 "" ≡ false)
        × (g.content ≡ f.content)
        × (g.is_private ≡ f.is_private)
        × (g.attached_to_doctype ≡ f.attached_to_doctype)
        × (g.attached_to_name ≡ f.attached_to_name)
  pub add_file_keeps :
      (fs : F.Files) (f g : StoredFile) (n : String)
      → F.get_file fs n ≡ some g
      → F.get_file (F.add_file fs f).0 n ≡ some g
