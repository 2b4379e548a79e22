-- ===== src/Sending/Checks.antt =====
-- The checks of erpnext_whatsapp_connection/api.py before anything is stored, one by one.
use erpnext_whatsapp_connect.Base.{
  String, true, false, not, ◌&&◌, Option, none, some, List, contains, leb, str_eq, ◌≡◌, refl, sym,
  ap, ◌∙◌, arith, Bool-cases, inl, inr, eq_iff, if◌then◌else◌,
}
use erpnext_whatsapp_connect.Py.Result.{
  ok, check-ok, check-passed, or_error-passed, bind-ok, ok-injective,
}
use erpnext_whatsapp_connect.Py.Value.{Value, Fields, or_else, get, dict, end}
use erpnext_whatsapp_connect.Py.Text.{length, strip, is_empty}
use erpnext_whatsapp_connect.Site.Records.{Settings}
use erpnext_whatsapp_connect.Site.Frappe.{Frappe, SourceDoc}
use erpnext_whatsapp_connect.Number.{normalize_number}
use erpnext_whatsapp_connect.Number.Normal.{normalize_number_idem}
use erpnext_whatsapp_connect.Permissions.{can_send, require_sender}
use erpnext_whatsapp_connect.Recipients.{Recipient, customer_numbers_of}
use erpnext_whatsapp_connect.Source.Document.{
  validate_document, validate_print_format, enabled_settings, print_formats, registered, entries,
  has_required, party_type_ok, must_be_submitted,
}
use erpnext_whatsapp_connect.Adapters.{document_adapter}
use erpnext_whatsapp_connect.Sending.Written.{enabled-ok}
use erpnext_whatsapp_connect.Sending.Queue.{checked_message, check_recipient, values_of, own_format}

-- A message of 1 to 4096 characters, without white space around it.
pub record IsMessage (text m : String) : Type 0 where
  pub stripped : m ≡ strip text
  pub some_text : is_empty m ≡ false
  pub short : leb (length m) 4096 ≡ true

pub checked_message-IsMessage : (text m : String) → checked_message text ≡ ok m → IsMessage text m
unfolding checked_message
checked_message-IsMessage text m h =
    let (good, e) =
      check-passed (not (is_empty (strip text)) && leb (length (strip text)) 4096) _ _ m h in
    let same = ok-injective (strip text) m e in
    record {
      stripped = sym same;
      some_text = ap is_empty (sym same) ∙ ground arith;
      short = ap (λ x. leb (length x) 4096) (sym same) ∙ ground arith;
    }

module _ (F : Frappe) where
  -- A number of the customer, in its normal form.
  pub record IsLinked (user : String) (customer : Value) (number : String) : Type 0 where
    pub numbers : List Recipient
    pub known : customer_numbers_of F user customer ≡ ok numbers
    pub one_of : contains number (values_of numbers) ≡ true
    pub normal : normalize_number number ≡ ok number

  pub check_recipient-IsLinked :
      (user : String) (customer : Value) (recipient number : String)
      → check_recipient F user customer recipient ≡ ok number
      → IsLinked user customer number
  unfolding check_recipient
  check_recipient-IsLinked user customer recipient number h =
      let (numbers, known, h1) = bind-ok (customer_numbers_of F user customer) _ number h in
      let (n, normal, h2) = bind-ok (normalize_number recipient) _ number h1 in
      let (good, e) = check-passed (contains n (values_of numbers)) _ _ number h2 in
      let same = ok-injective n number e in
      record {
        numbers = numbers;
        known = known;
        one_of = ap (λ x. contains x (values_of numbers)) (sym same) ∙ good;
        normal = normalize_number_idem recipient number (normal ∙ ap ok same);
      }

  pub record IsSender (user : String) : Type 0 where
    pub known : str_eq user "Guest" ≡ false
    pub allowed : can_send F user ≡ true

  pub require_sender-IsSender :
      (user : String) (u : Unit {0}) → require_sender F user ≡ ok u → IsSender user
  unfolding require_sender
  require_sender-IsSender user u h =
      let good = check-ok _ _ u h in record { known = ground arith; allowed = ground arith }

  -- A document that exists, that the user may read and print, on a site that sends.
  pub record IsReadable (user : String) (settings : Settings) (doctype name : String)
      (doc : SourceDoc) : Type 0 where
    pub exists : F.get_doc doctype name ≡ some doc
    pub read : F.may user "read" doctype name ≡ true
    pub print : F.may user "print" doctype name ≡ true
    pub enabled : settings.enabled ≡ true

  pub validate_document-IsReadable :
      (user : String) (settings : Settings) (doctype name : String) (source : SourceDoc × Fields)
      → validate_document F user settings doctype name ≡ ok source
      → IsReadable user settings doctype name source.0
  unfolding validate_document
  validate_document-IsReadable user settings doctype name source h =
      let (found, _, h1) = bind-ok (document_adapter F doctype) _ source h in
      let (adapter, _, h2) = bind-ok (registered _ found) _ source h1 in
      let (doc, exists, h3) = or_error-passed _ (F.get_doc doctype name) _ source h2 in
      let (read, h4) = check-passed (F.may user "read" doctype name) _ _ source h3 in
      let (print, h5) = check-passed (F.may user "print" doctype name) _ _ source h4 in
      let (required, _, h6) =
        bind-ok (entries (or_else (get adapter "required_values") (dict end))) _ source h5 in
      let (_, h7) = check-passed (has_required required doc.fields) _ _ source h6 in
      let (_, h8) =
        check-passed (party_type_ok adapter (get adapter "party_type_field") doc.fields) _ _ source
          h7 in
      let (s, allowed, h9) = bind-ok (enabled_settings settings) _ source h8 in
      let (_, e) = check-passed (not (must_be_submitted s adapter doc)) _ _ source h9 in
      let same : doc ≡ source.0 = ap (λ x. x.0) (ok-injective (doc, adapter) source e) in
      record {
        exists = exists ∙ ap some same;
        read = read;
        print = print;
        enabled = (enabled-ok settings s allowed).1;
      }

  abbrev pub shown_format : Option String → String
  shown_format none = "Standard"
  shown_format (some f) = f

  pub own_format-shown : (f : String) → shown_format (own_format f) ≡ f
  own_format-shown f = elim (Bool-cases (str_eq f "Standard")) [
    | inl e ↦ rw e (sym ((eq_iff f "Standard").0 e))
    | inr e ↦ rw e refl
  ]

  pub validate_print_format-offered :
      (doctype format chosen : String)
      → validate_print_format F doctype format ≡ ok chosen
      → contains chosen (print_formats F doctype) ≡ true
  unfolding validate_print_format
  validate_print_format-offered doctype format chosen h =
      let c = if str_eq format "" then "Standard" else format in
      let (good, e) = check-passed (contains c (print_formats F doctype)) _ _ chosen h in
      ap (λ x. contains x (print_formats F doctype)) (sym (ok-injective c chosen e)) ∙ good
