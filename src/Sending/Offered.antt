-- ===== src/Sending/Offered.antt =====
-- What a dialog offers and what the call that queues accepts: `prepare_document` and `queue_document`
-- of erpnext_whatsapp_connection/api.py.
use text.Mathlib.TextPositions.{eq_refl}
use erpnext_whatsapp_connect.Base.{
  Option, String, Bool, true, false, not, ◌&&◌, List, [], ◌∷◌, contains, leb, str_eq, eq_iff, ◌≡◌,
  refl, sym, ap, ◌∙◌, subst, All, inl, inr, Option-cases, Bool-cases, if◌then◌else◌,
}
use erpnext_whatsapp_connect.Py.Result.{validation, Error, err-ne-ok, Result, ok, check, ◌>>◌}
use erpnext_whatsapp_connect.Py.Value.{as_str, Value, Fields}
use erpnext_whatsapp_connect.Py.Text.{length, strip, is_empty}
use erpnext_whatsapp_connect.Site.Records.{document, Settings, Template}
use erpnext_whatsapp_connect.Site.Frappe.{Frappe, IsLawful, SourceDoc}
use erpnext_whatsapp_connect.Number.{normalize_number}
use erpnext_whatsapp_connect.Permissions.{require_sender}
use erpnext_whatsapp_connect.Recipients.{Recipient, customer_numbers_of}
use erpnext_whatsapp_connect.Recipients.Distinct.{IsNormal, customer_numbers-IsDistinct}
use erpnext_whatsapp_connect.Source.Document.{
  validate_document, validate_print_format, get_field, print_formats,
}
use erpnext_whatsapp_connect.Sending.Context.{company_of, adapted, party_field}
use erpnext_whatsapp_connect.Sending.Offer.{validate_selected_template}
use erpnext_whatsapp_connect.Sending.Queue.{
  own_format, stored_text, document_content, DocumentRequest, DocumentDraft, document_draft,
  checked_message, check_recipient, values_of,
}
use erpnext_whatsapp_connect.Sending.Chosen.{
  IsKeyed, IsSelectable, selected_name, validate_selected_template-offered,
}
use erpnext_whatsapp_connect.Sending.Prepared.{prepare_document-HasOffered}
use erpnext_whatsapp_connect.Sending.Dialog.{DocumentDialog, prepare_document}

second : {A : Type 0} (b : Bool) (x y : A) → b ≡ false → (if b then x else y) ≡ y
second b x y h = rw h refl

pass : {B : Type 0} (b : Bool) (e : Error) (k : Result B) → b ≡ true → (check b e >> k) ≡ k
pass b e k h = rw h refl

normal-of :
    (number : String) (rs : List Recipient)
    → All IsNormal rs
    → contains number (values_of rs) ≡ true
    → normalize_number number ≡ ok number
normal-of number [] h k = cc
normal-of number (r ∷ rs) (n, h) k = elim (Bool-cases (str_eq number r.value)) [
  | inl e ↦ subst (λ s. normalize_number s ≡ ok s) (sym ((eq_iff number r.value).0 e)) n
  | inr e ↦ normal-of number rs h (rw e at k)
]

module _ (F : Frappe) where
  customer_numbers_of-IsNormal :
      (user : String) (v : Value) (rs : List Recipient)
      → customer_numbers_of F user v ≡ ok rs
      → All IsNormal rs
  unfolding customer_numbers_of
  customer_numbers_of-IsNormal user v rs h = elim (Option-cases (as_str v)) [
    | inl e ↦ absurd (err-ne-ok _ rs (rw (e, customer_numbers_of) at h))
    | inr (name, e) ↦
        (customer_numbers-IsDistinct F user name rs (rw (e, customer_numbers_of) at h)).1
  ]

  check_recipient-offered :
      (user : String) (customer : Value) (number : String) (rs : List Recipient)
      → customer_numbers_of F user customer ≡ ok rs
      → contains number (values_of rs) ≡ true
      → check_recipient F user customer number ≡ ok number
  unfolding check_recipient
  check_recipient-offered user customer number rs known one_of =
      rw
        (
          known,
          normal-of number rs (customer_numbers_of-IsNormal user customer rs known) one_of,
          one_of,
        )
        refl

  validate_print_format-offered_format :
      (doctype format : String)
      → str_eq format "" ≡ false
      → contains format (print_formats F doctype) ≡ true
      → validate_print_format F doctype format ≡ ok format
  unfolding validate_print_format
  validate_print_format-offered_format doctype format named offered =
      ap
        (λ c.
          check (contains c (print_formats F doctype))
            (validation "Select a print format registered for this document type.")
          >> ok c)
        (second (str_eq format "") "Standard" format named)
      ∙ pass (contains format (print_formats F doctype)) _ (ok format) offered

  -- The draft of a document whose checks have passed.
  abbrev draft_of :
      DocumentRequest → SourceDoc → Fields → String → String → Option String → DocumentDraft
  draft_of r doc adapter message format template = record {
    draft = record {
      content = document_content F r doc format template;
      company = stored_text F (adapted doc adapter "company_field");
      recipient = r.recipient;
      message = message;
    };
    doc = doc;
  }

  document_draft-passed :
      (user : String) (settings : Settings) (templates : List Template) (r : DocumentRequest)
      (source : SourceDoc × Fields) (party : Value) (message : String) (template : Option String)
      → require_sender F user ≡ ok tt
      → validate_document F user settings r.doctype r.name ≡ ok source
      → str_eq source.0.modified r.source_modified ≡ true
      → party_field source.1 ≡ ok party
      → check_recipient F user (get_field source.0.fields party) r.recipient ≡ ok r.recipient
      → checked_message r.message ≡ ok message
      → validate_print_format F r.doctype r.print_format ≡ ok r.print_format
      → validate_selected_template F user document r.doctype
          (company_of source.0 source.1)
          r.message_template
          templates
        ≡ ok template
      → document_draft F user settings templates r
        ≡ ok (draft_of r source.0 source.1 message r.print_format template)
  unfolding document_draft
  document_draft-passed user settings templates r source party message template h1 h2 h3 h4 h5 h6 h7
        h8 =
      rw (h1, h2, h3, h4, h5, h6, h7, h8) refl

  -- A user who takes a number, a print format of a name that is not empty, and a message template from
  -- the dialog of a document, or no template, and a message that has 1 to 4096 characters without the
  -- white space around it, passes all checks of `queue_document` while the site is as it was when the
  -- dialog was made, and the draft has what was taken. The site's queries behave as documented, its
  -- templates have different names, and the user may read the template.
  pub prepare_document-offers :
      (L : IsLawful F) (user : String) (settings : Settings) (templates : List Template)
      (doctype name : String) (dialog : DocumentDialog) (number format text template : String)
      → IsKeyed templates
      → prepare_document F user settings templates doctype name ≡ ok dialog
      → contains number (values_of dialog.recipients) ≡ true
      → contains format dialog.print_formats ≡ true
      → str_eq format "" ≡ false
      → (not (is_empty (strip text)) && leb (length (strip text)) 4096) ≡ true
      → IsSelectable F user dialog.templates template
      → (x : DocumentDraft) × (document_draft F user settings templates (record {
        doctype = doctype;
        name = name;
        recipient = number;
        print_format = format;
        message = text;
        source_modified = dialog.source_modified;
        message_template = template;
      })
          ≡ ok x)
        × (x.draft.recipient ≡ number)
        × (x.draft.message ≡ strip text)
        × (x.draft.content.print_format ≡ own_format format)
        × (x.draft.content.message_template ≡ selected_name F template)
  unfolding checked_message
  prepare_document-offers L user settings templates doctype name dialog number format text template
        keyed h one_of offered named good selectable =
      let s = prepare_document-HasOffered F user settings templates doctype name dialog h in
      let doc = s.source.0 in
      let adapter = s.source.1 in
      let fits =
        validate_print_format-offered_format doctype format named
          (ap (contains format) (sym s.formats) ∙ offered) in
      let same : str_eq doc.modified dialog.source_modified ≡ true =
        ap (λ v. str_eq v dialog.source_modified) (sym s.version)
        ∙ eq_refl dialog.source_modified in
      let known =
        check_recipient-offered user (get_field doc.fields s.party) number dialog.recipients
          s.numbers one_of in
      let selected =
        validate_selected_template-offered F L user document doctype (company_of doc adapter)
          s.fallback templates dialog.templates template keyed s.names selectable in
      (
        _,
        document_draft-passed user settings templates _ s.source s.party (strip text)
            (selected_name F template) s.sender s.validated same s.named known
            (pass _ _ (ok (strip text)) good) fits selected,
        refl,
        refl,
        refl,
        refl,
      )
