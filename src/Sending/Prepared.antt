-- ===== src/Sending/Prepared.antt =====
-- What the dialog of a document has read when it is made (`prepare_document` of
-- erpnext_whatsapp_connection/api.py).
use erpnext_whatsapp_connect.Base.{String, List, ◌≡◌, refl, sym, ap, ◌∙◌}
use erpnext_whatsapp_connect.Py.Result.{err-ne-ok, Result, ok, err, ok-injective, bind-ok, ◌>>=◌}
use erpnext_whatsapp_connect.Py.Value.{Value, Fields, get}
use erpnext_whatsapp_connect.Site.Records.{Settings, Template, document}
use erpnext_whatsapp_connect.Site.Frappe.{Frappe, SourceDoc}
use erpnext_whatsapp_connect.Permissions.{require_sender}
use erpnext_whatsapp_connect.Recipients.{customer_numbers_of}
use erpnext_whatsapp_connect.Source.Document.{
  validate_document, enabled_settings, get_field, print_formats,
}
use erpnext_whatsapp_connect.Groups.Config.{configured_group}
use erpnext_whatsapp_connect.Sending.Context.{company_of, party_field, document_context}
use erpnext_whatsapp_connect.Sending.Offer.{template_rows, render_templates}
use erpnext_whatsapp_connect.Sending.Queue.{stored_text}
use erpnext_whatsapp_connect.Sending.Chosen.{offered_names, row_names, render_templates-names}
use erpnext_whatsapp_connect.Sending.Dialog.{default_message, DocumentDialog, prepare_document}

-- A chain that ended well, taken apart with a name for each result.
by_steps :
    {A B P : Type 0} (m : Result A) (f : A → Result B) (b : B)
    → (m >>= f) ≡ ok b
    → ((a : A) → m ≡ ok a → f a ≡ ok b → P)
    → P
by_steps (ok a) f b h k = k a refl h
by_steps (err e) f b h k = absurd (err-ne-ok e b h)

module _ (F : Frappe) where
  -- What the dialog has read.
  pub record HasOffered (user : String) (settings : Settings) (templates : List Template)
      (doctype name : String) (dialog : DocumentDialog) : Type 0 where
    pub source : SourceDoc × Fields
    pub party : Value
    pub sender : require_sender F user ≡ ok tt
    pub validated : validate_document F user settings doctype name ≡ ok source
    pub named : party_field source.1 ≡ ok party
    pub numbers :
        customer_numbers_of F user (get_field source.0.fields party) ≡ ok dialog.recipients
    pub formats : dialog.print_formats ≡ print_formats F doctype
    pub fallback : Value
    pub names :
        offered_names dialog.templates
        ≡ row_names
            (template_rows F document doctype (company_of source.0 source.1) fallback templates)
    pub version : dialog.source_modified ≡ source.0.modified

  document_context-company :
      (doctype : String) (doc : SourceDoc) (adapter context : Fields)
      → document_context F doctype doc adapter ≡ ok context
      → get context "company" ≡ company_of doc adapter
  unfolding document_context
  document_context-company doctype doc adapter context h =
      let (party, _, h1) = bind-ok (party_field adapter) _ context h in
      ap (λ c. get c "company") (sym (ok-injective _ context h1))

  pub prepare_document-HasOffered :
      (user : String) (settings : Settings) (templates : List Template) (doctype name : String)
      (dialog : DocumentDialog)
      → prepare_document F user settings templates doctype name ≡ ok dialog
      → HasOffered user settings templates doctype name dialog
  unfolding prepare_document
  prepare_document-HasOffered user settings templates doctype name dialog h =
      by_steps (require_sender F user) _ dialog h (λ _ sender h1.
        by_steps (validate_document F user settings doctype name) _ dialog h1
          (λ source validated h2.
            by_steps (document_context F doctype source.0 source.1) _ dialog h2 (λ context made h3.
              by_steps (party_field source.1) _ dialog h3 (λ party named h4.
                by_steps (customer_numbers_of F user (get_field source.0.fields party)) _ dialog h4
                  (λ numbers known h5.
                    by_steps (default_message source.1) _ dialog h5 (λ fallback _ h6.
                      by_steps
                        (render_templates F
                          (template_rows F document doctype (get context "company") fallback
                            templates)
                          context)
                        _ dialog h6
                        (λ offered drawn h7.
                          by_steps (enabled_settings settings) _ dialog h7 (λ current _ h8.
                            by_steps
                              (configured_group F user current
                                (stored_text F (get context "company")))
                              _ dialog h8
                              (λ copy_group _ h9.
                                let e = ok-injective _ dialog h9 in
                                record {
                                  source = source;
                                  party = party;
                                  sender = sender;
                                  validated = validated;
                                  named = named;
                                  numbers = known ∙ ap (λ x. ok x.recipients) e;
                                  formats = ap (λ x. x.print_formats) (sym e);
                                  fallback = fallback;
                                  names =
                                      ap (λ x. offered_names x.templates) (sym e)
                                      ∙ render_templates-names F _ context offered drawn
                                      ∙ ap
                                          (λ v.
                                            row_names (
                                              template_rows F document doctype v fallback
                                                templates))
                                          (document_context-company doctype source.0 source.1
                                            context made);
                                  version = ap (λ x. x.source_modified) (sym e);
                                })))))))))
