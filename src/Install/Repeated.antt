-- ===== src/Install/Repeated.antt =====
-- Installing and migrating again (erpnext_whatsapp_connection/install.py).
use erpnext_whatsapp_connect.Base.{
  String, Bool, true, false, List, contains, str_eq, ◌≡◌, refl, sym, ap, ◌∙◌, subst, inl, inr,
  true-ne-false, Bool-cases, All, if◌then◌else◌,
}
use erpnext_whatsapp_connect.Py.Result.{◌>>=◌, Error, validation, Result, ok, err}
use erpnext_whatsapp_connect.Py.Action.{continue, continue-first, continue-step, for_each}
use erpnext_whatsapp_connect.Py.Value.{Value, Fields, field}
use erpnext_whatsapp_connect.Site.Records.{ReferenceType, document, report, Template}
use erpnext_whatsapp_connect.Adapters.{default_document_adapters, default_report_adapters}
use erpnext_whatsapp_connect.Templates.{cleared, exists, is_rival, validate_template, save_template}
use erpnext_whatsapp_connect.Install.Roles.{
  roles_after, roles_after-has, roles_after-idle, ensure_each-lem,
}
use erpnext_whatsapp_connect.Install.Added.{
  HasAdded-refl, HasAdded, HasAdded-trans, Present, Present-Grows, ensure_templates-HasAdded,
  ensure_templates-idle,
}
use erpnext_whatsapp_connect.Install.{
  Setup, role_names, ensure_role, ensure_roles, default_name, is_named, message_of,
  default_template, insert_template, with_templates, ensure_template, ensure_templates,
  ensure_default_templates, after_install, after_migrate,
}

-- The roles are there and, if the DocType is, each adapter that the app brings has its template.
pub record HasSetup (s : Setup) : Type 0 where
  pub roles : All (λ r. contains r s.roles ≡ true) role_names
  pub documents : s.has_doctype ≡ true → Present default_document_adapters s.templates
  pub reports : s.has_doctype ≡ true → Present default_report_adapters s.templates

branch_taken : {A : Type 0} (b : Bool) (x y : A) → b ≡ true → (if b then x else y) ≡ x
branch_taken b x y h = rw h refl

branch_skipped : {A : Type 0} (b : Bool) (x y : A) → b ≡ false → (if b then x else y) ≡ y
branch_skipped b x y h = rw h refl

default_templates-idle : (s : Setup) → HasSetup s → ensure_default_templates s ≡ (ok tt, s)
unfolding ensure_default_templates
default_templates-idle s h = elim (Bool-cases s.has_doctype) [
  | inl e ↦
      let docs = ensure_templates-idle document default_document_adapters s (h.documents e) in
      let reports = ensure_templates-idle report default_report_adapters s (h.reports e) in
      branch_taken s.has_doctype _ (ok tt, s) e
      ∙ ap (continue (λ _. ensure_templates report default_report_adapters)) docs
      ∙ reports
  | inr e ↦ rw e refl
]

abbrev set_roles : Setup → List String → Result (Unit {0}) × Setup
set_roles s rs = (ok tt, record s { roles = rs })

setup-idle : (s : Setup) → HasSetup s → after_migrate s ≡ (ok tt, s)
unfolding after_migrate ensure_roles
setup-idle s h =
    let roles : for_each role_names ensure_role s ≡ (ok tt, s) =
      ensure_each-lem role_names s
      ∙ ap (set_roles s) (roles_after-idle role_names s.roles h.roles) in
    ap (continue (λ _. ensure_default_templates)) roles ∙ default_templates-idle s h

-- Both registries, if the DocType is there.
abbrev Complete : Setup → Setup → Type 0
Complete s s' =
    HasAdded s s'
    × (s.has_doctype ≡ true
        → Present default_document_adapters s'.templates
          × Present default_report_adapters s'.templates)

default_templates-Complete :
    (s : Setup) (u : Unit {0})
    → (ensure_default_templates s).0 ≡ ok u
    → Complete s (ensure_default_templates s).1
unfolding ensure_default_templates
default_templates-Complete s u h = elim (Bool-cases s.has_doctype) [
  | inl e ↦
      let m = ensure_templates document default_document_adapters s in
      let both = continue (λ _. ensure_templates report default_report_adapters) m in
      let taken : ensure_default_templates s ≡ both =
        branch_taken s.has_doctype both (ok tt, s) e in
      let h0 : both.0 ≡ ok u = ap (λ r. r.0) (sym taken) ∙ h in
      let (x, first) = continue-first _ m u h0 in
      let (h1, ran) = continue-step _ m u x m.1 (λ y k. ap (λ v. (v, m.1)) first) h0 in
      let (added, docs) = ensure_templates-HasAdded document default_document_adapters s x first in
      let (more, reports) = ensure_templates-HasAdded report default_report_adapters m.1 u h1 in
      let t = (ensure_templates report default_report_adapters m.1).1 in
      let whole : Complete s t = (
        HasAdded-trans s m.1 t added more,
        λ _. (
          Present-Grows default_document_adapters m.1.templates t.templates more.grows docs,
          reports,
        ),
      ) in
      subst (λ r. Complete s r.1) (sym (taken ∙ ran)) whole
  | inr e ↦
      let same : Complete s s =
        (HasAdded-refl s, λ on. absurd (true-ne-false s.has_doctype on e)) in
      subst (λ (r : Result (Unit {0}) × Setup). Complete s r.1)
        (sym (branch_skipped s.has_doctype _ (ok tt, s) e)) same
]

after_install-HasSetup :
    (s : Setup) (u : Unit {0}) → (after_install s).0 ≡ ok u → HasSetup (after_install s).1
unfolding after_install ensure_roles
after_install-HasSetup s u h =
    let m = for_each role_names ensure_role s in
    let s1 : Setup = record s { roles = roles_after role_names s.roles } in
    let (h1, ran) = continue-step _ m u tt s1 (λ _ _. ensure_each-lem role_names s) h in
    let (added, complete) = default_templates-Complete s1 u h1 in
    let t = (ensure_default_templates s1).1 in
    let setup : HasSetup t = record {
      roles =
          subst (λ rs. All (λ r. contains r rs ≡ true) role_names) (sym added.roles)
            (roles_after-has role_names s.roles);
      documents = λ on. (complete (sym added.has_doctype ∙ on)).0;
      reports = λ on. (complete (sym added.has_doctype ∙ on)).1;
    } in
    subst (λ r. HasSetup r.1) (sym ran) setup

-- Once the app has been installed without an error, the roles are there and each adapter that it
-- brings has its template, if the templates' DocType is there; a migration that follows succeeds and
-- changes nothing.
pub after_migrate_idle :
    (s : Setup) (u : Unit {0})
    → (after_install s).0 ≡ ok u
    → HasSetup (after_install s).1
      × (after_migrate (after_install s).1 ≡ (ok tt, (after_install s).1))
after_migrate_idle s u h =
    let setup = after_install-HasSetup s u h in (setup, setup-idle (after_install s).1 setup)

abbrev pub only_one : Error
only_one = validation "Only one default template is allowed for this target and company."

rival_refused :
    (kind : ReferenceType) (target message : String) (ts : List Template)
    → exists (is_rival (cleared (default_template kind target message))) ts ≡ true
    → str_eq target "" ≡ false
    → save_template ts (default_template kind target message) ≡ err only_one
unfolding save_template validate_template
rival_refused document target message ts h named = rw (h, named) refl
rival_refused report target message ts h named = rw (h, named) refl

ensure_template-refused :
    (adapter : Value) (target message : String) (s : Setup)
    → message_of adapter ≡ ok message
    → exists (is_named (default_name target)) s.templates ≡ false
    → exists (is_rival (cleared (default_template document target message))) s.templates ≡ true
    → str_eq target "" ≡ false
    → ensure_template document target adapter s ≡ (err only_one, s)
unfolding ensure_template insert_template
ensure_template-refused adapter target message s found missing rival named =
    branch_skipped (exists (is_named (default_name target)) s.templates) (ok tt, s) _ missing
    ∙ ap (with_templates s) (
        ap (λ r. r >>= λ m. save_template s.templates (default_template document target m)) found
        ∙ rival_refused document target message s.templates rival named)

ensure_templates-refused :
    (fs : Fields) (target : String) (adapter : Value) (rest : Fields) (message : String) (s : Setup)
    → fs ≡ field target adapter rest
    → message_of adapter ≡ ok message
    → exists (is_named (default_name target)) s.templates ≡ false
    → exists (is_rival (cleared (default_template document target message))) s.templates ≡ true
    → str_eq target "" ≡ false
    → ensure_templates document fs s ≡ (err only_one, s)
unfolding ensure_templates
ensure_templates-refused fs target adapter rest message s e found missing rival named =
    ap (λ x. ensure_templates document x s) e
    ∙ ap (continue (λ _. ensure_templates document rest))
        (ensure_template-refused adapter target message s found missing rival named)

default_templates-refused :
    (s : Setup)
    → s.has_doctype ≡ true
    → exists (is_named "Default Sales Invoice") s.templates ≡ false
    → exists (is_rival (default_template document "Sales Invoice" "")) s.templates ≡ true
    → ensure_default_templates s ≡ (err only_one, s)
unfolding ensure_default_templates
default_templates-refused s on missing rival =
    let both =
      continue (λ _. ensure_templates report default_report_adapters)
        (ensure_templates document default_document_adapters s) in
    branch_taken s.has_doctype both (ok tt, s) on
    ∙ ap (continue (λ _. ensure_templates report default_report_adapters)) (
        ensure_templates-refused default_document_adapters "Sales Invoice" _ _ _ s refl refl missing
          rival refl)

-- An installation and a migration both fail on a site that has the templates' DocType, has no template
-- of the name that the app brings for the sales invoice, and has another enabled default template
-- without a company for it: the controller refuses the one that is to be created, and the templates
-- stay as they were.
pub after_migrate_blocked :
    (s : Setup)
    → s.has_doctype ≡ true
    → exists (is_named "Default Sales Invoice") s.templates ≡ false
    → exists (is_rival (default_template document "Sales Invoice" "")) s.templates ≡ true
    → ((after_install s).0 ≡ err only_one)
      × ((after_install s).1.templates ≡ s.templates)
      × ((after_migrate s).0 ≡ err only_one)
      × ((after_migrate s).1.templates ≡ s.templates)
unfolding after_install after_migrate ensure_roles
after_migrate_blocked s on missing rival =
    let s1 : Setup = record s { roles = roles_after role_names s.roles } in
    let ran : continue (λ _. ensure_default_templates) (for_each role_names ensure_role s)
        ≡ (err only_one, s1) =
      ap (continue (λ _. ensure_default_templates)) (ensure_each-lem role_names s)
      ∙ default_templates-refused s1 on missing rival in
    let raised = ap (λ r. r.0) ran in
    let kept = ap (λ r. r.1.templates) ran in (raised, kept, raised, kept)
