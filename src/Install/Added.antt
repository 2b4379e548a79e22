-- ===== src/Install/Added.antt =====
-- The templates once they are ensured (erpnext_whatsapp_connection/install.py).
use text.Mathlib.TextPositions.{eq_refl}
use erpnext_whatsapp_connect.Base.{
  String, Bool, true, false, not, ◌||◌, ◌&&◌, List, [], ◌∷◌, keep, str_eq, eq_iff, ◌≡◌, refl, sym,
  ap, ◌∙◌, subst, inl, inr, Bool-cases, arith,
}
use erpnext_whatsapp_connect.Py.Result.{
  Result, ok, err, bind-ok, check-passed, ok-injective, err-ne-ok,
}
use erpnext_whatsapp_connect.Py.Action.{continue-first, continue-step}
use erpnext_whatsapp_connect.Py.Value.{Value, Fields, end, field}
use erpnext_whatsapp_connect.Site.Records.{ReferenceType, document, report, is_blank, Template}
use erpnext_whatsapp_connect.History.{is_document}
use erpnext_whatsapp_connect.Templates.{
  cleared, exists, is_active_default, is_rival, replaced, validate_template, save_template,
}
use erpnext_whatsapp_connect.Install.{
  Setup, default_name, is_named, message_of, default_template, insert_template, with_templates,
  ensure_template, ensure_templates,
}

-- Every name that was there is there still.
abbrev Grows : List Template → List Template → Type 0
Grows ts us = (n : String) → exists (is_named n) ts ≡ true → exists (is_named n) us ≡ true

cleared-name : (t : Template) → (cleared t).name ≡ t.name
cleared-name t = elim (Bool-cases (is_document t.reference_type)) [
  | inl e ↦ rw e refl
  | inr e ↦ rw e refl
]

or-right : (b c : Bool) → b ≡ false → (b || c) ≡ true → c ≡ true
or-right b c h k = ground arith

exists-others :
    (n m : String) (ts : List Template)
    → exists (is_named n) ts ≡ true
    → str_eq m n ≡ false
    → exists (is_named n) (keep (λ x. not (str_eq x.name m)) ts) ≡ true
exists-others n m [] h e = cc
exists-others n m (x ∷ ts) h e = elim (Bool-cases (str_eq x.name m)) [
  | inl same ↦ rw same (
      exists-others n m ts
        (or-right (str_eq x.name n) _ (ap (λ k. str_eq k n) ((eq_iff x.name m).0 same) ∙ e) h) e)
  | inr other ↦ rw other (elim (Bool-cases (str_eq x.name n)) [
    | inl f ↦ rw f refl
    | inr f ↦ rw f (exists-others n m ts (or-right (str_eq x.name n) _ f h) e)
  ])
]

replaced-Grows : (t : Template) (ts : List Template) → Grows ts (replaced t ts)
replaced-Grows t ts n h = elim (Bool-cases (str_eq t.name n)) [
  | inl e ↦ rw e refl
  | inr e ↦ rw e (exists-others n t.name ts h e)
]

validate_template-ok :
    (ts : List Template) (t v : Template) → validate_template ts t ≡ ok v → cleared t ≡ v
unfolding validate_template
validate_template-ok ts t v h =
    let (_, h1) =
      check-passed (not (is_document t.reference_type) || not (is_blank t.document_type)) _ _ v h in
    let (_, h2) =
      check-passed (is_document t.reference_type || not (is_blank t.report_name)) _ _ v h1 in
    let (_, h3) =
      check-passed (not (is_active_default t && exists (is_rival (cleared t)) ts)) _ _ v h2 in
    ok-injective (cleared t) v h3

-- A save adds the template's name to those that there are.
save_template-Grows :
    (ts us : List Template) (t : Template)
    → save_template ts t ≡ ok us
    → (exists (is_named t.name) us ≡ true) × Grows ts us
unfolding save_template
save_template-Grows ts us t h =
    let (v, valid, e) = bind-ok (validate_template ts t) _ us h in
    let stored : replaced v ts ≡ us = ok-injective (replaced v ts) us e in
    let name : v.name ≡ t.name =
      ap (λ x. x.name) (sym (validate_template-ok ts t v valid)) ∙ cleared-name t in
    let first : exists (is_named t.name) (replaced v ts) ≡ true =
      rw name (rw (eq_refl t.name) refl) in
    (
      subst (λ xs. exists (is_named t.name) xs ≡ true) stored first,
      subst (Grows ts) stored (replaced-Grows v ts),
    )

default_template-name :
    (kind : ReferenceType) (target message : String)
    → (default_template kind target message).name ≡ default_name target
default_template-name document target message = refl
default_template-name report target message = refl

-- What a step that ended well leaves: more names, the rest as it was.
pub record HasAdded (s s' : Setup) : Type 0 where
  pub grows : Grows s.templates s'.templates
  pub roles : s'.roles ≡ s.roles
  pub has_doctype : s'.has_doctype ≡ s.has_doctype

pub HasAdded-refl : (s : Setup) → HasAdded s s
HasAdded-refl s = record { grows = λ n h. h; roles = refl; has_doctype = refl }

pub HasAdded-trans : (s t u : Setup) → HasAdded s t → HasAdded t u → HasAdded s u
HasAdded-trans s t u h k = record {
  grows = λ n e. k.grows n (h.grows n e);
  roles = k.roles ∙ h.roles;
  has_doctype = k.has_doctype ∙ h.has_doctype;
}

with_templates-HasAdded :
    (s : Setup) (r : Result (List Template)) (u : Unit {0}) (name : String)
    → (with_templates s r).0 ≡ ok u
    → ((us : List Template) → r ≡ ok us → (exists (is_named name) us ≡ true) × Grows s.templates us)
    → HasAdded s (with_templates s r).1
      × (exists (is_named name) (with_templates s r).1.templates ≡ true)
with_templates-HasAdded s (ok us) u name h k =
    let (has, grows) = k us refl in
    (record { grows = grows; roles = refl; has_doctype = refl }, has)
with_templates-HasAdded s (err e) u name h k = absurd (err-ne-ok e u h)

insert_template-Grows :
    (kind : ReferenceType) (target : String) (adapter : Value) (ts us : List Template)
    → insert_template kind target adapter ts ≡ ok us
    → (exists (is_named (default_name target)) us ≡ true) × Grows ts us
unfolding insert_template
insert_template-Grows kind target adapter ts us h =
    let (message, _, e) = bind-ok (message_of adapter) _ us h in
    subst (λ n. (exists (is_named n) us ≡ true) × Grows ts us)
      (default_template-name kind target message)
      (save_template-Grows ts us (default_template kind target message) e)

ensure_template-HasAdded :
    (kind : ReferenceType) (target : String) (adapter : Value) (s : Setup) (u : Unit {0})
    → (ensure_template kind target adapter s).0 ≡ ok u
    → HasAdded s (ensure_template kind target adapter s).1
      × (exists (is_named (default_name target)) (ensure_template kind target adapter s).1.templates
          ≡ true)
unfolding ensure_template
ensure_template-HasAdded kind target adapter s u h =
    elim (Bool-cases (exists (is_named (default_name target)) s.templates)) [
      | inl e ↦ rw e (HasAdded-refl s, e)
      | inr e ↦ rw e (
          with_templates-HasAdded s (insert_template kind target adapter s.templates) u
            (default_name target) (rw e at h)
            (insert_template-Grows kind target adapter s.templates))
    ]

-- Each target of a registry has its template.
abbrev pub Present : Fields → List Template → Type 0
Present end ts = Unit
Present (field target adapter rest) ts =
    (exists (is_named (default_name target)) ts ≡ true) × Present rest ts

pub Present-Grows :
    (fs : Fields) (ts us : List Template) → Grows ts us → Present fs ts → Present fs us
Present-Grows end ts us g h = tt
Present-Grows (field target adapter rest) ts us g (e, h) =
    (g (default_name target) e, Present-Grows rest ts us g h)

pub ensure_templates-HasAdded :
    (kind : ReferenceType) (fs : Fields) (s : Setup) (u : Unit {0})
    → (ensure_templates kind fs s).0 ≡ ok u
    → HasAdded s (ensure_templates kind fs s).1
      × Present fs (ensure_templates kind fs s).1.templates
unfolding ensure_templates
ensure_templates-HasAdded kind end s u h = (HasAdded-refl s, tt)
ensure_templates-HasAdded kind (field target adapter rest) s u h =
    let m = ensure_template kind target adapter s in
    let (x, first) = continue-first _ m u h in
    let (h1, ran) = continue-step _ m u x m.1 (λ y e. ap (λ v. (v, m.1)) first) h in
    let (added, has) = ensure_template-HasAdded kind target adapter s x first in
    let (more, present) = ensure_templates-HasAdded kind rest m.1 u h1 in
    rw ran (
      HasAdded-trans s m.1 (ensure_templates kind rest m.1).1 added more,
      (more.grows (default_name target) has, present),
    )

pub ensure_templates-idle :
    (kind : ReferenceType) (fs : Fields) (s : Setup)
    → Present fs s.templates
    → ensure_templates kind fs s ≡ (ok tt, s)
unfolding ensure_templates ensure_template
ensure_templates-idle kind end s h = refl
ensure_templates-idle kind (field target adapter rest) s (e, h) =
    rw e (ensure_templates-idle kind rest s h)
