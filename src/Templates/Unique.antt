-- ===== src/Templates/Unique.antt =====
-- The default templates of a target
-- (doctype/erpnext_whatsapp_message_template/erpnext_whatsapp_message_template.py).
use erpnext_whatsapp_connect.Base.{
  Bool, true, false, not, ◌&&◌, ◌||◌, List, [], ◌∷◌, keep, ◌≡◌, refl, arith, subst, Bool-cases, inl,
  inr, str_eq,
}
use erpnext_whatsapp_connect.Py.Result.{ok, Result-cases, err-ne-ok, ok-injective}
use erpnext_whatsapp_connect.Site.Records.{Template, is_blank}
use erpnext_whatsapp_connect.History.{is_document}
use erpnext_whatsapp_connect.Templates.{
  cleared, is_rival, exists, is_active_default, validate_template, replaced, save_template,
}

-- No two enabled default templates have the same target and company.
abbrev pub IsUnique : List Template → Type 0
IsUnique [] = Unit
IsUnique (t ∷ ts) = ((is_active_default t && exists (is_rival t) ts) ≡ false) × IsUnique ts

exists-keep :
    (p q : Template → Bool) (ts : List Template)
    → exists p ts ≡ false
    → exists p (keep q ts) ≡ false
exists-keep p q [] h = refl
exists-keep p q (t ∷ ts) h = elim (Bool-cases (q t)) [
  | inl e ↦ rw e (ground (arith, exists-keep p q ts))
  | inr e ↦ rw e (exists-keep p q ts (ground arith))
]

guarded-keep :
    (b : Bool) (p q : Template → Bool) (ts : List Template)
    → (b && exists p ts) ≡ false
    → (b && exists p (keep q ts)) ≡ false
guarded-keep true p q ts h = exists-keep p q ts h
guarded-keep false p q ts h = refl

keep-IsUnique : (q : Template → Bool) (ts : List Template) → IsUnique ts → IsUnique (keep q ts)
keep-IsUnique q [] h = tt
keep-IsUnique q (t ∷ ts) (first, rest) = elim (Bool-cases (q t)) [
  | inl e ↦
      rw e (guarded-keep (is_active_default t) (is_rival t) q ts first, keep-IsUnique q ts rest)
  | inr e ↦ rw e (keep-IsUnique q ts rest)
]

cleared-is_active_default : (t : Template) → is_active_default (cleared t) ≡ is_active_default t
cleared-is_active_default t = elim (Bool-cases (is_document t.reference_type)) [
  | inl e ↦ rw e refl
  | inr e ↦ rw e refl
]

validate_template-alone :
    (ts : List Template) (t v : Template)
    → validate_template ts t ≡ ok v
    → (is_active_default v && exists (is_rival v) ts) ≡ false
unfolding validate_template
validate_template-alone ts t v h =
    elim (Bool-cases (not (is_document t.reference_type) || not (is_blank t.document_type))) [
      | inr a ↦ absurd (err-ne-ok _ v (rw (a, validate_template) at h))
      | inl a ↦ elim (Bool-cases (is_document t.reference_type || not (is_blank t.report_name))) [
        | inr b ↦ absurd (err-ne-ok _ v (rw (a, b, validate_template) at h))
        | inl b ↦ elim (Bool-cases (is_active_default t && exists (is_rival (cleared t)) ts)) [
          | inl c ↦ absurd (err-ne-ok _ v (rw (a, b, c, validate_template) at h))
          | inr c ↦
              subst (λ x. (is_active_default x && exists (is_rival x) ts) ≡ false)
                (ok-injective (cleared t) v (rw (a, b, c, validate_template) at h))
                (rw (cleared-is_active_default t) c)
        ]
      ]
    ]

-- Saving a template keeps the defaults unique: where no two enabled default templates have the same
-- target and company, none do after a save that succeeds.
pub save_template-IsUnique :
    (ts us : List Template) (t : Template) → IsUnique ts → save_template ts t ≡ ok us → IsUnique us
unfolding save_template
save_template-IsUnique ts us t unique h = elim (Result-cases (validate_template ts t)) [
  | inr (x, e) ↦ absurd (err-ne-ok x us (rw (e, save_template) at h))
  | inl (v, e) ↦
      let others = λ (x : Template). not (str_eq x.name v.name) in
      subst IsUnique (ok-injective (replaced v ts) us (rw (e, save_template) at h)) (
        guarded-keep (is_active_default v) (is_rival v) others ts
            (validate_template-alone ts t v e),
        keep-IsUnique others ts unique,
      )
]
