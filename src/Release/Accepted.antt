-- ===== src/Release/Accepted.antt =====
-- Which evidence scripts/verify-native-group-evidence.py accepts.
use mathlib.Core.Option.{some-injective}
use erpnext_whatsapp_connect.Base.{
  String, Bool, true, false, ◌&&◌, some, List, [], ◌∷◌, ◌≡◌, ◌↔◌, refl, sym, ap, ◌∙◌, subst, all,
  All, arith,
}
use erpnext_whatsapp_connect.Py.Result.{
  Result, ok, bind-ok, check-passed, or_error-passed, ok-injective,
}
use erpnext_whatsapp_connect.Py.Value.{
  Value, null, bool, int, str, list, dict, Fields, get, as_dict, is_true,
}
use erpnext_whatsapp_connect.Py.Equality.{value_eq}
use erpnext_whatsapp_connect.Site.Frappe.{Frappe}
use erpnext_whatsapp_connect.Gateway.Errors.{is_true-bool}
use erpnext_whatsapp_connect.Release.Evidence.{
  split_lines, tails, required, is_false, passes, not_one, mismatched, one_row, no_get, load_all,
  verify,
}

-- The values that the evidence must have.
pub record IsPassing (version : String) (r : Fields) : Type 0 where
  pub passed : value_eq (get r "native_enabled_group_acceptance") (str "PASS") ≡ true
  pub site : value_eq (get r "site") (str "integration.local") ≡ true
  pub app_version : value_eq (get r "app_version") (str version) ≡ true
  pub external : get r "external_messages" ≡ bool false
  pub parts : All (λ k. get r k ≡ bool true) required

-- The text has one marked line, and what follows its marker is the JSON of the dict.
pub record IsRecord (F : Frappe) (text : String) (r : Fields) : Type 0 where
  pub tail : String
  pub only : tails (split_lines text) ≡ tail ∷ []
  pub parsed : F.parse_json tail ≡ ok (dict r)

is_false-bool : (v : Value) → is_false v ≡ true → v ≡ bool false
is_false-bool (bool false) h = refl
is_false-bool (bool true) h = cc
is_false-bool null h = cc
is_false-bool (str s) h = cc
is_false-bool (int n) h = cc
is_false-bool (list vs) h = cc
is_false-bool (dict fs) h = cc

all-is_true :
    (r : Fields) (ks : List String)
    → all (λ k. is_true (get r k)) ks ≡ true
    → All (λ k. get r k ≡ bool true) ks
all-is_true r [] h = tt
all-is_true r (k ∷ ks) h =
    (is_true-bool (get r k) (ground (arith, h)), all-is_true r ks (ground (arith, h)))

is_true-all :
    (r : Fields) (ks : List String)
    → All (λ k. get r k ≡ bool true) ks
    → all (λ k. is_true (get r k)) ks ≡ true
is_true-all r [] h = refl
is_true-all r (k ∷ ks) (e, h) = rw (e, is_true-all r ks h) refl

and-true : (a b : Bool) → (a && b) ≡ true → (a ≡ true) × (b ≡ true)
and-true a b h = ground arith

passes-IsPassing : (version : String) (r : Fields) → passes version r ≡ true → IsPassing version r
unfolding passes
passes-IsPassing version r h =
    let (a, h1) = and-true _ _ h in
    let (b, h2) = and-true _ _ h1 in
    let (c, h3) = and-true _ _ h2 in
    let (d, h4) = and-true _ _ h3 in
    record {
      passed = a;
      site = b;
      app_version = c;
      external = is_false-bool (get r "external_messages") d;
      parts = all-is_true r required h4;
    }

IsPassing-passes : (version : String) (r : Fields) → IsPassing version r → passes version r ≡ true
unfolding passes
IsPassing-passes version r p =
    rw (p.passed, p.site, p.app_version, p.external) (is_true-all r required p.parts)

one_row-only : (rows : List Value) (v : Value) → one_row rows ≡ some v → rows ≡ v ∷ []
one_row-only [] v h = cc
one_row-only (w ∷ []) v h = ap (λ x. x ∷ []) (some-injective w v h)
one_row-only (w ∷ (x ∷ rows)) v h = cc

nil-ne-cons : {A : Type 0} (v : A) (vs : List A) → ◌≡◌ {A = List A} [] (v ∷ vs) → ⊥
nil-ne-cons v vs h = cc

single_parts :
    (w v : Value) (ws : List Value)
    → ◌≡◌ {A = Result (List Value)} (ok (w ∷ ws)) (ok (v ∷ []))
    → (w ≡ v) × (ws ≡ [])
single_parts w v ws h = (cc, cc)

as_dict-dict : (v : Value) (r : Fields) → as_dict v ≡ some r → v ≡ dict r
as_dict-dict (dict fs) r h = ap dict (some-injective fs r h)
as_dict-dict null r h = cc
as_dict-dict (bool b) r h = cc
as_dict-dict (int n) r h = cc
as_dict-dict (str s) r h = cc
as_dict-dict (list vs) r h = cc

module _ (F : Frappe) where
  load_all-none : (ts : List String) → load_all F ts ≡ ok [] → ts ≡ []
  unfolding load_all
  load_all-none [] h = refl
  load_all-none (t ∷ ts) h =
      let (w, parsed, h1) = bind-ok (F.parse_json t) _ [] h in
      let (ws, rest, h2) = bind-ok (load_all F ts) _ [] h1 in
      absurd (nil-ne-cons w ws (ok-injective [] (w ∷ ws) (sym h2)))

  load_all-single :
      (ts : List String) (v : Value)
      → load_all F ts ≡ ok (v ∷ [])
      → (t : String) × (ts ≡ t ∷ []) × (F.parse_json t ≡ ok v)
  unfolding load_all
  load_all-single [] v h = absurd (nil-ne-cons v [] (ok-injective [] (v ∷ []) h))
  load_all-single (t ∷ ts) v h =
      let (w, parsed, h1) = bind-ok (F.parse_json t) _ (v ∷ []) h in
      let (ws, rest, h2) = bind-ok (load_all F ts) _ (v ∷ []) h1 in
      let (same, empty) = single_parts w v ws h2 in
      (t, ap (λ us. t ∷ us) (load_all-none ts (rest ∙ ap ok empty)), parsed ∙ ap ok same)

  verify-Accepts :
      (text version : String) (r : Fields)
      → verify F text version ≡ ok r
      → IsRecord F text r × IsPassing version r
  unfolding verify
  verify-Accepts text version r h =
      let (rows, loaded, h1) = bind-ok (load_all F (tails (split_lines text))) _ r h in
      let (row, one, h2) = or_error-passed not_one (one_row rows) _ r h1 in
      let (fields, is_dict, h3) = or_error-passed no_get (as_dict row) _ r h2 in
      let (good, same) = check-passed (passes version fields) mismatched (ok fields) r h3 in
      let same_fields = ok-injective fields r same in
      let single = loaded ∙ ap ok (one_row-only rows row one) in
      let (t, only, parsed) = load_all-single (tails (split_lines text)) row single in
      (
        record {
          tail = t;
          only = only;
          parsed = parsed ∙ ap ok (as_dict-dict row fields is_dict ∙ ap dict same_fields);
        },
        subst (IsPassing version) same_fields (passes-IsPassing version fields good),
      )

  Accepts-verify :
      (text version : String) (r : Fields)
      → IsRecord F text r × IsPassing version r
      → verify F text version ≡ ok r
  unfolding verify load_all
  Accepts-verify text version r (e, p) = rw (e.only, e.parsed, IsPassing-passes version r p) refl

  -- The evidence is accepted, and returned, exactly if the text has one line with the marker, what
  -- follows the marker in that line is the JSON of a dict, and the dict says that the acceptance
  -- passed on the fixture's site, with the expected version of the app, with each of its parts done
  -- and with no external messages.
  pub verify_iff :
      (text version : String) (r : Fields)
      → (verify F text version ≡ ok r) ↔ (IsRecord F text r × IsPassing version r)
  verify_iff text version r = (verify-Accepts text version r, Accepts-verify text version r)
