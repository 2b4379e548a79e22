-- ===== src/Gateway/Errors.antt =====
-- When the gateway client raises, and with what (erpnext_whatsapp_connection/gateway_client.py).
use erpnext_whatsapp_connect.Base.{
  ℕ, String, length, true, false, none, some, [], ◌∷◌, ◌++◌, leb, ltb, ◌≡◌, refl, sym, ap, ◌∙◌, inl,
  inr, Bool-cases, Option-cases, true-ne-false,
}
use erpnext_whatsapp_connect.Py.Result.{
  Error, needs_reconciliation, crash, gateway, Result, ok, err, Result-cases,
}
use erpnext_whatsapp_connect.Py.Value.{
  Value, Fields, bool, null, str, int, list, dict, as_dict, get, is_true,
}
use erpnext_whatsapp_connect.Site.Records.{Request}
use erpnext_whatsapp_connect.Site.Frappe.{Frappe, Reply, unreachable, undecodable, response}
use erpnext_whatsapp_connect.Site.World.{World, request}
use erpnext_whatsapp_connect.Gateway.{
  strip_bytes, secret, sign, get_of, is_true, refusal, read_reply, gateway_request,
}

ok-ne-err : {A : Type 0} (a : A) (e : Error) → ok a ≡ err e → ⊥
ok-ne-err a e h = cc

err-injective : {A : Type 0} (a b : Error) → ◌≡◌ {A = Result A} (err a) (err b) → a ≡ b
err-injective a b h = cc

-- An error that asks for no hold is not one that does.
no_hold :
    {A : Type 0} (a b : Error)
    → ◌≡◌ {A = Result A} (err a) (err b)
    → needs_reconciliation a ≡ false
    → needs_reconciliation b ≡ true
    → ⊥
no_hold a b h clear held =
    true-ne-false (needs_reconciliation a) (ap needs_reconciliation (err-injective a b h) ∙ held)
      clear

get_of-error :
    (v : Value) (k : String) (e : Error) → get_of v k ≡ err e → needs_reconciliation e ≡ false
get_of-error v k e h = elim (Option-cases (as_dict v)) [
  | inl n ↦
      ap needs_reconciliation
        (sym (err-injective (crash "object has no attribute 'get'") e (rw (n, get_of) at h)))
  | inr (fs, f) ↦ absurd (ok-ne-err (get fs k) e (rw (f, get_of) at h))
]

pub is_true-bool : (v : Value) → is_true v ≡ true → v ≡ bool true
is_true-bool (bool true) h = refl
is_true-bool (bool false) h = cc
is_true-bool null h = cc
is_true-bool (str s) h = cc
is_true-bool (int n) h = cc
is_true-bool (list vs) h = cc
is_true-bool (dict fs) h = cc

module _ (F : Frappe) where
  -- The gateway itself asked for the hold: it answered with an error status and said so.
  pub record IsHold (r : Reply) : Type 0 where
    pub status : ℕ
    pub body : Value
    pub answered : r ≡ response status (some body)
    pub refused : leb 400 status ≡ true
    pub held : get_of body "reconciliation_required" ≡ ok (bool true)

  refusal-held :
      (body : Value) (e : Error)
      → refusal F body ≡ err e
      → needs_reconciliation e ≡ true
      → get_of body "reconciliation_required" ≡ ok (bool true)
  refusal-held body e h k = elim (Result-cases (get_of body "error")) [
    | inr (x, f) ↦ absurd (no_hold x e (rw f at h) (get_of-error body "error" x f) k)
    | inl (m, f) ↦ elim (Result-cases (get_of body "reconciliation_required")) [
      | inr (x, g) ↦
          absurd (no_hold x e (rw (f, g) at h) (get_of-error body "reconciliation_required" x g) k)
      | inl (r, g) ↦
          let said : is_true r ≡ true =
            ap needs_reconciliation (err-injective _ e (rw (f, g) at h)) ∙ k in
          g ∙ ap ok (is_true-bool r said)
    ]
  ]

  secret-error : (e : Error) → secret F ≡ err e → needs_reconciliation e ≡ false
  unfolding secret
  secret-error e h = elim (Option-cases F.hmac_key_file) [
    | inl f ↦ ap needs_reconciliation (
        sym (
          err-injective (gateway "The private WhatsApp gateway is not configured." false) e
            (rw f at h)))
    | inr (bytes, f) ↦ elim (Bool-cases (ltb (length (strip_bytes bytes)) 32)) [
      | inl g ↦ ap needs_reconciliation (
          sym (
            err-injective (gateway "The private WhatsApp gateway authentication is invalid." false)
              e (rw g at (rw f at h))))
      | inr g ↦ absurd (ok-ne-err (strip_bytes bytes) e (rw g at (rw f at h)))
    ]
  ]

  read_reply-IsHold :
      (r : Reply) (e : Error) → read_reply F r ≡ err e → needs_reconciliation e ≡ true → IsHold r
  read_reply-IsHold unreachable e h k =
      absurd (no_hold (gateway "The private WhatsApp gateway is unavailable." false) e h refl k)
  read_reply-IsHold undecodable e h k =
      absurd (no_hold (crash "'utf-8' codec can't decode the answer") e h refl k)
  read_reply-IsHold (response status none) e h k = absurd (
      no_hold (gateway "The private WhatsApp gateway returned an invalid response." false) e h refl
        k)
  read_reply-IsHold (response status (some body)) e h k = elim (Bool-cases (leb 400 status)) [
    | inl f ↦ record {
      status = status;
      body = body;
      answered = refl;
      refused = f;
      held = refusal-held body e (rw f at h) k;
    }
    | inr f ↦ absurd (ok-ne-err body e (rw f at h))
  ]

  -- A failed call of the gateway asks for reconciliation only if a request was signed and sent and the
  -- gateway answered it with a status of 400 or more and a body that says so; a gateway that cannot
  -- be reached, an answer that is no text or no JSON, and a secret that is missing or too short never
  -- do.
  pub gateway_request-IsHold :
      (path : String) (payload : Fields) (w : World F) (e : Error)
      → (gateway_request F path payload w).0 ≡ err e
      → needs_reconciliation e ≡ true
      → (r : Request) × ((gateway_request F path payload w).1.log ≡ w.log ++ request r ∷ [])
        × IsHold (F.exchange w.tick r)
  unfolding gateway_request
  gateway_request-IsHold path payload w e h k = elim (Result-cases (secret F)) [
    | inl (key, f) ↦
        let r = sign F key w.tick path payload in
        rw (f, gateway_request)
          (r, refl, read_reply-IsHold (F.exchange w.tick r) e (rw (f, gateway_request) at h) k)
    | inr (x, f) ↦ absurd (no_hold x e (rw (f, gateway_request) at h) (secret-error x f) k)
  ]
