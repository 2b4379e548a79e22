-- ===== src/Py/Result.antt =====
-- Exceptions, and computations that may raise and change nothing.
use erpnext_whatsapp_connect.Base.{
  String, Bool, true, false, Option, none, some, ◌≡◌, refl, ◌⊎◌, inl, inr,
}

-- `validation` and `permission` are what `frappe.throw` raises, `gateway` is WhatsAppGatewayError
-- with its `reconciliation_required` attribute, and `crash` is any other exception.
pub data Error : Type 0 where
  validation permission crash : String → Error
  gateway : String → Bool → Error

-- `str(exc)`.
abbrev pub message : Error → String
message (validation m) = m
message (permission m) = m
message (crash m) = m
message (gateway m _) = m

-- `getattr(exc, 'reconciliation_required', False)`.
abbrev pub needs_reconciliation : Error → Bool
needs_reconciliation (gateway _ r) = r
needs_reconciliation (validation _) = false
needs_reconciliation (permission _) = false
needs_reconciliation (crash _) = false

pub data Result {ℓ} (A : Type ℓ) : Type ℓ where
  ok : A → Result A
  err : Error → Result A

infixl 5 ◌>>=◌ ◌>>◌
abbrev pub ◌>>=◌ {ℓ κ} : {A : Type ℓ} {B : Type κ} → Result A → (A → Result B) → Result B
ok a >>= f = f a
err e >>= f = err e

abbrev pub ◌>>◌ {ℓ κ} : {A : Type ℓ} {B : Type κ} → Result A → Result B → Result B
m >> k = m >>= λ _. k

-- `if not good: raise e`.
abbrev pub check : Bool → Error → Result (Unit {0})
check true e = ok tt
check false e = err e

-- What a value must be there for.
abbrev pub or_error {ℓ} : {A : Type ℓ} → Error → Option A → Result A
or_error e none = err e
or_error e (some a) = ok a

-- To split on a computed result and keep the equation.
pub Result-cases {ℓ} :
    {A : Type ℓ} (r : Result A) → ((a : A) × (r ≡ ok a)) ⊎ ((e : Error) × (r ≡ err e))
Result-cases (ok a) = inl (a, refl)
Result-cases (err e) = inr (e, refl)

pub ok-injective {ℓ} : {A : Type ℓ} (a b : A) → ok a ≡ ok b → a ≡ b
ok-injective a b h = cc

pub err-ne-ok {ℓ} : {A : Type ℓ} (e : Error) (a : A) → err e ≡ ok a → ⊥
err-ne-ok e a h = cc

-- Inversion of a chain that ended well.
pub bind-ok {ℓ κ} :
    {A : Type ℓ} {B : Type κ} (m : Result A) (f : A → Result B) (b : B)
    → (m >>= f) ≡ ok b
    → (a : A) × (m ≡ ok a) × (f a ≡ ok b)
bind-ok (ok a) f b h = (a, refl, h)
bind-ok (err e) f b h = absurd (err-ne-ok e b h)

pub check-ok : (b : Bool) (e : Error) (u : Unit {0}) → check b e ≡ ok u → b ≡ true
check-ok true e u h = refl
check-ok false e u h = absurd (err-ne-ok e u h)

pub check-passed {ℓ} :
    {B : Type ℓ} (b : Bool) (e : Error) (k : Result B) (x : B)
    → (check b e >> k) ≡ ok x
    → (b ≡ true) × (k ≡ ok x)
check-passed true e k x h = (refl, h)
check-passed false e k x h = absurd (err-ne-ok e x h)

pub or_error-passed {ℓ κ} :
    {A : Type ℓ} {B : Type κ} (e : Error) (o : Option A) (f : A → Result B) (x : B)
    → (or_error e o >>= f) ≡ ok x
    → (a : A) × (o ≡ some a) × (f a ≡ ok x)
or_error-passed e (some a) f x h = (a, refl, h)
or_error-passed e none f x h = absurd (err-ne-ok e x h)
