-- ===== src/Py/Action.antt =====
-- Statements that read and write shared state and may raise. What was written before a raise stays
-- written, so the state comes back beside the exception too.
use erpnext_whatsapp_connect.Base.{Bool, true, false, List, [], ◌∷◌, ◌≡◌, refl, ap, sym, ◌∙◌}
use erpnext_whatsapp_connect.Py.Result.{Error, Result, ok, err, err-ne-ok}

abbrev pub Action {ℓ} : Type ℓ → Type ℓ → Type ℓ
Action S A = S → Result A × S

module _ {ℓ} {S A : Type ℓ} where
  abbrev pub pure : A → Action S A
  pure a s = (ok a, s)

  abbrev pub raise : Error → Action S A
  raise e s = (err e, s)

  abbrev pub lift : Result A → Action S A
  lift r s = (r, s)

  abbrev pub gets : (S → A) → Action S A
  gets f s = (ok (f s), s)

module _ {ℓ} {S A B : Type ℓ} where
  -- What follows a step, by how the step ended.
  abbrev pub continue : (A → Action S B) → Result A × S → Result B × S
  continue f (ok a, s) = f a s
  continue f (err e, s) = (err e, s)

  infixl 5 ◌>>=◌ ◌>>◌
  abbrev pub ◌>>=◌ : Action S A → (A → Action S B) → Action S B
  ◌>>=◌ m f s = continue f (m s)

  abbrev pub ◌>>◌ : Action S A → Action S B → Action S B
  m >> k = m >>= λ _. k

module _ {S : Type 0} where
  abbrev pub modify : (S → S) → Action S (Unit {0})
  modify f s = (ok tt, f s)

  -- `if bad: frappe.throw(...)`.
  abbrev pub throw_if : Bool → Error → Action S (Unit {0})
  throw_if true e s = (err e, s)
  throw_if false e s = (ok tt, s)

  -- `for a in xs: f(a)`.
  unfoldable pub for_each : {A : Type 0} → List A → (A → Action S (Unit {0})) → Action S (Unit {0})
  for_each [] f s = (ok tt, s)
  for_each (a ∷ xs) f s = continue (λ _. for_each xs f) (f a s)

-- Inversion of a step that was followed by another and ended well.
pub continue-ok :
    {S A B : Type 0} (f : A → S → Result B × S) (r : Result A × S) (b : B)
    → (continue f r).0 ≡ ok b
    → (a : A) × (w : S) × ((f a w).0 ≡ ok b)
continue-ok f (ok a, w) b h = (a, w, h)
continue-ok f (err e, w) b h = absurd (err-ne-ok e b h)

pub continue-first :
    {S A B : Type 0} (f : A → S → Result B × S) (r : Result A × S) (b : B)
    → (continue f r).0 ≡ ok b
    → (a : A) × (r.0 ≡ ok a)
continue-first f (ok a, w) b h = (a, refl)
continue-first f (err e, w) b h = absurd (err-ne-ok e b h)

-- The same, for a step that can end well in one way only.
pub continue-step :
    {S A B : Type 0} (f : A → S → Result B × S) (r : Result A × S) (b : B) (a : A) (w : S)
    → ((x : A) → r.0 ≡ ok x → r ≡ (ok a, w))
    → (continue f r).0 ≡ ok b
    → ((f a w).0 ≡ ok b) × (continue f r ≡ f a w)
continue-step f (ok x, v) b a w only h =
    let e = only x refl in (ap (λ r. (continue f r).0) (sym e) ∙ h, ap (continue f) e)
continue-step f (err e, v) b a w only h = absurd (err-ne-ok e b h)
