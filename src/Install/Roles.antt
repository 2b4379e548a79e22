-- ===== src/Install/Roles.antt =====
-- The roles once they are ensured (erpnext_whatsapp_connection/install.py).
use text.Mathlib.TextPositions.{eq_refl}
use erpnext_whatsapp_connect.Base.{
  String, true, List, [], ◌∷◌, ◌++◌, contains, ◌≡◌, refl, ap, ◌∙◌, inl, inr, Bool-cases, All, arith,
  if◌then◌else◌,
}
use erpnext_whatsapp_connect.Py.Result.{ok}
use erpnext_whatsapp_connect.Py.Action.{continue, for_each}
use erpnext_whatsapp_connect.Install.{Setup, ensure_role}

-- The roles once each of a list has been ensured.
abbrev with_role : String → List String → List String
with_role r xs = if contains r xs then xs else xs ++ r ∷ []

abbrev pub roles_after : List String → List String → List String
roles_after [] xs = xs
roles_after (r ∷ rs) xs = roles_after rs (with_role r xs)

contains-append :
    (a r : String) (xs : List String) → contains a xs ≡ true → contains a (xs ++ r ∷ []) ≡ true
contains-append a r [] h = cc
contains-append a r (x ∷ xs) h = ground (arith, contains-append a r xs)

contains-last : (r : String) (xs : List String) → contains r (xs ++ r ∷ []) ≡ true
contains-last r [] = rw (eq_refl r) refl
contains-last r (x ∷ xs) = ground (arith, contains-last r xs)

with_role-keeps :
    (a r : String) (xs : List String) → contains a xs ≡ true → contains a (with_role r xs) ≡ true
with_role-keeps a r xs h = elim (Bool-cases (contains r xs)) [
  | inl e ↦ rw e h
  | inr e ↦ rw e (contains-append a r xs h)
]

with_role-has : (r : String) (xs : List String) → contains r (with_role r xs) ≡ true
with_role-has r xs = elim (Bool-cases (contains r xs)) [
  | inl e ↦ rw e e
  | inr e ↦ rw e (contains-last r xs)
]

roles_after-keeps :
    (a : String) (rs xs : List String)
    → contains a xs ≡ true
    → contains a (roles_after rs xs) ≡ true
roles_after-keeps a [] xs h = h
roles_after-keeps a (r ∷ rs) xs h =
    roles_after-keeps a rs (with_role r xs) (with_role-keeps a r xs h)

pub roles_after-has : (rs xs : List String) → All (λ r. contains r (roles_after rs xs) ≡ true) rs
roles_after-has [] xs = tt
roles_after-has (r ∷ rs) xs = (
  roles_after-keeps r rs (with_role r xs) (with_role-has r xs),
  roles_after-has rs (with_role r xs),
)

pub roles_after-idle :
    (rs xs : List String) → All (λ r. contains r xs ≡ true) rs → roles_after rs xs ≡ xs
roles_after-idle [] xs h = refl
roles_after-idle (r ∷ rs) xs (e, h) = rw e (roles_after-idle rs xs h)

ensure_role-lem :
    (r : String) (s : Setup) → ensure_role r s ≡ (ok tt, record s { roles = with_role r s.roles })
unfolding ensure_role
ensure_role-lem r s = elim (Bool-cases (contains r s.roles)) [
  | inl e ↦ rw e refl
  | inr e ↦ rw e refl
]

pub ensure_each-lem :
    (rs : List String) (s : Setup)
    → for_each rs ensure_role s ≡ (ok tt, record s { roles = roles_after rs s.roles })
unfolding for_each
ensure_each-lem [] s = refl
ensure_each-lem (r ∷ rs) s =
    ap (continue (λ _. for_each rs ensure_role)) (ensure_role-lem r s)
    ∙ ensure_each-lem rs (record s { roles = with_role r s.roles })
