-- ===== src/Acceptance/Preserved.antt =====
-- When the check of the group fixture passes (erpnext_whatsapp_connection/acceptance.py).
use erpnext_whatsapp_connect.Base.{
  true, some, List, [], ◌∷◌, ◌≡◌, inl, inr, ◌↔◌, refl, sym, ap, ◌∙◌, subst, pos, str_eq, ◌==◌,
  length, arith, Bool-cases, Option-cases,
}
use erpnext_whatsapp_connect.Py.Result.{
  Result, ok, err, err-ne-ok, ok-injective, Result-cases, check-ok,
}
use erpnext_whatsapp_connect.Py.Action as Action
use erpnext_whatsapp_connect.Py.Action.{continue-step, continue-first}
use erpnext_whatsapp_connect.Py.Value.{str, int, dict, Fields, get}
use erpnext_whatsapp_connect.Py.Equality.{value_eq}
use erpnext_whatsapp_connect.Site.Frappe.{Frappe, IsLawful, plain}
use erpnext_whatsapp_connect.Acceptance.Peer.{fixture_site}
use erpnext_whatsapp_connect.Acceptance.Installed.{
  TestSite, Native, changed_groups, agrees, check_rows, validate_group_preservation,
  fixture_company, fixture_row, snapshot_of, add_fixture, or_rollback, prepare_prerequisites,
  prepare_group_preservation,
}

-- The settings have one row, with the fixture's company, name, group and switch.
pub record IsPreserved (row : Fields) (rows : List Fields) : Type 0 where
  pub kept : Fields
  pub only : rows ≡ kept ∷ []
  pub company : value_eq (get kept "company") (str "WhatsApp Fixture Company") ≡ true
  pub name : value_eq (get kept "name") (get row "name") ≡ true
  pub group_id : value_eq (get kept "group_id") (get row "group_id") ≡ true
  pub enabled : value_eq (get kept "enabled") (int (pos 0)) ≡ true

agrees-IsPreserved :
    (row kept : Fields) → agrees kept (snapshot_of row) ≡ true → IsPreserved row (kept ∷ [])
unfolding agrees
agrees-IsPreserved row kept h = record {
  kept = kept;
  only = refl;
  company = ground (arith, h);
  name = ground (arith, h);
  group_id = ground (arith, h);
  enabled = ground (arith, h);
}

IsPreserved-agrees :
    (row : Fields) (rows : List Fields)
    → IsPreserved row rows
    → check_rows rows (dict (snapshot_of row)) ≡ ok tt
unfolding check_rows agrees
IsPreserved-agrees row rows p = rw (p.only, p.company, p.name, p.group_id, p.enabled) refl

check_rows-IsPreserved :
    (row : Fields) (rows : List Fields)
    → check_rows rows (dict (snapshot_of row)) ≡ ok tt
    → IsPreserved row rows
unfolding check_rows
check_rows-IsPreserved row [] h = absurd (err-ne-ok changed_groups tt h)
check_rows-IsPreserved row (kept ∷ []) h =
    agrees-IsPreserved row kept (check-ok _ changed_groups tt h)
check_rows-IsPreserved row (a ∷ (b ∷ rows)) h = absurd (err-ne-ok changed_groups tt h)

check_rows_iff :
    (row : Fields) (rows : List Fields)
    → (check_rows rows (dict (snapshot_of row)) ≡ ok tt) ↔ IsPreserved row rows
check_rows_iff row rows = (check_rows-IsPreserved row rows, IsPreserved-agrees row rows)

or_rollback-ok :
    (before : TestSite) (r : Result (Unit {0}) × TestSite) (u : Unit {0})
    → (or_rollback before r).0 ≡ ok u
    → (r.0 ≡ ok u) × (or_rollback before r ≡ r)
or_rollback-ok before (ok v, s) u h = (h, refl)
or_rollback-ok before (err e, s) u h = absurd (err-ne-ok e u h)

module _ (F : Frappe) where
  -- What a fixture leaves that was prepared without an error.
  pub record IsPrepared (N : Native) (s : TestSite) : Type 0 where
    pub row : Fields
    pub stored : N.save_row fixture_row ≡ ok row
    pub groups : s.company_groups ≡ row ∷ []
    pub snapshot : s.snapshot ≡ some (F.dumps plain (dict (snapshot_of row)))

  add_fixture-IsPrepared :
      (N : Native) (s : TestSite) (u : Unit {0})
      → (add_fixture F N s).0 ≡ ok u
      → IsPrepared N (add_fixture F N s).1
  unfolding add_fixture
  add_fixture-IsPrepared N s u h = elim (Option-cases (N.insert_error fixture_company)) [
    | inr (e, f) ↦ absurd (err-ne-ok e u (rw (f, add_fixture) at h))
    | inl f ↦ elim (Result-cases (N.save_row fixture_row)) [
      | inr (e, g) ↦ absurd (err-ne-ok e u (rw (f, add_fixture, g) at h))
      | inl (row, g) ↦
          rw (f, add_fixture, g) (record { row = row; stored = g; groups = refl; snapshot = refl })
    ]
  ]

  both-IsPrepared :
      (N : Native) (r : Result (Unit {0}) × TestSite) (u : Unit {0})
      → (Action.continue (λ _. add_fixture F N) r).0 ≡ ok u
      → IsPrepared N (Action.continue (λ _. add_fixture F N) r).1
  both-IsPrepared N (ok v, s) u h = add_fixture-IsPrepared N s u h
  both-IsPrepared N (err e, s) u h = absurd (err-ne-ok e u h)

  prepare_group_preservation-IsPrepared :
      (N : Native) (s : TestSite) (u : Unit {0})
      → (prepare_group_preservation F N s).0 ≡ ok u
      → (str_eq F.site fixture_site ≡ true) × IsPrepared N (prepare_group_preservation F N s).1
  unfolding prepare_group_preservation
  prepare_group_preservation-IsPrepared N s u h = elim (Bool-cases (str_eq F.site fixture_site)) [
    | inr e ↦ absurd (err-ne-ok _ u (rw (e, prepare_group_preservation) at h))
    | inl e ↦ elim (Bool-cases (length s.company_groups == 0)) [
      | inr g ↦ absurd (err-ne-ok _ u (rw (e, prepare_group_preservation, g) at h))
      | inl g ↦
          let both =
            Action.continue (λ _. add_fixture F N) (prepare_prerequisites F N "United States" s) in
          let whole : prepare_group_preservation F N s ≡ or_rollback s both =
            rw (e, prepare_group_preservation, g) refl in
          let (ran, same) = or_rollback-ok s both u (ap (λ r. r.0) (sym whole) ∙ h) in
          (e, subst (λ r. IsPrepared N r.1) (sym (whole ∙ same)) (both-IsPrepared N _ u ran))
    ]
  ]

  validate_group_preservation_lem :
      (t : TestSite) (row : Fields)
      → IsLawful F
      → str_eq F.site fixture_site ≡ true
      → F.parse_json (F.dumps plain (dict (snapshot_of row))) ≡ ok (dict (snapshot_of row))
      → t.snapshot ≡ some (F.dumps plain (dict (snapshot_of row)))
      → validate_group_preservation F t ≡ check_rows t.company_groups (dict (snapshot_of row))
  unfolding validate_group_preservation
  validate_group_preservation_lem t row L here parsed kept =
      rw (here, kept, L.dumps-not_empty plain (dict (snapshot_of row)), parsed) refl

  -- Once the fixture has been prepared without an error, and while the snapshot that it took is kept
  -- and is read back as it was written, the fixture's row is the only one, and the check passes exactly
  -- if the settings have one row, and that row has the fixture's company, has the name and the group's
  -- identity that were stored and is still disabled. A change of the row's other fields is not looked
  -- at.
  pub validate_group_preservation_iff :
      (N : Native) (s t : TestSite) (u : Unit {0}) (row : Fields)
      → IsLawful F
      → N.save_row fixture_row ≡ ok row
      → F.parse_json (F.dumps plain (dict (snapshot_of row))) ≡ ok (dict (snapshot_of row))
      → (prepare_group_preservation F N s).0 ≡ ok u
      → t.snapshot ≡ (prepare_group_preservation F N s).1.snapshot
      → ((prepare_group_preservation F N s).1.company_groups ≡ row ∷ [])
        × ((validate_group_preservation F t ≡ ok tt) ↔ IsPreserved row t.company_groups)
  validate_group_preservation_iff N s t u row L stored parsed h kept =
      let (here, p) = prepare_group_preservation-IsPrepared N s u h in
      let is_row : p.row ≡ row = ok-injective p.row row (sym p.stored ∙ stored) in
      let snapshot = ap (λ r. some (F.dumps plain (dict (snapshot_of r)))) is_row in
      let same =
        validate_group_preservation_lem t row L here parsed (kept ∙ p.snapshot ∙ snapshot) in
      (
        p.groups ∙ ap (λ r. r ∷ []) is_row,
        subst (λ r. (r ≡ ok tt) ↔ IsPreserved row t.company_groups) (sym same)
            (check_rows_iff row t.company_groups),
      )
