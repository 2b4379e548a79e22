-- ===== src/Sending/Written.antt =====
-- What the steps of `_store_delivery` of erpnext_whatsapp_connection/api.py make of the site.
use erpnext_whatsapp_connect.Base.{
  suc, String, true, Option, none, ◌≡◌, sym, ap, ◌∙◌, inl, inr, Option-cases,
}
use erpnext_whatsapp_connect.Py.Action.{continue-first, continue-step}
use erpnext_whatsapp_connect.Py.Result.{
  bind-ok, check-ok, check, validation, Result, ok, err-ne-ok, ok-injective,
}
use erpnext_whatsapp_connect.Site.Records.{Delivery, Settings}
use erpnext_whatsapp_connect.Site.Frappe.{Frappe, StoredFile}
use erpnext_whatsapp_connect.Site.World.{World, update_row}
use erpnext_whatsapp_connect.History.{validate}
use erpnext_whatsapp_connect.Source.Document.{enabled_settings}
use erpnext_whatsapp_connect.Sending.Store.{
  Order, Stored, with_pdf, file_for, group_for, with_job, may_refuse, new_row, write_row,
  insert_row, save_file, store_row, first_status,
}

pub enabled-ok : (s t : Settings) → enabled_settings s ≡ ok t → (s ≡ t) × (s.enabled ≡ true)
unfolding enabled_settings
enabled-ok s t h =
    let (u, on, same) =
      bind-ok (check s.enabled (validation "Enable the WhatsApp transport before sending."))
        (λ _. ok s) t h in
    (ok-injective s t same, check-ok s.enabled _ u on)

allowed_settings : (s t : Settings) → enabled_settings s ≡ ok t → enabled_settings s ≡ ok s
allowed_settings s t h = h ∙ ap (λ x. ok x) (sym (enabled-ok s t h).0)

module _ (F : Frappe) where
  -- The row, before its file is known, and the world after the steps of `write_row`.
  abbrev pub draft_row : Option String → String → Order → World F → Delivery
  draft_row copy_of recipient o w =
      new_row F copy_of recipient o w.settings w.user (F.clock w.tick)
        (F.generate_hash (suc w.tick)) (F.new_name w.table)

  abbrev pub file_added : Order → World F → F.Files × String
  file_added o w = F.add_file w.files (file_for F (F.new_name w.table) o)

  abbrev pub after : Option String → String → Order → World F → World F
  after copy_of recipient o w = with_job F copy_of (F.new_name w.table) (record w {
    table =
        update_row F (F.new_name w.table) (with_pdf (file_added o w).1 (F.sha256_bytes o.pdf))
          (F.put w.table (draft_row copy_of recipient o w));
    files = (file_added o w).0;
    tick = suc (suc (suc (suc w.tick)));
  })

  abbrev pub reported : Option String → World F → Stored
  reported copy_of w = record { name = F.new_name w.table; status = first_status copy_of }

  may_refuse-ok :
      (w : World F) (u : Unit {0})
      → (may_refuse F w).0 ≡ ok u
      → may_refuse F w ≡ (ok tt, record w { tick = suc w.tick })
  unfolding may_refuse
  may_refuse-ok w u h = elim (Option-cases (F.insert_error w.tick)) [
    | inl e ↦ rw (e, may_refuse)
    | inr (x, e) ↦ absurd (err-ne-ok x u (rw (e, may_refuse) at h))
  ]

  insert_row-ok :
      (d : Delivery) (w : World F) (u : Unit {0})
      → (insert_row F d w).0 ≡ ok u
      → (validate none d ≡ ok tt)
        × (insert_row F d w ≡ (ok tt, record w { table = F.put w.table d; tick = suc w.tick }))
  unfolding insert_row
  insert_row-ok d w u h =
      let r : Result (Unit {0}) × World F = (validate none d, w) in
      let (_, valid) = continue-first _ r u h in
      let (rest, c) = continue-step _ r u tt w (λ x e. ap (λ v. (v, w)) e) h in
      (valid, c ∙ (continue-step _ (may_refuse F w) u tt _ (may_refuse-ok w) rest).1)

  save_file-ok :
      (f : StoredFile) (w : World F) (n : String)
      → (save_file F f w).0 ≡ ok n
      → save_file F f w ≡ (
        ok (F.add_file w.files f).1,
        record w { files = (F.add_file w.files f).0; tick = suc w.tick },
      )
  unfolding save_file
  save_file-ok f w n h = (continue-step _ (may_refuse F w) n tt _ (may_refuse-ok w) h).1

  -- A call that ends well has run all its steps.
  write_row-after :
      (copy_of : Option String) (recipient : String) (o : Order) (w : World F) (r : Stored)
      → (write_row F copy_of recipient o w.settings w).0 ≡ ok r
      → (validate none (draft_row copy_of recipient o w) ≡ ok tt)
        × (write_row F copy_of recipient o w.settings w
            ≡ (ok (reported copy_of w), after copy_of recipient o w))
  unfolding write_row new_row
  write_row-after copy_of recipient o w r h =
      let w2 : World F = record w { tick = suc (suc w.tick) } in
      let row = draft_row copy_of recipient o w in
      let (u, inserted) = continue-first _ (insert_row F row w2) r h in
      let (valid, e1) = insert_row-ok row w2 u inserted in
      let (h1, c1) =
        continue-step _ (insert_row F row w2) r tt _ (λ x q. (insert_row-ok row w2 x q).1) h in
      let w3 : World F = record w { table = F.put w.table row; tick = suc (suc (suc w.tick)) } in
      let f = file_for F (F.new_name w.table) o in
      let (_, c2) = continue-step _ (save_file F f w3) r _ _ (save_file-ok f w3) h1 in
      (valid, c1 ∙ c2)

  pub store_row-after :
      (copy_of : Option String) (recipient : String) (o : Order) (w : World F)
      (r : Stored × Option String)
      → (store_row F copy_of recipient o w).0 ≡ ok r
      → (w.settings.enabled ≡ true)
        × (group_for F copy_of w.settings o.company w.user ≡ ok r.1)
        × (validate none (draft_row copy_of recipient o w) ≡ ok tt)
        × (store_row F copy_of recipient o w
            ≡ (ok (reported copy_of w, r.1), after copy_of recipient o w))
  unfolding store_row
  store_row-after copy_of recipient o w r h =
      let s : Result Settings × World F = (enabled_settings w.settings, w) in
      let g : Result (Option String) × World F =
        (group_for F copy_of w.settings o.company w.user, w) in
      let (t, allowed) = continue-first _ s r h in
      let (same, on) = enabled-ok w.settings t allowed in
      let (h1, c1) =
        continue-step _ s r w.settings w (λ x e. ap (λ v. (v, w)) (allowed_settings w.settings x e))
          h in
      let (k, chosen) = continue-first _ g r h1 in
      let (h2, c2) = continue-step _ g r k w (λ x e. ap (λ v. (v, w)) chosen) h1 in
      let m = write_row F copy_of recipient o w.settings w in
      let (a, written) = continue-first _ m r h2 in
      let (valid, _) = write_row-after copy_of recipient o w a written in
      let (h3, c3) =
        continue-step _ m r _ _ (λ x e. (write_row-after copy_of recipient o w x e).1) h2 in
      let e : (reported copy_of w, k) ≡ r = ok-injective _ r h3 in
      (
        on,
        chosen ∙ ap (λ x. ok x.1) e,
        valid,
        c1 ∙ c2 ∙ c3 ∙ ap (λ x. (ok (reported copy_of w, x.1), after copy_of recipient o w)) e,
      )
