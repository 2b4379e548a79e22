-- ===== src/Sending/Stored.antt =====
-- What `_store_delivery` of erpnext_whatsapp_connection/api.py leaves in the site.
use erpnext_whatsapp_connect.Base.{
  ℕ, suc, String, true, false, Option, none, some, ◌≡◌, ◌≢◌, refl, sym, ap, ◌∙◌, subst, str_eq,
}
use erpnext_whatsapp_connect.Py.Result.{ok, ok-injective}
use erpnext_whatsapp_connect.Site.Records.{Delivery}
use erpnext_whatsapp_connect.Site.Frappe.{Frappe, IsLawful, StoredFile}
use erpnext_whatsapp_connect.Site.World.{World}
use erpnext_whatsapp_connect.Site.Rows.{
  find-put_self, find-put_ne, find-update_self, find-update_ne,
}
use erpnext_whatsapp_connect.History.{validate, check_immutable}
use erpnext_whatsapp_connect.Outbound.Snapshot.{history_doctype}
use erpnext_whatsapp_connect.Sending.Written.{
  draft_row, file_added, after, reported, store_row-after,
}
use erpnext_whatsapp_connect.Sending.Store.{
  Order, Stored, with_pdf, file_for, group_for, with_job, new_row, store_row, first_status,
}

module _ (F : Frappe) where
  -- The row that a call stores, at a moment and with a fresh key, and with its file.
  abbrev pub row_at : Option String → String → Order → World F → ℕ → String → String → Delivery
  row_at copy_of recipient o w now hash file =
      with_pdf file (F.sha256_bytes o.pdf)
        (new_row F copy_of recipient o w.settings w.user now hash (F.new_name w.table))

  -- What a call that stored one row has done.
  pub record HasStored (copy_of : Option String) (recipient : String) (o : Order) (w w' : World F)
      (r : Stored × Option String) : Type 0 where
    pub now : ℕ
    pub hash : String
    pub file : String
    pub fresh : F.find w.table r.0.name ≡ none
    pub name : r.0.name ≡ F.new_name w.table
    pub found : F.find w'.table r.0.name ≡ some (row_at copy_of recipient o w now hash file)
    pub accepted : validate none (row_at copy_of recipient o w now hash file) ≡ ok tt
    pub older : (m : String) (d : Delivery) → F.find w.table m ≡ some d → F.find w'.table m ≡ some d
    pub attached :
        (f : StoredFile) × (F.get_file w'.files file ≡ some f)
        × (str_eq file "" ≡ false)
        × (f.content ≡ o.pdf)
        × (f.is_private ≡ true)
        × (f.attached_to_doctype ≡ some history_doctype)
        × (f.attached_to_name ≡ some r.0.name)
    pub files :
        (n : String) (f : StoredFile)
        → F.get_file w.files n ≡ some f
        → F.get_file w'.files n ≡ some f
    pub status : r.0.status ≡ first_status copy_of
    pub group : group_for F copy_of w.settings o.company w.user ≡ ok r.1
    pub enabled : w.settings.enabled ≡ true
    pub settings : w'.settings ≡ w.settings
    pub user : w'.user ≡ w.user
    pub templates : w'.templates ≡ w.templates
    pub log : w'.log ≡ w.log
    pub jobs : w'.jobs ≡ (with_job F copy_of r.0.name w).jobs

module _ (F : Frappe) (L : IsLawful F) where
  after-older :
      (copy_of : Option String) (recipient : String) (o : Order) (w : World F) (m : String)
      (d : Delivery)
      → F.find w.table m ≡ some d
      → F.find (after F copy_of recipient o w).table m ≡ some d
  unfolding new_row
  after-older copy_of recipient o w m d h =
      let n = F.new_name w.table in
      let row = draft_row F copy_of recipient o w in
      let other : n ≢ m = λ e.
        let kept : some d ≡ none =
          sym h ∙ ap (λ k. F.find w.table k) (sym e) ∙ L.new_name_fresh w.table in
        cc in
      find-update_ne F L (with_pdf (file_added F o w).1 (F.sha256_bytes o.pdf)) (F.put w.table row)
        n m (λ x. refl) other
      ∙ find-put_ne F L w.table row m other
      ∙ h

  after-HasStored :
      (copy_of : Option String) (recipient : String) (o : Order) (w : World F) (k : Option String)
      → w.settings.enabled ≡ true
      → group_for F copy_of w.settings o.company w.user ≡ ok k
      → validate none (draft_row F copy_of recipient o w) ≡ ok tt
      → HasStored F copy_of recipient o w (after F copy_of recipient o w) (reported F copy_of w, k)
  unfolding new_row validate check_immutable
  after-HasStored copy_of recipient o w k on chosen valid =
      let n = F.new_name w.table in
      let row = draft_row F copy_of recipient o w in
      let file = (file_added F o w).1 in
      record {
        now = F.clock w.tick;
        hash = F.generate_hash (suc w.tick);
        file = file;
        fresh = L.new_name_fresh w.table;
        name = refl;
        found =
            find-update_self F L (with_pdf file (F.sha256_bytes o.pdf)) (F.put w.table row) n row
              refl (find-put_self F L w.table row);
        accepted = valid;
        older = after-older copy_of recipient o w;
        attached = L.get-add_file w.files (file_for F n o);
        files = λ m g. L.add_file_keeps w.files (file_for F n o) g m;
        status = refl;
        group = chosen;
        enabled = on;
        settings = refl;
        user = refl;
        templates = refl;
        log = refl;
        jobs = refl;
      }

  -- What the call of one row leaves.
  pub store_row-HasStored :
      (copy_of : Option String) (recipient : String) (o : Order) (w : World F)
      (r : Stored × Option String)
      → (store_row F copy_of recipient o w).0 ≡ ok r
      → HasStored F copy_of recipient o w (store_row F copy_of recipient o w).1 r
  store_row-HasStored copy_of recipient o w r h =
      let (on, chosen, valid, ran) = store_row-after F copy_of recipient o w r h in
      let named : (reported F copy_of w, r.1) ≡ r =
        ok-injective _ r (ap (λ x. x.0) (sym ran) ∙ h) in
      subst (λ (x : World F). HasStored F copy_of recipient o w x r) (ap (λ x. x.1) (sym ran))
        (subst (λ x. HasStored F copy_of recipient o w (after F copy_of recipient o w) x) named
          (after-HasStored copy_of recipient o w r.1 on chosen valid))
