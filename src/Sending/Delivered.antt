-- ===== src/Sending/Delivered.antt =====
-- What `_store_delivery` of erpnext_whatsapp_connection/api.py leaves: the row of the customer and, for
-- a company with a group, the row of the group's copy.
use erpnext_whatsapp_connect.Base.{
  ℕ, List, true, String, Option, none, some, ◌≡◌, refl, sym, ap, ◌∙◌, subst,
}
use erpnext_whatsapp_connect.Py.Action.{continue-first, continue-step}
use erpnext_whatsapp_connect.Py.Result.{ok, ok-injective}
use erpnext_whatsapp_connect.Site.Frappe.{Frappe, IsLawful, StoredFile}
use erpnext_whatsapp_connect.Site.Records.{Delivery}
use erpnext_whatsapp_connect.Site.World.{World}
use erpnext_whatsapp_connect.Outbound.Snapshot.{history_doctype}
use erpnext_whatsapp_connect.Sending.Store.{
  new_row, Order, Stored, Answer, store_row, store_copy, store_delivery,
}
use erpnext_whatsapp_connect.Sending.Stored.{row_at, HasStored, store_row-HasStored}

module _ (F : Frappe) where
  -- What follows the row of the customer, by the group that the row goes to.
  abbrev pub CopyStored :
      Option String → String → Order → World F → World F → Option Stored → Type 0
  CopyStored none primary o w w' copy = (copy ≡ none) × (w' ≡ w)
  CopyStored (some g) primary o w w' copy =
      (c : Stored × Option String) × (copy ≡ some c.0) × HasStored F (some primary) g o w w' c

  pub record HasDelivered (recipient : String) (o : Order) (w w' : World F) (a : Answer)
      : Type 0 where
    pub copy_group : Option String
    pub between : World F
    pub primary : HasStored F none recipient o w between (a.stored, copy_group)
    pub copy : CopyStored copy_group a.stored.name o between w' a.group_copy

  -- The stored file of a row: private, attached to the row, with these bytes and with the row's
  -- checksum.
  pub record HasPdf (w : World F) (p : Delivery) (pdf : List ℕ) : Type 0 where
    pub file : String
    pub stored : StoredFile
    pub named : p.pdf_file ≡ some file
    pub found : F.get_file w.files file ≡ some stored
    pub content : stored.content ≡ pdf
    pub is_private : stored.is_private ≡ true
    pub attached_to_doctype : stored.attached_to_doctype ≡ some history_doctype
    pub attached_to_name : stored.attached_to_name ≡ some p.name
    pub checksum : p.pdf_sha256 ≡ some (F.sha256_bytes pdf)

  CopyStored-files :
      (k : Option String) (n : String) (o : Order) (w w' : World F) (c : Option Stored) (m : String)
      (f : StoredFile)
      → CopyStored k n o w w' c
      → F.get_file w.files m ≡ some f
      → F.get_file w'.files m ≡ some f
  CopyStored-files none n o w w' c m f h found = ap (λ v. F.get_file v.files m) h.1 ∙ found
  CopyStored-files (some g) n o w w' c m f h found = h.2.files m f found

  pub HasDelivered-HasPdf :
      (recipient : String) (o : Order) (w w' : World F) (a : Answer)
      → (h : HasDelivered recipient o w w' a)
      → HasPdf w' (row_at F none recipient o w h.primary.now h.primary.hash h.primary.file) o.pdf
  unfolding new_row
  HasDelivered-HasPdf recipient o w w' a h =
      let s = h.primary in
      let (f, found, _, content, private, doctype, name) = s.attached in
      record {
        file = s.file;
        stored = f;
        named = refl;
        found =
            CopyStored-files h.copy_group a.stored.name o h.between w' a.group_copy s.file f h.copy
              found;
        content = content;
        is_private = private;
        attached_to_doctype = doctype;
        attached_to_name = name ∙ ap some s.name;
        checksum = refl;
      }

module _ (F : Frappe) (L : IsLawful F) where
  store_copy-CopyStored :
      (o : Order) (stored : Stored) (k : Option String) (w : World F) (a : Answer)
      → (store_copy F o (stored, k) w).0 ≡ ok a
      → (a.stored ≡ stored)
        × CopyStored F k stored.name o w (store_copy F o (stored, k) w).1 a.group_copy
  unfolding store_copy
  store_copy-CopyStored o stored none w a h =
      let e = ok-injective _ a h in
      (ap (λ x. x.stored) (sym e), (ap (λ x. x.group_copy) (sym e), refl))
  store_copy-CopyStored o stored (some g) w a h =
      let m = store_row F (some stored.name) g o w in
      let (c, written) = continue-first _ m a h in
      let (last, ran) = continue-step _ m a c m.1 (λ x e. ap (λ v. (v, m.1)) written) h in
      let e = ok-injective _ a last in
      let left : (store_copy F o (stored, some g) w).1 ≡ m.1 = ap (λ x. x.1) ran in
      (
        ap (λ x. x.stored) (sym e),
        (
          c,
          ap (λ x. x.group_copy) (sym e),
          subst (λ v. HasStored F (some stored.name) g o w v c) (sym left)
              (store_row-HasStored F L (some stored.name) g o w c written),
        ),
      )

  pub store_delivery-HasDelivered :
      (recipient : String) (o : Order) (w : World F) (a : Answer)
      → (store_delivery F recipient o w).0 ≡ ok a
      → HasDelivered F recipient o w (store_delivery F recipient o w).1 a
  unfolding store_delivery
  store_delivery-HasDelivered recipient o w a h =
      let m = store_row F none recipient o w in
      let (r, written) = continue-first _ m a h in
      let (last, ran) = continue-step _ m a r m.1 (λ x e. ap (λ v. (v, m.1)) written) h in
      let (same, copied) = store_copy-CopyStored o r.0 r.1 m.1 a last in
      let left : (store_copy F o r m.1).1 ≡ (store_delivery F recipient o w).1 =
        ap (λ x. x.1) (sym ran) in
      record {
        copy_group = r.1;
        between = m.1;
        primary =
            subst (λ x. HasStored F none recipient o w m.1 (x, r.1)) (sym same)
              (store_row-HasStored F L none recipient o w r written);
        copy =
            subst (λ n. CopyStored F r.1 n o m.1 (store_delivery F recipient o w).1 a.group_copy)
              (ap (λ x. x.name) (sym same))
              (subst (λ v. CopyStored F r.1 r.0.name o m.1 v a.group_copy) left copied);
      }
