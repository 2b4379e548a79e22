-- ===== src/History/Immutable.antt =====
-- What the controller guarantees of a row that was saved
-- (doctype/erpnext_whatsapp_delivery_history/erpnext_whatsapp_delivery_history.py).
use erpnext_whatsapp_connect.Base.{Bool, true, false, not, ◌&&◌, some, ◌≡◌, arith, All, inl, inr}
use erpnext_whatsapp_connect.Py.Result.{ok, Result-cases, err-ne-ok}
use erpnext_whatsapp_connect.Site.Records.{Delivery}
use erpnext_whatsapp_connect.Site.Frappe.{Frappe}
use erpnext_whatsapp_connect.Site.World.{World}
use erpnext_whatsapp_connect.History.{
  differs, immutable_fields, touches_copy, check_immutable, validate, save,
}
use erpnext_whatsapp_connect.History.Saves.{differs_sound}

differs-false : (b c : Bool) → b ≡ true → not (b && c) ≡ true → c ≡ false
differs-false b c h k = ground arith

validate-immutable :
    (before d : Delivery)
    → touches_copy before d ≡ true
    → validate (some before) d ≡ ok tt
    → not (touches_copy before d && differs immutable_fields d before) ≡ true
unfolding validate check_immutable
validate-immutable before d touches h = ground arith

save-validate :
    (F : Frappe) (d : Delivery) (w : World F)
    → (save F d w).0 ≡ ok tt
    → validate (F.find w.table d.name) d ≡ ok tt
unfolding save
save-validate F d w h = elim (Result-cases (validate (F.find w.table d.name) d)) [
  | inl (tt', e) ↦ e
  | inr (x, e) ↦ absurd (err-ne-ok x tt (rw (e, save) at h))
]

-- A group copy is fixed once it is stored: a save that succeeds, of a row that is or becomes a group
-- copy, leaves each of its identifying fields as it was.
pub save-immutable :
    (F : Frappe) (d before : Delivery) (w : World F)
    → F.find w.table d.name ≡ some before
    → touches_copy before d ≡ true
    → (save F d w).0 ≡ ok tt
    → All (λ f. f d ≡ f before) immutable_fields
save-immutable F d before w found touches h = differs_sound immutable_fields d before (
    differs-false (touches_copy before d) (differs immutable_fields d before) touches
      (validate-immutable before d touches (rw found at (save-validate F d w h))))
