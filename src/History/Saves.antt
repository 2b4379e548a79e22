-- ===== src/History/Saves.antt =====
-- When a delivery can be saved, and what the controller keeps fixed
-- (doctype/erpnext_whatsapp_delivery_history/erpnext_whatsapp_delivery_history.py).
use text.Mathlib.TextPositions.{eq_refl}
use erpnext_whatsapp_connect.Base.{
  String, Bool, true, false, not, ◌&&◌, Option, none, some, List, [], ◌∷◌, ◌≡◌, refl, ap, arith,
  All, eq_iff,
}
use erpnext_whatsapp_connect.Py.Result.{ok}
use erpnext_whatsapp_connect.Site.Records.{Delivery}
use erpnext_whatsapp_connect.Site.Frappe.{Frappe}
use erpnext_whatsapp_connect.Site.World.{World}
use erpnext_whatsapp_connect.History.{
  differs, optional_eq, immutable_fields, touches_copy, check_immutable, validate, save,
  has_message_id, has_document, has_report,
}

pub optional_eq_refl : (a : Option String) → optional_eq a a ≡ true
optional_eq_refl none = refl
optional_eq_refl (some s) = eq_refl s

pub optional_eq_sound : (a b : Option String) → optional_eq a b ≡ true → a ≡ b
optional_eq_sound none none h = refl
optional_eq_sound none (some b) h = cc
optional_eq_sound (some a) none h = cc
optional_eq_sound (some a) (some b) h = ap some ((eq_iff a b).0 h)

-- Two rows differ in none of the fields exactly if they agree in each.
pub differs_complete :
    (fs : List (Delivery → Option String)) (a b : Delivery)
    → All (λ f. f a ≡ f b) fs
    → differs fs a b ≡ false
unfolding differs
differs_complete [] a b h = refl
differs_complete (f ∷ fs) a b (e, h) = rw (e, optional_eq_refl (f b)) (differs_complete fs a b h)

pub differs_sound :
    (fs : List (Delivery → Option String)) (a b : Delivery)
    → differs fs a b ≡ false
    → All (λ f. f a ≡ f b) fs
unfolding differs
differs_sound [] a b h = tt
differs_sound (f ∷ fs) a b h =
    (optional_eq_sound (f a) (f b) (ground arith), differs_sound fs a b (ground arith))

and-false : (b c : Bool) → c ≡ false → not (b && c) ≡ true
and-false b c h = ground arith

check_immutable-same :
    (before d : Delivery)
    → All (λ f. f d ≡ f before) immutable_fields
    → check_immutable (some before) d ≡ ok tt
unfolding check_immutable
check_immutable-same before d same =
    rw (and-false (touches_copy before d) _ (differs_complete immutable_fields d before same))

validate-same :
    (before d : Delivery)
    → All (λ f. f d ≡ f before) immutable_fields
    → has_message_id d ≡ true
    → has_document d ≡ true
    → has_report d ≡ true
    → validate (some before) d ≡ ok tt
unfolding validate
validate-same before d same ids doc rep =
    rw (check_immutable-same before d same) (rw ids (rw doc (rw rep)))

module _ (F : Frappe) where
  -- A row that is like the stored one in all immutable fields, and complete, is stored.
  pub save_lem :
      (d before : Delivery) (w : World F)
      → F.find w.table d.name ≡ some before
      → All (λ f. f d ≡ f before) immutable_fields
      → has_message_id d ≡ true
      → has_document d ≡ true
      → has_report d ≡ true
      → save F d w ≡ (ok tt, record w { table = F.put w.table d })
  unfolding save
  save_lem d before w found same ids doc rep =
      rw (found, save) (rw (validate-same before d same ids doc rep, save))
