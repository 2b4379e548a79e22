-- ===== src/Sending/Limit.antt =====
-- How often a queued delivery is sent: `queue_document` and `queue_report` of
-- erpnext_whatsapp_connection/api.py with the runs of erpnext_whatsapp_connection/outbound.py.
use erpnext_whatsapp_connect.Base.{
  ℕ, suc, ◌≤◌, String, ℤ, pos, negsuc, ◌+ℤ◌, ◌+◌, ◌≤ℤ◌, max_ℤ, some, none, ◌≡◌, refl, ap, ◌∙◌,
  arith, subst,
}
use erpnext_whatsapp_connect.Py.Result.{ok}
use erpnext_whatsapp_connect.Site.Records.{Settings}
use erpnext_whatsapp_connect.Site.Frappe.{Frappe, IsLawful}
use erpnext_whatsapp_connect.Site.World.{World}
use erpnext_whatsapp_connect.Outbound.Worker.{attempt_limit}
use erpnext_whatsapp_connect.Settings.Sound.{IsSound}
use erpnext_whatsapp_connect.Outbound.Limit.{Steps, sends, Steps_limit}
use erpnext_whatsapp_connect.Sending.Store.{Answer, Order, retries_of, new_row}
use erpnext_whatsapp_connect.Sending.Stored.{row_at}
use erpnext_whatsapp_connect.Sending.Fresh.{row_at-IsWellFormed}
use erpnext_whatsapp_connect.Sending.Queue.{DocumentRequest}
use erpnext_whatsapp_connect.Sending.Calls.{queue_document}
use erpnext_whatsapp_connect.Sending.Delivered.{HasDelivered}
use erpnext_whatsapp_connect.Sending.Copies.{HasDelivered-primary}
use erpnext_whatsapp_connect.Sending.Queued.{queue_document-HasQueuedDocument}

not_negative : (n : ℤ) → pos 0 ≤ℤ n → (m : ℕ) × (n ≡ pos m)
not_negative (pos m) h = (m, refl)
not_negative (negsuc m) h = let no : ⊥ = omega arith in absurd no

few : (m : ℕ) → pos m ≤ℤ pos 5 → m ≤ 5
few m h = omega arith

up_to : (k m : ℕ) → pos k ≤ℤ max_ℤ (pos 1) (pos m +ℤ pos 1) → k ≤ suc m
unfolding max_ℤ ◌+ℤ◌
up_to k m h = ground arith

zero_sent : (k : ℕ) (l : ℤ) → pos (0 + k) ≤ℤ l → pos k ≤ℤ l
zero_sent k l h = omega arith

-- Settings that were saved allow up to five retries.
sound_retries :
    (k : ℕ) (s : Settings)
    → IsSound s
    → pos k ≤ℤ max_ℤ (pos 1) (retries_of s +ℤ pos 1)
    → (m : ℕ) × (s.maximum_retries ≡ some (pos m)) × (m ≤ 5) × (k ≤ suc m)
sound_retries k s good h =
    let (n, found, low, high) = good.retries in
    let (m, natural) = not_negative n low in
    let same : s.maximum_retries ≡ some (pos m) = found ∙ ap some natural in
    (m, same, few m (subst (λ x. x ≤ℤ pos 5) natural high), up_to k m (rw same at h))

max_zero : (a : ℤ) → max_ℤ (pos 0) (max_ℤ (pos 1) a) ≡ max_ℤ (pos 1) a
unfolding max_ℤ
max_zero a = ground arith

module _ (F : Frappe) (L : IsLawful F) where
  HasDelivered_limit :
      (recipient : String) (o : Order) (w w' v : World F) (a : Answer)
      → HasDelivered F recipient o w w' a
      → (s : Steps F a.stored.name w' v)
      → pos (sends F a.stored.name s) ≤ℤ max_ℤ (pos 1) (retries_of w.settings +ℤ pos 1)
  unfolding new_row attempt_limit
  HasDelivered_limit recipient o w w' v a h s =
      let (found, _, _) = HasDelivered-primary F recipient o w w' a h in
      let p = h.primary in
      let d = row_at F none recipient o w p.now p.hash p.file in
      let good = row_at-IsWellFormed F none recipient o w p.now p.hash p.file p.accepted in
      subst (λ l. pos (sends F a.stored.name s) ≤ℤ l) (max_zero (retries_of w.settings +ℤ pos 1))
        (zero_sent (sends F a.stored.name s) _ (Steps_limit F L a.stored.name s d 0 found good))

  -- On a site whose settings were saved with their checks, the row that a call of `queue_document`
  -- stores for the customer is sent at most once more than the settings of that moment have retries,
  -- which is at most six times, however workers, the job of each minute and whatever else leaves the
  -- row's budget alone follow each other.
  pub queue_document_limit :
      (r : DocumentRequest) (w v : World F) (a : Answer)
      → IsSound w.settings
      → (queue_document F r w).0 ≡ ok a
      → (s : Steps F a.stored.name (queue_document F r w).1 v)
      → (m : ℕ) × (w.settings.maximum_retries ≡ some (pos m))
        × (m ≤ 5)
        × (sends F a.stored.name s ≤ suc m)
  queue_document_limit r w v a good h s =
      let q = queue_document-HasQueuedDocument F L r w a h in
      sound_retries (sends F a.stored.name s) w.settings good
        (HasDelivered_limit _ _ _ _ v a q.delivered s)
