-- ===== src/Settings/Bounds.antt =====
-- The limits on the settings and on the throttle that is sent
-- (doctype/erpnext_whatsapp_settings/erpnext_whatsapp_settings.py and transports.py).
use erpnext_whatsapp_connect.Base.{
  ℕ, Option, some, ℤ, pos, negsuc, max_ℤ, min_ℤ, ◌≤ℤ◌, ◌≤◌, ◌*◌, ◌≡◌, arith, ltb, pos_part,
  if◌then◌else◌,
}
use erpnext_whatsapp_connect.Settings.{clamp_throttle, clamp_retries, throttle_or_ten}
use erpnext_whatsapp_connect.Transport.{throttle_ms}

-- The clamp on numbers.
clamp : ℕ → ℕ
clamp k = if ltb 300 k then 300 else if ltb 10 k then k else 10

clamp_bounds : (k : ℕ) → (10 ≤ clamp k) × (clamp k ≤ 300)
unfolding clamp
clamp_bounds k = ground arith

clamp-pos_part : (m : ℤ) → max_ℤ (pos 10) (min_ℤ (pos 300) m) ≡ pos (clamp (pos_part m))
unfolding clamp max_ℤ min_ℤ
clamp-pos_part (pos k) = ground arith
clamp-pos_part (negsuc k) = ground arith

throttle_ms-pos : (s : ℕ) → 10 ≤ s → s ≤ 300 → throttle_ms (some (pos s)) ≡ pos (1000 * s)
unfolding throttle_ms max_ℤ min_ℤ
throttle_ms-pos s h k = ground arith

-- After validation the throttle lies between 10 and 300 seconds, and the milliseconds that a request
-- carries are 1000 times that number, so between 10000 and 300000.
pub throttle_ms-clamp_throttle :
    (n : Option ℤ)
    → (s : ℕ) × (clamp_throttle n ≡ pos s)
      × (10 ≤ s)
      × (s ≤ 300)
      × (throttle_ms (some (clamp_throttle n)) ≡ pos (1000 * s))
unfolding clamp_throttle
throttle_ms-clamp_throttle n =
    let (low, high) = clamp_bounds (pos_part (throttle_or_ten n)) in
    let e = clamp-pos_part (throttle_or_ten n) in
    (
      clamp (pos_part (throttle_or_ten n)),
      e,
      low,
      high,
      rw e (throttle_ms-pos (clamp (pos_part (throttle_or_ten n))) low high),
    )

-- After validation the number of automatic retries lies between 0 and 5.
pub clamp_retries_bounds : (n : Option ℤ) → (pos 0 ≤ℤ clamp_retries n) × (clamp_retries n ≤ℤ pos 5)
unfolding clamp_retries max_ℤ min_ℤ
clamp_retries_bounds n = ground arith
