-- ===== src/Number/Normal.antt =====
-- What `_normalize_number` accepts and returns (erpnext_whatsapp_connection/api.py).
use Prim.Native.Char.{code}
use Prim.Native.String.{[], ◌∷◌}
use text.Mathlib.TextEquality.{Char-path}
use erpnext_whatsapp_connect.Base.{
  String, true, if◌then◌else◌, ◌≡◌, refl, arith, ◌≤◌, ◌∙◌, inl, inr, ap, ◌⊎◌, ◌↔◌,
}
use erpnext_whatsapp_connect.Py.Result.{Result, ok, err}
use erpnext_whatsapp_connect.Py.Unicode.{is_space, is_decimal-not-mark, is_decimal-ascii}
use erpnext_whatsapp_connect.Py.Text.{length, strip, lstrip, rstrip, concat, is_empty}
use erpnext_whatsapp_connect.Number.{
  remove_separators, all_decimal, is_full_number, normalize_number, without_prefix, bad_number,
}

remove-lstrip : (s : String) → remove_separators (lstrip s) ≡ remove_separators s
unfolding remove_separators lstrip
remove-lstrip [] = refl
remove-lstrip (c ∷ s) = ground (arith, remove-lstrip s)

is_empty-remove : (s : String) → is_empty s ≡ true → remove_separators s ≡ []
unfolding remove_separators
is_empty-remove [] h = refl
is_empty-remove (c ∷ s) h = ground arith

remove-rstrip : (s : String) → remove_separators (rstrip s) ≡ remove_separators s
unfolding remove_separators rstrip
remove-rstrip [] = refl
remove-rstrip (c ∷ s) = ground (arith, remove-rstrip s, is_empty-remove (rstrip s))

remove-strip : (s : String) → remove_separators (strip s) ≡ remove_separators s
unfolding strip
remove-strip s = remove-rstrip (lstrip s) ∙ remove-lstrip s

remove-decimal : (d : String) → all_decimal d ≡ true → remove_separators d ≡ d
unfolding remove_separators all_decimal
remove-decimal [] h = refl
remove-decimal (c ∷ d) h = ground (arith, remove-decimal d, is_decimal-not-mark (code c))

-- A number in international form, without the plus sign.
abbrev pub IsNumber : String → Type 0
IsNumber [] = ⊥
IsNumber (c ∷ s) =
    (b'1' ≤ code c) × (code c ≤ b'9') × (7 ≤ length s) × (length s ≤ 14) × (all_decimal s ≡ true)

is_full_number_sound : (d : String) → is_full_number d ≡ true → IsNumber d
unfolding is_full_number
is_full_number_sound [] h = cc
is_full_number_sound (c ∷ s) h = ground arith

is_full_number_complete : (d : String) → IsNumber d → is_full_number d ≡ true
unfolding is_full_number
is_full_number_complete [] h = absurd h
is_full_number_complete (c ∷ s) h = ground arith

IsNumber-all_decimal : (d : String) → IsNumber d → all_decimal d ≡ true
unfolding all_decimal
IsNumber-all_decimal [] h = refl
IsNumber-all_decimal (c ∷ s) h = ground (arith, is_decimal-ascii (code c))

IsNumber-no_prefix : (d : String) → IsNumber d → without_prefix d ≡ d
IsNumber-no_prefix [] h = refl
IsNumber-no_prefix (c ∷ []) h = refl
IsNumber-no_prefix (c ∷ (b ∷ d)) h = ground arith

-- A text either loses the two zeros that it begins with or stays.
without_prefix_cases : (s : String) → (s ≡ without_prefix s) ⊎ (s ≡ concat "00" (without_prefix s))
without_prefix_cases [] = inl refl
without_prefix_cases (a ∷ []) = inl refl
without_prefix_cases (a ∷ (b ∷ s)) = ground (arith, Char-path a "0", Char-path b "0")

remove-plus : (d : String) → IsNumber d → remove_separators (concat "+" d) ≡ d
unfolding remove_separators is_space
remove-plus d h = remove-decimal d (IsNumber-all_decimal d h)

-- The verdict on a text that has no separators left.
abbrev verdict : String → Result String
verdict s =
    if is_full_number (without_prefix s) then ok (concat "+" (without_prefix s)) else err bad_number

normalize_number-verdict : (v : String) → normalize_number v ≡ verdict (remove_separators v)
unfolding normalize_number
normalize_number-verdict v = rw (remove-strip v)

verdict_sound :
    (s d : String) → verdict s ≡ ok (concat "+" d) → IsNumber d × ((s ≡ d) ⊎ (s ≡ concat "00" d))
verdict_sound s d h =
    let full : is_full_number (without_prefix s) ≡ true = ground arith in
    let same : without_prefix s ≡ d = ground arith in
    (rw same at (is_full_number_sound (without_prefix s) full), rw same at (without_prefix_cases s))

verdict_complete :
    (s d : String) → IsNumber d → (s ≡ d) ⊎ (s ≡ concat "00" d) → verdict s ≡ ok (concat "+" d)
verdict_complete s d h (inl e) = ground (arith, IsNumber-no_prefix d, is_full_number_complete d)
verdict_complete s d h (inr e) = rw e (ground (arith, is_full_number_complete d))

-- `_normalize_number` returns `+d` exactly when the text without its separators is the international
-- number `d`, or `d` after the prefix 00: eight to fifteen decimal digits, the first from 1 to 9.
pub normalize_number_iff :
    (v d : String)
    → (normalize_number v ≡ ok (concat "+" d))
      ↔ (IsNumber d × ((remove_separators v ≡ d) ⊎ (remove_separators v ≡ concat "00" d)))
unfolding normalize_number
normalize_number_iff v d =
    rw (normalize_number-verdict v)
      (verdict_sound (remove_separators v) d, λ h. verdict_complete (remove_separators v) d h.0 h.1)

normalize_number_plus :
    (v n : String) → normalize_number v ≡ ok n → (d : String) × (n ≡ concat "+" d)
unfolding normalize_number
normalize_number_plus v n h = (without_prefix (remove_separators (strip v)), ground arith)

-- A normalized number is normal: normalizing it again returns it unchanged.
pub normalize_number_idem : (v n : String) → normalize_number v ≡ ok n → normalize_number n ≡ ok n
normalize_number_idem v n h =
    let (d, e) = normalize_number_plus v n h in
    let (valid, _) = (normalize_number_iff v d).0 (h ∙ ap ok e) in
    rw e ((normalize_number_iff (concat "+" d) d).1 (valid, inl (remove-plus d valid)))
