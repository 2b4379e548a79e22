-- ===== src/Number.antt =====
-- Telephone numbers: `_normalize_number` of erpnext_whatsapp_connection/api.py.
pub mod Normal
use Prim.Native.Char.{code}
use Prim.Native.String.{[], ◌∷◌}
use erpnext_whatsapp_connect.Base.{
  ℕ, String, Bool, true, false, ◌&&◌, ◌||◌, leb, ◌==◌, if◌then◌else◌, ◌≡◌, refl,
}
use erpnext_whatsapp_connect.Py.Result.{Error, validation, Result, ok, err}
use erpnext_whatsapp_connect.Py.Unicode.{is_space, is_decimal, within, phone_marks}
use erpnext_whatsapp_connect.Py.Text.{length, drop, strip, concat}

-- The pattern `[\s()+.\-]`.
abbrev pub is_separator : ℕ → Bool
is_separator c = is_space c || within c phone_marks

-- `re.sub(r"[\s()+.\-]", "", text)`.
unfoldable pub remove_separators : String → String
remove_separators [] = []
remove_separators (c ∷ s) =
    let rest = remove_separators s in if is_separator (code c) then rest else c ∷ rest

-- `digits.startswith("00")`.
abbrev pub starts_double_zero : String → Bool
starts_double_zero [] = false
starts_double_zero (a ∷ []) = false
starts_double_zero (a ∷ (b ∷ s)) = code a == b'0' && code b == b'0'

unfoldable pub all_decimal : String → Bool
all_decimal [] = true
all_decimal (c ∷ s) = is_decimal (code c) && all_decimal s

-- `re.fullmatch(r"[1-9]\d{7,14}", digits)`.
unfoldable pub is_full_number : String → Bool
unfolding all_decimal
is_full_number [] = false
is_full_number (c ∷ s) =
    leb b'1' (code c) && leb (code c) b'9' && leb 7 (length s) && leb (length s) 14 && all_decimal s

abbrev pub bad_number : Error
bad_number = validation "Enter a valid international WhatsApp number including the country code."

abbrev pub without_prefix : String → String
without_prefix digits = if starts_double_zero digits then drop 2 digits else digits

unfoldable pub normalize_number : String → Result String
unfolding remove_separators is_full_number strip
normalize_number value =
    let digits = without_prefix (remove_separators (strip value)) in
    if is_full_number digits then ok (concat "+" digits) else err bad_number

normal_tests :
    (normalize_number " 00 (1) 202-555.0123 " ≡ ok "+12025550123")
    × (normalize_number "0120255501" ≡ err bad_number)
unfolding normalize_number is_decimal is_space
normal_tests = (refl, refl)
