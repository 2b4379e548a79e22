-- ===== src/Groups/Identity.antt =====
-- The identity of a group: `group_id` of erpnext_whatsapp_connection/company_groups.py.
use Prim.Native.Char.{code}
use Prim.Native.String.{[], ◌∷◌}
use erpnext_whatsapp_connect.Base.{
  ℕ, suc, String, Bool, true, false, ◌&&◌, ◌||◌, leb, ◌==◌, str_eq, if◌then◌else◌, ◌≡◌, refl,
}
use erpnext_whatsapp_connect.Py.Result.{validation, Result, ok, err}
use erpnext_whatsapp_connect.Py.Text.{drop}

abbrev pub is_ascii_digit : ℕ → Bool
is_ascii_digit c = leb b'0' c && leb c b'9'

-- How many digits a text begins with.
unfoldable pub count_digits : String → ℕ
count_digits [] = 0
count_digits (c ∷ s) = let rest = count_digits s in if is_ascii_digit (code c) then suc rest else 0

abbrev pub five_to_24 : ℕ → Bool
five_to_24 n = leb 5 n && leb n 24

-- `-[0-9]{5,24}@g\.us`.
abbrev pub is_dashed_tail : String → Bool
is_dashed_tail [] = false
is_dashed_tail (c ∷ s) =
    code c == b'-' && five_to_24 (count_digits s) && str_eq (drop (count_digits s) s) "@g.us"

-- `re.fullmatch(r'[0-9]{5,24}(?:-[0-9]{5,24})?@g\.us', value)`: what follows a run of digits is no
-- digit, so a run is matched whole.
unfoldable pub is_group_id : String → Bool
unfolding count_digits
is_group_id s =
    let rest = drop (count_digits s) s in
    five_to_24 (count_digits s) && (str_eq rest "@g.us" || is_dashed_tail rest)

unfoldable pub group_id : String → Result String
unfolding is_group_id
group_id value =
    if is_group_id value then ok value else err (validation "Select a valid joined WhatsApp group.")

is_group_id_tests :
    (is_group_id "120000000000000000@g.us" ≡ true)
    × (is_group_id "12025550123-1600000000@g.us" ≡ true)
    × (is_group_id "1234@g.us" ≡ false)
    × (is_group_id "+12025550123" ≡ false)
unfolding is_group_id
is_group_id_tests = (refl, refl, refl, refl)
