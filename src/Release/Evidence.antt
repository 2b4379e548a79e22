-- ===== src/Release/Evidence.antt =====
-- The acceptance's evidence, as `validate` of erpnext_whatsapp_connection/group_acceptance.py prints it
-- and `verify` of scripts/verify-native-group-evidence.py reads it.
use Prim.Native.Char.{code}
use Prim.Native.String.{[], ◌∷◌}
use erpnext_whatsapp_connect.Base as Base
use erpnext_whatsapp_connect.Base.{
  ℕ, String, Bool, true, false, not, ◌&&◌, ◌||◌, Option, none, some, List, ◌==◌, leb, str_eq,
  if◌then◌else◌, all,
}
use erpnext_whatsapp_connect.Py.Result.{Error, crash, Result, ok, check, or_error, ◌>>=◌, ◌>>◌}
use erpnext_whatsapp_connect.Py.Value.{
  Value, null, bool, int, str, list, dict, Fields, end, field, get, as_dict, is_true,
}
use erpnext_whatsapp_connect.Py.Equality.{value_eq}
use erpnext_whatsapp_connect.Py.Unicode.{within}
use erpnext_whatsapp_connect.Site.Frappe.{Frappe}

-- The characters that end a line for `str.splitlines`.
abbrev pub line_breaks : List (ℕ × ℕ)
line_breaks =
    Base.◌∷◌ (0xa, 0xd)
      (Base.◌∷◌ (0x1c, 0x1e) (Base.◌∷◌ (0x85, 0x85) (Base.◌∷◌ (0x2028, 0x2029) Base.[])))

abbrev pub starts_newline : String → Bool
starts_newline [] = false
starts_newline (c ∷ s) = code c == 0xa

abbrev pub add_first : String → List String → List String
add_first c Base.[] = Base.◌∷◌ c Base.[]
add_first [] (Base.◌∷◌ l ls) = Base.◌∷◌ l ls
add_first (c ∷ s) (Base.◌∷◌ l ls) = Base.◌∷◌ (c ∷ l) ls

-- `text.splitlines()`; a carriage return before a newline is one end with it.
unfoldable pub split_lines : String → List String
split_lines [] = Base.[]
split_lines (c ∷ s) =
    let rest = split_lines s in
    if code c == 0xd && starts_newline s
    then rest
    else if within (code c) line_breaks
    then Base.◌∷◌ "" rest
    else add_first (c ∷ []) rest

-- What is left of a text that begins with the given one.
abbrev pub strip_prefix : String → String → Option String
strip_prefix [] s = some s
strip_prefix (c ∷ p) [] = none
strip_prefix (c ∷ p) (d ∷ s) =
    let rest = strip_prefix p s in if code c == code d then rest else none

-- `line.split(marker, 1)[1]`, if `marker in line`.
unfoldable pub after_first : String → String → Option String
after_first marker [] = strip_prefix marker []
after_first marker (c ∷ s) = elim (strip_prefix marker (c ∷ s)) [
  | some rest ↦ some rest
  | none ↦ after_first marker s
]

abbrev pub marker : String
marker = "WHATSAPP_NATIVE_GROUP_ACCEPTANCE="

-- The marked lines, from behind the marker.
unfoldable pub tails : List String → List String
tails Base.[] = Base.[]
tails (Base.◌∷◌ l ls) = elim (after_first marker l) [
  | none ↦ tails ls
  | some t ↦ Base.◌∷◌ t (tails ls)
]

abbrev pub required : List String
required = Base.◌∷◌ "document_and_report_workers" (
    Base.◌∷◌ "private_pdf_and_separate_history" (
      Base.◌∷◌ "company_disabled_and_revocation" (
        Base.◌∷◌ "uncertain_copy_no_replay" (
          Base.◌∷◌ "enabled_mapping_repeated_migration" (
            Base.◌∷◌ "actual_settings_browser" (
              Base.◌∷◌ "copy_only_retry_without_primary_resend" (
                Base.◌∷◌ "native_source_revocation_before_transport" (
                  Base.◌∷◌ "forged_group_and_cross_company_requests_denied"
                    (Base.◌∷◌ "native_receivable_party_filter" Base.[])))))))))

-- `value is False`.
abbrev pub is_false : Value → Bool
is_false (bool b) = not b
is_false null = false
is_false (int _) = false
is_false (str _) = false
is_false (list _) = false
is_false (dict _) = false

unfoldable pub passes : String → Fields → Bool
passes version r =
    value_eq (get r "native_enabled_group_acceptance") (str "PASS")
    && (value_eq (get r "site") (str "integration.local")
        && (value_eq (get r "app_version") (str version)
            && (is_false (get r "external_messages") && all (λ k. is_true (get r k)) required)))

abbrev pub not_one : Error
not_one = crash "Exactly one enabled-group acceptance record is required"

abbrev pub mismatched : Error
mismatched = crash "Enabled-group acceptance evidence is missing, false or mismatched"

-- The one record.
abbrev pub one_row : List Value → Option Value
one_row Base.[] = none
one_row (Base.◌∷◌ v Base.[]) = some v
one_row (Base.◌∷◌ v (Base.◌∷◌ w vs)) = none

abbrev pub no_get : Error
no_get = crash "object has no attribute 'get'"

module _ (F : Frappe) where
  -- `[json.loads(...) for ...]`.
  unfoldable pub load_all : List String → Result (List Value)
  load_all Base.[] = ok Base.[]
  load_all (Base.◌∷◌ t ts) = F.parse_json t >>= λ v. load_all ts >>= λ vs. ok (Base.◌∷◌ v vs)

  unfoldable pub verify : String → String → Result Fields
  unfolding load_all passes tails
  verify text version = load_all (tails (split_lines text)) >>= λ rows.
      or_error not_one (one_row rows) >>= λ row.
      or_error no_get (as_dict row) >>= λ r. check (passes version r) mismatched >> ok r

-- The dict `evidence` of `validate`.
abbrev pub evidence : String → Fields
evidence version = field "native_enabled_group_acceptance" (str "PASS") (
    field "site" (str "integration.local") (
      field "app_version" (str version) (
        field "document_and_report_workers" (bool true) (
          field "private_pdf_and_separate_history" (bool true) (
            field "company_disabled_and_revocation" (bool true) (
              field "copy_only_retry_without_primary_resend" (bool true) (
                field "native_source_revocation_before_transport" (bool true) (
                  field "forged_group_and_cross_company_requests_denied" (bool true) (
                    field "native_receivable_party_filter" (bool true) (
                      field "uncertain_copy_no_replay" (bool true) (
                        field "enabled_mapping_repeated_migration" (bool true) (
                          field "actual_settings_browser" (bool true)
                            (field "external_messages" (bool false) end)))))))))))))
