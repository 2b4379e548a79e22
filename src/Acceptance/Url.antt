-- ===== src/Acceptance/Url.antt =====
-- The path of a URL, as Python's `urlsplit` finds it, and the part of it that may be shown:
-- `diagnostic_path` of erpnext_whatsapp_connection/group_browser_acceptance.py.
use Prim.Native.Char.{code}
use Prim.Native.String.{[], ◌∷◌}
use erpnext_whatsapp_connect.Base.{
  ℕ, String, Bool, true, false, not, ◌&&◌, ◌||◌, Option, none, some, ◌==◌, leb, is_some,
  if◌then◌else◌,
}
use erpnext_whatsapp_connect.Py.Result.{crash, Result, ok, check, ◌>>=◌, ◌>>◌}
use erpnext_whatsapp_connect.Py.Text.{is_empty}
use erpnext_whatsapp_connect.Release.Evidence.{strip_prefix}

abbrev pub between : ℕ → ℕ → ℕ → Bool
between lo hi c = leb lo c && leb c hi

abbrev pub is_letter : ℕ → Bool
is_letter c = between b'a' b'z' c || between b'A' b'Z' c

abbrev pub is_ascii_alnum : ℕ → Bool
is_ascii_alnum c = is_letter c || between b'0' b'9' c

-- `url.lstrip(...)` of control characters and spaces.
unfoldable pub strip_controls : String → String
strip_controls [] = []
strip_controls (c ∷ s) = let rest = strip_controls s in if leb (code c) 0x20 then rest else c ∷ s

-- Tabs and line ends are left out wherever they stand.
abbrev pub is_unsafe : ℕ → Bool
is_unsafe c = c == 0x9 || (c == 0xa || c == 0xd)

unfoldable pub drop_unsafe : String → String
drop_unsafe [] = []
drop_unsafe (c ∷ s) = let rest = drop_unsafe s in if is_unsafe (code c) then rest else c ∷ rest

abbrev pub is_scheme : ℕ → Bool
is_scheme c = is_ascii_alnum c || (c == b'+' || (c == b'-' || c == b'.'))

-- What follows the colon, if only characters of a scheme stand before it.
unfoldable pub behind_colon : String → Option String
behind_colon [] = none
behind_colon (c ∷ s) =
    let rest = behind_colon s in
    if code c == b':' then some s else if is_scheme (code c) then rest else none

abbrev pub or_text : String → Option String → String
or_text s none = s
or_text s (some t) = t

abbrev pub starts_letter : String → Bool
starts_letter [] = false
starts_letter (c ∷ s) = is_letter (code c)

abbrev pub without_scheme : String → String
without_scheme s = if starts_letter s then or_text s (behind_colon s) else s

-- The ends of the network location, and of the path.
abbrev pub ends_host : ℕ → Bool
ends_host c = c == b'/' || (c == b'?' || c == b'#')

abbrev pub ends_path : ℕ → Bool
ends_path c = c == b'?' || c == b'#'

module _ (stops : ℕ → Bool) where
  -- The text before the first character that stops, and from it on.
  unfoldable pub before : String → String
  before [] = []
  before (c ∷ s) = let rest = before s in if stops (code c) then [] else c ∷ rest

  unfoldable pub from : String → String
  from [] = []
  from (c ∷ s) = let rest = from s in if stops (code c) then c ∷ s else rest

-- `urlsplit(url).path`; `netloc_ok` stands for the checks of brackets and of Unicode forms.
abbrev pub path_behind : (String → Bool) → String → Option String → Result String
path_behind netloc_ok s none = ok (before ends_path s)
path_behind netloc_ok s (some rest) =
    check (netloc_ok (before ends_host rest)) (crash "Invalid URL")
    >> ok (before ends_path (from ends_host rest))

unfoldable pub url_path : (String → Bool) → String → Result String
unfolding strip_controls drop_unsafe behind_colon before from
url_path netloc_ok url =
    let s = without_scheme (drop_unsafe (strip_controls url)) in
    path_behind netloc_ok s (strip_prefix "//" s)

abbrev pub starts : String → String → Bool
starts prefix s = is_some (strip_prefix prefix s)

abbrev pub is_asset : String → Bool
is_asset path =
    starts "/assets/frappe/" path
    || (starts "/assets/erpnext/" path || starts "/assets/erpnext_whatsapp_connection/" path)

-- `all(c.isascii() and (c.isalnum() or c in '._') for c in method)`.
abbrev pub all_plain : String → Bool
all_plain [] = true
all_plain (c ∷ s) = (is_ascii_alnum (code c) || (code c == b'.' || code c == b'_')) && all_plain s

-- The rest of a path below /api/method/ is the name of a method.
abbrev pub is_method : Option String → Bool
is_method none = false
is_method (some method) = not (is_empty method) && all_plain method

abbrev pub redacted : String
redacted = "[redacted]"

abbrev pub is_static : String → Bool
is_static path = is_asset path || is_method (strip_prefix "/api/method/" path)

unfoldable pub diagnostic_path : (String → Bool) → String → Result String
unfolding url_path
diagnostic_path netloc_ok url =
    url_path netloc_ok url >>= λ path. ok (if is_static path then path else redacted)
