-- ===== src/Release/Manifest.antt =====
-- The release manifest: `main` of scripts/build-release-manifest.py.
use Prim.Native.Char.{code}
use Prim.Native.Nat.{Ordering}
use Prim.Native.String as Text
use Prim.Native.String.{[], ◌∷◌}
use erpnext_whatsapp_connect.Base as Base
use erpnext_whatsapp_connect.Base.{
  ℕ, zero, suc, String, Bool, true, false, not, ◌&&◌, ◌||◌, Option, none, some, List, pos, ◌==◌,
  leb, str_eq, if◌then◌else◌,
}
use erpnext_whatsapp_connect.Py.Result.{Error, crash, Result, ok, err, check, or_error, ◌>>=◌, ◌>>◌}
use erpnext_whatsapp_connect.Py.Value.{Value, int, str, dict, Fields, field, end, set}
use erpnext_whatsapp_connect.Py.Text.{concat}
use erpnext_whatsapp_connect.Py.Unicode.{is_decimal}
use erpnext_whatsapp_connect.Release.Evidence.{strip_prefix}

-- `[a-z0-9_.-]` and `[0-9a-f]`.
abbrev pub is_name_char : ℕ → Bool
is_name_char c =
    leb b'a' c && leb c b'z'
    || (leb b'0' c && leb c b'9' || (c == b'_' || (c == b'.' || c == b'-')))

abbrev pub is_hex_char : ℕ → Bool
is_hex_char c = leb b'0' c && leb c b'9' || leb b'a' c && leb c b'f'

-- One or more characters of a class that the rest does not begin with, then the rest: `[...]+`.
module _ (in_class : ℕ → Bool) where
  unfoldable pub skip_all : String → String
  skip_all [] = []
  skip_all (c ∷ s) = let rest = skip_all s in if in_class (code c) then rest else c ∷ s

  abbrev pub skip_some : String → Option String
  skip_some [] = none
  skip_some (c ∷ s) = if in_class (code c) then some (skip_all s) else none

  -- `[...]{n}` at the end.
  abbrev pub exactly : ℕ → String → Bool
  exactly zero [] = true
  exactly zero (c ∷ s) = false
  exactly (suc n) [] = false
  exactly (suc n) (c ∷ s) = in_class (code c) && exactly n s

abbrev pub then_prefix : String → Option String → Option String
then_prefix p none = none
then_prefix p (some s) = strip_prefix p s

abbrev pub then_some : (ℕ → Bool) → Option String → Option String
then_some in_class none = none
then_some in_class (some s) = skip_some in_class s

abbrev pub at_end : Option String → Bool
at_end none = false
at_end (some []) = true
at_end (some (c ∷ s)) = false

-- `re.fullmatch(r"v\d+\.\d+\.\d+", tag)`.
unfoldable pub is_tag : String → Bool
unfolding skip_all is_decimal
is_tag tag = at_end (
    then_some is_decimal (
      then_prefix "."
        (then_some is_decimal (then_prefix "." (then_some is_decimal (strip_prefix "v" tag))))))

abbrev pub is_commit : String → Bool
is_commit commit = exactly is_hex_char 40 commit

abbrev pub is_digest : Option String → Bool
is_digest none = false
is_digest (some s) = exactly is_hex_char 64 s

-- The pattern of an image that is pinned by its digest.
unfoldable pub is_pinned : String → Bool
unfolding skip_all
is_pinned image = is_digest (
    then_prefix "@sha256:" (
      then_some is_name_char
        (then_prefix "/" (then_some is_name_char (strip_prefix "ghcr.io/" image)))))

-- `sorted(filenames)`, by code points.
abbrev pub is_after : String → String → Bool
is_after a b = elim (Text.compare a b) [ Ordering.gt ↦ true | _ ↦ false ]

unfoldable pub put_sorted : String → List String → List String
put_sorted f Base.[] = Base.◌∷◌ f Base.[]
put_sorted f (Base.◌∷◌ g gs) =
    let rest = put_sorted f gs in
    if is_after f g then Base.◌∷◌ g rest else Base.◌∷◌ f (Base.◌∷◌ g gs)

unfoldable pub sorted_names : List String → List String
unfolding put_sorted
sorted_names Base.[] = Base.[]
sorted_names (Base.◌∷◌ f fs) = put_sorted f (sorted_names fs)

-- `Path(filename).name`: the last part that is neither empty nor a dot. `seen` is the part that is
-- being read, and `last` the part before it.
abbrev pub keep_part : String → String → String
keep_part seen last = if str_eq seen "" || str_eq seen "." then last else seen

unfoldable pub last_part : String → String → String → String
last_part seen last [] = keep_part seen last
last_part seen last (c ∷ s) =
    let is_end = code c == b'/' in
    last_part (if is_end then "" else concat seen (c ∷ []))
      (if is_end then keep_part seen last else last) s

abbrev pub name_of : String → String
name_of filename = last_part "" "" filename

-- The files that are there, with their bytes.
abbrev pub Disk : Type 0
Disk = String → Option (List ℕ)

abbrev pub usage : Error
usage = crash "usage: build-release-manifest.py <tag> <commit> <gateway-image@digest> <asset>..."

-- The three arguments and the files.
pub record Arguments : Type 0 where
  pub tag : String
  pub commit : String
  pub image : String
  pub files : List String

abbrev pub arguments_of : List String → Result Arguments
arguments_of
      (Base.◌∷◌ program (Base.◌∷◌ tag (Base.◌∷◌ commit (Base.◌∷◌ image (Base.◌∷◌ file files))))) =
    ok (record { tag = tag; commit = commit; image = image; files = Base.◌∷◌ file files })
arguments_of _ = err usage

-- `tag.removeprefix("v")`.
abbrev pub or_tag : Option String → String → String
or_tag none tag = tag
or_tag (some rest) tag = rest

abbrev pub missing : String → Error
missing filename = crash (concat "missing release asset: " filename)

abbrev pub manifest_of : Arguments → Fields → Fields
manifest_of a assets = field "schema_version" (int (pos 1)) (
    field "release" (str (or_tag (strip_prefix "v" a.tag) a.tag)) (
      field "source_commit" (str a.commit)
        (field "gateway_image" (str a.image) (field "assets" (dict assets) end))))

module _ (sha256 : List ℕ → String) (disk : Disk) where
  abbrev pub asset_of : List ℕ → Value
  asset_of content =
      dict
        (field "sha256" (str (sha256 content)) (field "size" (int (pos (Base.length content))) end))

  -- The loop over the files.
  unfoldable pub add_assets : Fields → List String → Result Fields
  add_assets assets Base.[] = ok assets
  add_assets assets (Base.◌∷◌ f fs) = or_error (missing f) (disk f) >>= λ content.
      add_assets (set assets (name_of f) (asset_of content)) fs

  -- What is written to release-manifest.json.
  unfoldable pub build_manifest : List String → Result Fields
  unfolding is_tag is_pinned add_assets sorted_names
  build_manifest argv = do
    a ← arguments_of argv
    check (is_tag a.tag) (crash "invalid semantic release tag")
    check (is_commit a.commit) (crash "invalid source commit")
    check (is_pinned a.image) (crash "gateway image is not digest-pinned")
    assets ← add_assets end (sorted_names a.files)
    ok (manifest_of a assets)
