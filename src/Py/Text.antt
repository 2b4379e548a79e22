-- ===== src/Py/Text.antt =====
-- Texts as Python's `str`: `strip`, `startswith`, slices and lengths, character by character.
use Prim.Native.Char.{code}
use Prim.Native.String.{[], ◌∷◌}
use erpnext_whatsapp_connect.Base.{
  ℕ, zero, suc, String, Bool, true, false, ◌&&◌, if◌then◌else◌, ◌≡◌, refl,
}
use erpnext_whatsapp_connect.Py.Unicode.{is_space}

-- `len(text)`, in code points.
abbrev pub length : String → ℕ
length [] = 0
length (c ∷ s) = suc (length s)

-- `text[:n]`.
abbrev pub take : ℕ → String → String
take zero s = []
take (suc n) [] = []
take (suc n) (c ∷ s) = c ∷ take n s

-- `text[n:]`.
abbrev pub drop : ℕ → String → String
drop zero s = s
drop (suc n) [] = []
drop (suc n) (c ∷ s) = drop n s

abbrev pub is_empty : String → Bool
is_empty [] = true
is_empty (c ∷ s) = false

abbrev pub concat : String → String → String
concat [] t = t
concat (c ∷ s) t = c ∷ concat s t

-- `text.lstrip()` and `text.rstrip()`.
unfoldable pub lstrip : String → String
lstrip [] = []
lstrip (c ∷ s) = let rest = lstrip s in if is_space (code c) then rest else c ∷ s

unfoldable pub rstrip : String → String
rstrip [] = []
rstrip (c ∷ s) = let rest = rstrip s in if is_empty rest && is_space (code c) then [] else c ∷ rest

-- `text.strip()`.
unfoldable pub strip : String → String
unfolding lstrip rstrip is_space
strip s = rstrip (lstrip s)

strip_test : strip " a b\n" ≡ "a b"
unfolding strip
strip_test = refl
