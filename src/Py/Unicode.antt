-- ===== src/Py/Unicode.antt =====
-- The code points that Python's `str.isspace` (and `\s` in a pattern) and `\d` in a pattern accept.
use erpnext_whatsapp_connect.Base.{
  ℕ, Bool, true, false, ◌&&◌, ◌||◌, List, [], ◌∷◌, ◌≡◌, leb, ltb, arith, refl, ◌≤◌,
}

-- Inclusive ranges.
abbrev pub within : ℕ → List (ℕ × ℕ) → Bool
within c [] = false
within c ((lo, hi) ∷ rest) = leb lo c && leb c hi || within c rest

-- Unicode white space.
pub spaces : List (ℕ × ℕ)
spaces =
    (0x9, 0xd)
    ∷ (0x1c, 0x20)
    ∷ (0x85, 0x85)
    ∷ (0xa0, 0xa0)
    ∷ (0x1680, 0x1680)
    ∷ (0x2000, 0x200a)
    ∷ (0x2028, 0x2029)
    ∷ (0x202f, 0x202f)
    ∷ (0x205f, 0x205f)
    ∷ (0x3000, 0x3000)
    ∷ []

-- Unicode's category Nd holds the digits 0 to 9 of every script (version 16, that of Python 3.14);
-- here without those of ASCII.
other_decimals : List (ℕ × ℕ)
other_decimals =
    (0x660, 0x669)
    ∷ (0x6f0, 0x6f9)
    ∷ (0x7c0, 0x7c9)
    ∷ (0x966, 0x96f)
    ∷ (0x9e6, 0x9ef)
    ∷ (0xa66, 0xa6f)
    ∷ (0xae6, 0xaef)
    ∷ (0xb66, 0xb6f)
    ∷ (0xbe6, 0xbef)
    ∷ (0xc66, 0xc6f)
    ∷ (0xce6, 0xcef)
    ∷ (0xd66, 0xd6f)
    ∷ (0xde6, 0xdef)
    ∷ (0xe50, 0xe59)
    ∷ (0xed0, 0xed9)
    ∷ (0xf20, 0xf29)
    ∷ (0x1040, 0x1049)
    ∷ (0x1090, 0x1099)
    ∷ (0x17e0, 0x17e9)
    ∷ (0x1810, 0x1819)
    ∷ (0x1946, 0x194f)
    ∷ (0x19d0, 0x19d9)
    ∷ (0x1a80, 0x1a89)
    ∷ (0x1a90, 0x1a99)
    ∷ (0x1b50, 0x1b59)
    ∷ (0x1bb0, 0x1bb9)
    ∷ (0x1c40, 0x1c49)
    ∷ (0x1c50, 0x1c59)
    ∷ (0xa620, 0xa629)
    ∷ (0xa8d0, 0xa8d9)
    ∷ (0xa900, 0xa909)
    ∷ (0xa9d0, 0xa9d9)
    ∷ (0xa9f0, 0xa9f9)
    ∷ (0xaa50, 0xaa59)
    ∷ (0xabf0, 0xabf9)
    ∷ (0xff10, 0xff19)
    ∷ (0x104a0, 0x104a9)
    ∷ (0x10d30, 0x10d39)
    ∷ (0x10d40, 0x10d49)
    ∷ (0x11066, 0x1106f)
    ∷ (0x110f0, 0x110f9)
    ∷ (0x11136, 0x1113f)
    ∷ (0x111d0, 0x111d9)
    ∷ (0x112f0, 0x112f9)
    ∷ (0x11450, 0x11459)
    ∷ (0x114d0, 0x114d9)
    ∷ (0x11650, 0x11659)
    ∷ (0x116c0, 0x116c9)
    ∷ (0x116d0, 0x116e3)
    ∷ (0x11730, 0x11739)
    ∷ (0x118e0, 0x118e9)
    ∷ (0x11950, 0x11959)
    ∷ (0x11bf0, 0x11bf9)
    ∷ (0x11c50, 0x11c59)
    ∷ (0x11d50, 0x11d59)
    ∷ (0x11da0, 0x11da9)
    ∷ (0x11f50, 0x11f59)
    ∷ (0x16130, 0x16139)
    ∷ (0x16a60, 0x16a69)
    ∷ (0x16ac0, 0x16ac9)
    ∷ (0x16b50, 0x16b59)
    ∷ (0x16d70, 0x16d79)
    ∷ (0x1ccf0, 0x1ccf9)
    ∷ (0x1d7ce, 0x1d7ff)
    ∷ (0x1e140, 0x1e149)
    ∷ (0x1e2f0, 0x1e2f9)
    ∷ (0x1e4f0, 0x1e4f9)
    ∷ (0x1e5f1, 0x1e5fa)
    ∷ (0x1e950, 0x1e959)
    ∷ (0x1fbf0, 0x1fbf9)
    ∷ []

-- Unicode's category Nd.
pub decimals : List (ℕ × ℕ)
unfolding other_decimals
decimals = (0x30, 0x39) ∷ other_decimals

-- The punctuation that a telephone number is written with: `(`, `)`, `+`, `-` and `.`.
abbrev pub phone_marks : List (ℕ × ℕ)
phone_marks = (0x28, 0x29) ∷ (0x2b, 0x2b) ∷ (0x2d, 0x2e) ∷ []

unfoldable pub is_space : ℕ → Bool
unfolding spaces
is_space c = within c spaces

unfoldable pub is_decimal : ℕ → Bool
unfolding decimals
is_decimal c = within c decimals

-- No range of one list meets a range of the other.
apart_from : ℕ → ℕ → List (ℕ × ℕ) → Bool
apart_from lo hi [] = true
apart_from lo hi ((a, b) ∷ rest) = (ltb hi a || ltb b lo) && apart_from lo hi rest

disjoint : List (ℕ × ℕ) → List (ℕ × ℕ) → Bool
disjoint [] qs = true
disjoint ((lo, hi) ∷ rest) qs = apart_from lo hi qs && disjoint rest qs

apart_from-within :
    (lo hi c : ℕ) (qs : List (ℕ × ℕ))
    → apart_from lo hi qs ≡ true
    → (leb lo c && leb c hi) ≡ true
    → within c qs ≡ false
unfolding apart_from
apart_from-within lo hi c [] h k = refl
apart_from-within lo hi c ((a, b) ∷ qs) h k = ground (arith, apart_from-within lo hi c qs)

disjoint-within :
    (c : ℕ) (rs qs : List (ℕ × ℕ))
    → disjoint rs qs ≡ true
    → within c rs ≡ true
    → within c qs ≡ false
unfolding disjoint
disjoint-within c [] qs h k = ground arith
disjoint-within c ((lo, hi) ∷ rs) qs h k =
    ground (arith, apart_from-within lo hi c qs, disjoint-within c rs qs)

decimals-disjoint-spaces : disjoint decimals spaces ≡ true
unfolding disjoint apart_from decimals spaces
decimals-disjoint-spaces = refl

decimals-disjoint-phone_marks : disjoint decimals phone_marks ≡ true
unfolding disjoint apart_from decimals
decimals-disjoint-phone_marks = refl

or-false : (a b : Bool) → a ≡ false → b ≡ false → (a || b) ≡ false
or-false a b h k = ground arith

-- A decimal digit is no white space and no punctuation of a telephone number.
pub is_decimal-not-mark :
    (c : ℕ) → is_decimal c ≡ true → (is_space c || within c phone_marks) ≡ false
unfolding is_decimal is_space
is_decimal-not-mark c h =
    or-false (within c spaces) (within c phone_marks)
      (disjoint-within c decimals spaces decimals-disjoint-spaces h)
      (disjoint-within c decimals phone_marks decimals-disjoint-phone_marks h)

within-head :
    (lo hi c : ℕ) (rest : List (ℕ × ℕ)) → lo ≤ c → c ≤ hi → within c ((lo, hi) ∷ rest) ≡ true
within-head lo hi c rest h k = ground arith

-- The ASCII digits are decimal digits.
pub is_decimal-ascii : (c : ℕ) → b'0' ≤ c → c ≤ b'9' → is_decimal c ≡ true
unfolding is_decimal
is_decimal-ascii c h k = within-head b'0' b'9' c other_decimals h k
