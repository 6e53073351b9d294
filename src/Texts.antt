-- ===== src/Texts.antt =====
-- The parts of Python's `str` that the services use: a text is the list of its code points.
pub mod Strip
use drip_marketplace.Prelude.{
  ℕ, Bool, true, false, ◌&&◌, ◌||◌, Option, none, some, List, [], ◌∷◌, leb, ◌==◌, if◌then◌else◌,
}
use drip_marketplace.Db.{Text}

abbrev pub between : ℕ → ℕ → ℕ → Bool
between low high c = leb low c && leb c high

-- `str.isspace` of one code point.
unfoldable pub is_space : ℕ → Bool
is_space c =
    between 9 13 c
    || (between 28 32 c
        || (c == 133
            || (c == 160
                || (c == 5760
                    || (between 8192 8202 c
                        || (between 8232 8233 c || (c == 8239 || (c == 8287 || c == 12288))))))))

unfoldable pub lstrip : Text → Text
lstrip [] = []
lstrip (c ∷ text) = if is_space c then lstrip text else c ∷ text

abbrev pub cons_unless_blank : ℕ → Text → Text
cons_unless_blank c [] = if is_space c then [] else c ∷ []
cons_unless_blank c (d ∷ text) = c ∷ d ∷ text

unfoldable pub rstrip : Text → Text
rstrip [] = []
rstrip (c ∷ text) = cons_unless_blank c (rstrip text)

-- `text.strip()`
unfoldable pub strip : Text → Text
strip text = rstrip (lstrip text)

abbrev pub is_blank : Text → Bool
is_blank [] = true
is_blank (_ ∷ _) = false

-- `any(p(char) for char in text)`
unfoldable pub any_char : (ℕ → Bool) → Text → Bool
any_char p [] = false
any_char p (c ∷ text) = p c || any_char p text

unfoldable pub same_text : Text → Text → Bool
same_text [] [] = true
same_text (c ∷ s) (d ∷ t) = c == d && same_text s t
same_text _ _ = false

unfoldable pub same_optional : Option Text → Option Text → Bool
same_optional none none = true
same_optional (some s) (some t) = same_text s t
same_optional _ _ = false
