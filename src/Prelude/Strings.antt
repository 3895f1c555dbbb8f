-- ===== src/Prelude/Strings.antt =====
-- Texts as lists of bytes, and what the program uses of Go's `strings` package.
use Prim.Native.Nat.{ℕ, ◌+◌}
use Prim.Native.Char.{code}
use Prim.Native.String.{String}
use mathlib.Core.Path.{◌≡◌, refl}
use mathlib.Core.Bool.{Bool, true, false, ◌&&◌, ◌||◌}
use mathlib.Core.List.{List, [], ◌∷◌, reverse}
use native.Mathlib.Omega.{arith}
use go_eth2_client.Prelude.Tests.{leb, ◌==◌, if◌then◌else◌}

abbrev pub Text : Type 0
Text = List ℕ

-- The code points of a literal, which are its bytes when it is ASCII.
abbrev pub codes : String → Text
codes String.[] = []
codes (String.◌∷◌ c s) = code c ∷ codes s

abbrev pub text_eq : Text → Text → Bool
text_eq [] [] = true
text_eq [] (d ∷ t) = false
text_eq (c ∷ s) [] = false
text_eq (c ∷ s) (d ∷ t) = c == d && text_eq s t

-- `strings.HasPrefix(s, prefix)`, with the prefix first.
abbrev pub has_prefix : Text → Text → Bool
has_prefix [] s = true
has_prefix (p ∷ ps) [] = false
has_prefix (p ∷ ps) (c ∷ s) = p == c && has_prefix ps s

-- `strings.HasSuffix(s, suffix)`, with the suffix first.
abbrev pub has_suffix : Text → Text → Bool
has_suffix p s = has_prefix (reverse p) (reverse s)

-- `strings.Contains(s, part)`, with the part first.
abbrev pub contains : Text → Text → Bool
contains p [] = has_prefix p []
contains p (c ∷ s) = has_prefix p (c ∷ s) || contains p s

-- `strings.TrimPrefix(s, prefix)`, with the prefix first.
abbrev strip : Text → Text → Text
strip [] s = s
strip (p ∷ ps) [] = []
strip (p ∷ ps) (c ∷ s) = strip ps s

abbrev pub trim_prefix : Text → Text → Text
trim_prefix p s = if has_prefix p s then strip p s else s

-- A byte in lower case, if it is a letter of ASCII.
abbrev pub lower : ℕ → ℕ
lower c = if leb b'A' c && leb c b'Z' then c + 32 else c

-- A byte before a text in lower case. Two letters beyond ASCII, in UTF-8, have a letter of ASCII as
-- their lower case: the capital I with a dot (U+0130), and the Kelvin sign (U+212A).
abbrev dotted : ℕ → Text → Text
dotted a [] = lower a ∷ []
dotted a (b ∷ s) = if a == 196 && b == 176 then b'i' ∷ s else lower a ∷ b ∷ s

abbrev lowered : ℕ → Text → Text
lowered a [] = dotted a []
lowered a (b ∷ []) = dotted a (b ∷ [])
lowered a (b ∷ c ∷ s) =
    if a == 226 && (b == 132 && c == 170) then b'k' ∷ s else dotted a (b ∷ c ∷ s)

-- `strings.ToLower`, but that other letters beyond ASCII are kept. A text that it makes is compared
-- with texts in ASCII only.
abbrev pub to_lower : Text → Text
to_lower [] = []
to_lower (a ∷ s) = lowered a (to_lower s)

pub text_eq_refl : (s : Text) → text_eq s s ≡ true
text_eq_refl [] = refl
text_eq_refl (c ∷ s) = ground (arith, text_eq_refl s)

pub text_eq→eq : (s t : Text) → text_eq s t ≡ true → s ≡ t
text_eq→eq [] [] h = refl
text_eq→eq [] (d ∷ t) h = cc
text_eq→eq (c ∷ s) [] h = cc
text_eq→eq (c ∷ s) (d ∷ t) h = ground (arith, text_eq→eq s t)

-- `strings.TrimSuffix(s, "/")`.
abbrev pub trim_slash : Text → Text
trim_slash [] = []
trim_slash (c ∷ []) = if c == b'/' then [] else c ∷ []
trim_slash (c ∷ d ∷ s) = c ∷ trim_slash (d ∷ s)
