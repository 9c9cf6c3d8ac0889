-- ===== src/Prelude/Strings.antt =====
-- Python strings as lists of code points, with `strip`, `lower` and the order of `sorted`.
use Prim.Native.Nat.{ℕ, ◌+◌}
use Prim.Native.Char.{code}
use Prim.Native.String.{String}
use mathlib.Core.Path.{◌≡◌, refl}
use mathlib.Core.Bool.{Bool, true, false, ◌&&◌, ◌||◌}
use mathlib.Core.List.{List, [], ◌∷◌, map, reverse}
use native.Mathlib.Omega.{arith}
use sub2_ddq.Prelude.Tests.{leb, ltb, ◌==◌, if◌then◌else◌}

abbrev pub Text : Type 0
Text = List ℕ

-- The code points of a literal.
abbrev pub codes : String → Text
codes String.[] = []
codes (String.◌∷◌ c s) = code c ∷ codes s

abbrev pub text_eq : Text → Text → Bool
text_eq [] [] = true
text_eq (a ∷ s) (b ∷ t) = a == b && text_eq s t
text_eq _ _ = false

-- `s <= t`, by code points.
abbrev pub text_leb : Text → Text → Bool
text_leb [] t = true
text_leb (a ∷ s) [] = false
text_leb (a ∷ s) (b ∷ t) = ltb a b || (a == b && text_leb s t)

-- `str.isspace` of one character.
is_space : ℕ → Bool
is_space c =
    (leb 9 c && leb c 13)
    || (leb 28 c && leb c 32)
    || c == 133
    || c == 160
    || c == 5760
    || (leb 8192 c && leb c 8202)
    || c == 8232
    || c == 8233
    || c == 8239
    || c == 8287
    || c == 12288

lstrip : Text → Text
unfolding is_space
lstrip [] = []
lstrip (c ∷ s) = let rest = lstrip s in if is_space c then rest else c ∷ s

unfoldable pub strip : Text → Text
unfolding lstrip
strip s = reverse (lstrip (reverse (lstrip s)))

-- `str.lower` as far as it can give an ASCII character alone: A to Z, and the Kelvin sign. Other
-- characters stay what they are, which no comparison with an ASCII text can tell (the dotted
-- capital I gives an `i` with a combining dot, which is no ASCII text either).
to_lower : ℕ → ℕ
to_lower c = if leb 65 c && leb c 90 then c + 32 else if c == 8490 then 107 else c

unfoldable pub lower : Text → Text
unfolding to_lower
lower s = map to_lower s

pub text_eq_sym : (s t : Text) → text_eq s t ≡ text_eq t s
text_eq_sym [] [] = refl
text_eq_sym [] (b ∷ t) = refl
text_eq_sym (a ∷ s) [] = refl
text_eq_sym (a ∷ s) (b ∷ t) = ground (arith, text_eq_sym s t)

-- The test decides equality.
pub text_eq_lem : (s t : Text) → text_eq s t ≡ true → s ≡ t
text_eq_lem [] [] h = refl
text_eq_lem [] (b ∷ t) h = cc
text_eq_lem (a ∷ s) [] h = cc
text_eq_lem (a ∷ s) (b ∷ t) h = ground (arith, text_eq_lem s t, h)

-- Whether the text stands in the list; whether one stands in it twice.
abbrev pub has_text : Text → List Text → Bool
has_text s [] = false
has_text s (t ∷ ts) = text_eq t s || has_text s ts

abbrev pub has_text_duplicates : List Text → Bool
has_text_duplicates [] = false
has_text_duplicates (s ∷ ts) = has_text s ts || has_text_duplicates ts
