-- ===== src/Base/Strings.antt =====
-- Go strings, and what the services use of the packages strings, unicode and unicode/utf8.
-- A string is the sequence of what a `range` loop reads from it: a code point, or for a byte b
-- that is no part of valid UTF-8 the number 0x110000 + b, which no code point has.
use Prim.Native.Nat.{ℕ, ◌+◌}
use Prim.Native.Char.{code}
use Prim.Native.String.{String}
use mathlib.Core.Path.{◌≡◌, refl}
use mathlib.Core.Logic.{◌↔◌}
use mathlib.Core.Bool.{Bool, true, false, not, ◌&&◌, ◌||◌}
use mathlib.Core.List.{List, [], ◌∷◌, ◌++◌}
use native.Mathlib.Omega.{arith}
use raglibrarian.Base.Tests.{ltb, leb, ◌==◌, if◌then◌else◌}
use raglibrarian.Base.Lists.{is_empty, all}

abbrev pub Text : Type 0
Text = List ℕ

-- A literal of the source.
abbrev pub literal : String → Text
literal String.[] = []
literal (String.◌∷◌ c s) = code c ∷ literal s

unfoldable pub text_eq : Text → Text → Bool
text_eq [] [] = true
text_eq (a ∷ s) (b ∷ t) = (a == b) && text_eq s t
text_eq _ _ = false

-- The bytes of a rune.
unfoldable pub rune_width : ℕ → ℕ
rune_width c =
    if ltb c 0x80
    then 1
    else if ltb c 0x800
    then 2
    else if ltb c 0x10000
    then 3
    else if ltb c 0x110000
    then 4
    else 1

-- `len(s)`
unfoldable pub byte_len : Text → ℕ
unfolding rune_width
byte_len [] = 0
byte_len (c ∷ s) = rune_width c + byte_len s

-- `utf8.ValidString`
unfoldable pub valid_string : Text → Bool
valid_string s = all (λ c. ltb c 0x110000) s

-- `unicode.IsSpace`
unfoldable pub is_space : ℕ → Bool
is_space c =
    (leb 9 c && leb c 13)
    || (c == 0x20)
    || (c == 0x85)
    || (c == 0xa0)
    || (c == 0x1680)
    || (leb 0x2000 c && leb c 0x200a)
    || (c == 0x2028)
    || (c == 0x2029)
    || (c == 0x202f)
    || (c == 0x205f)
    || (c == 0x3000)

unfoldable pub trim_left : Text → Text
trim_left [] = []
trim_left (c ∷ s) = if is_space c then trim_left s else c ∷ s

unfoldable pub trim_right : Text → Text
trim_right [] = []
trim_right (c ∷ s) = let rest = trim_right s in if is_empty rest && is_space c then [] else c ∷ rest

-- `strings.TrimSpace`
unfoldable pub trim_space : Text → Text
unfolding trim_left trim_right is_space
trim_space s = trim_right (trim_left s)

-- `strings.TrimSpace(s) == ""`
unfoldable pub is_blank : Text → Bool
unfolding trim_space
is_blank s = is_empty (trim_space s)

pub text_eq_refl : (s : Text) → text_eq s s ≡ true
unfolding text_eq
text_eq_refl [] = refl
text_eq_refl (c ∷ s) = ground (arith, text_eq_refl s)

pub text_eq→eq : (s t : Text) → text_eq s t ≡ true → s ≡ t
unfolding text_eq
text_eq→eq [] [] h = refl
text_eq→eq (a ∷ s) (b ∷ t) h = ground (arith, text_eq→eq s t)
text_eq→eq [] (b ∷ t) h = cc
text_eq→eq (a ∷ s) [] h = cc

pub text_eq_iff : (s t : Text) → (text_eq s t ≡ true) ↔ (s ≡ t)
text_eq_iff s t = (text_eq→eq s t, λ e. ground (arith, text_eq_refl s))

pub text_eq-false : (s t : Text) → ¬ (s ≡ t) → text_eq s t ≡ false
text_eq-false s t h = ground (arith, text_eq→eq s t)

pub text_eq_comm : (s t : Text) → text_eq s t ≡ text_eq t s
unfolding text_eq
text_eq_comm [] [] = refl
text_eq_comm (a ∷ s) (b ∷ t) = ground (arith, text_eq_comm s t)
text_eq_comm [] (b ∷ t) = refl
text_eq_comm (a ∷ s) [] = refl

-- Is a string in a list, as a key is in a Go map?
unfoldable pub member : Text → List Text → Bool
unfolding text_eq
member s [] = false
member s (t ∷ ts) = text_eq s t || member s ts

-- No string occurs twice.
unfoldable pub distinct : List Text → Bool
unfolding member
distinct [] = true
distinct (t ∷ ts) = not (member t ts) && distinct ts

unfoldable add_word : Text → List Text → List Text
add_word [] words = words
add_word (c ∷ word) words = (c ∷ word) ∷ words

-- The word that a string begins with, which may be empty, and the words behind it.
unfoldable split_words : Text → Text × List Text
unfolding is_space add_word
split_words [] = ([], [])
split_words (c ∷ s) =
    let (word, words) = split_words s in
    if is_space c then ([], add_word word words) else (c ∷ word, words)

-- `strings.Fields`
unfoldable pub fields : Text → List Text
unfolding is_space add_word split_words
fields s = let (word, words) = split_words s in add_word word words

-- `strings.Join`
unfoldable pub join : List Text → Text → Text
join [] separator = []
join (s ∷ []) separator = s
join (s ∷ t ∷ ts) separator = s ++ separator ++ join (t ∷ ts) separator
