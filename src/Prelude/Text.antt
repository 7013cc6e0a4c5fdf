-- ===== src/Prelude/Text.antt =====
-- Text as Go's `strings` package walks it. Go compares and cuts bytes; on valid UTF-8 the order of
-- code points is the order of bytes, and a text that is cut out of another begins at a character.
use remnix.Prelude.Tests.{Bool-cases, ltb, eqb, if◌then◌else◌}
use Prim.Native.Char.{Char, code}
use Prim.Native.String.{String}
use mathlib.Core.Path.{◌≡◌, refl}
use mathlib.Core.Logic.{inl, inr}
use mathlib.Core.Bool.{Bool, true, false, ◌&&◌, ◌||◌}
use mathlib.Core.List.{List, [], ◌∷◌}
use native.Mathlib.Omega.{arith}
use text.Mathlib.Text.{◌==◌}
use text.Mathlib.TextEquality.{Char-path}

-- `s < t`
unfoldable pub str_ltb : String → String → Bool
str_ltb String.[] String.[] = false
str_ltb String.[] (String.◌∷◌ d t) = true
str_ltb (String.◌∷◌ c s) String.[] = false
str_ltb (String.◌∷◌ c s) (String.◌∷◌ d t) =
    if ltb (code c) (code d) then true else if ltb (code d) (code c) then false else str_ltb s t

pub str_ltb_irrefl : (s : String) → str_ltb s s ≡ false
unfolding str_ltb
str_ltb_irrefl String.[] = refl
str_ltb_irrefl (String.◌∷◌ c s) = ground (arith, str_ltb_irrefl s)

pub str_ltb_trans : (s t u : String) → str_ltb s t ≡ true → str_ltb t u ≡ true → str_ltb s u ≡ true
unfolding str_ltb
str_ltb_trans (String.◌∷◌ c s) (String.◌∷◌ d t) (String.◌∷◌ e u) h k =
    ground (arith, str_ltb_trans s t u)
str_ltb_trans String.[] (String.◌∷◌ d t) (String.◌∷◌ e u) h k = refl
str_ltb_trans (String.◌∷◌ c s) (String.◌∷◌ d t) String.[] h k = cc
str_ltb_trans String.[] t String.[] h k = cc
str_ltb_trans (String.◌∷◌ c s) t String.[] h k = ground arith
str_ltb_trans s String.[] u h k = ground arith

pub str_ltb_total : (s t : String) → str_ltb s t ≡ false → str_ltb t s ≡ false → s ≡ t
unfolding str_ltb
str_ltb_total String.[] String.[] h k = refl
str_ltb_total String.[] (String.◌∷◌ d t) h k = cc
str_ltb_total (String.◌∷◌ c s) String.[] h k = cc
str_ltb_total (String.◌∷◌ c s) (String.◌∷◌ d t) h k =
    let same : code c ≡ code d = ground arith in
    cc (Char-path c d same, str_ltb_total s t (ground arith) (ground arith))

-- What is not before and not after: `t` before `s` unless equal, and so on down the chain.
pub str_ltb_negtrans :
    (s t u : String) → str_ltb s t ≡ false → str_ltb t u ≡ false → str_ltb s u ≡ false
str_ltb_negtrans s t u h k = elim (Bool-cases (str_ltb s u)) [
  | inl b ↦ elim (Bool-cases (str_ltb t s)) [
    | inl a ↦ cc (str_ltb_trans t s u a b)
    | inr a ↦ cc (str_ltb_total s t h a)
  ]
  | inr b ↦ b
]

abbrev same_char : Char → Char → Bool
same_char c d = eqb (code c) (code d)

-- `strings.HasPrefix(s, p)`
unfoldable pub has_prefix : String → String → Bool
has_prefix s String.[] = true
has_prefix String.[] (String.◌∷◌ d p) = false
has_prefix (String.◌∷◌ c s) (String.◌∷◌ d p) = same_char c d && has_prefix s p

-- `strings.Contains(s, p)`
unfoldable pub contains : String → String → Bool
unfolding has_prefix
contains String.[] p = has_prefix String.[] p
contains (String.◌∷◌ c s) p = has_prefix (String.◌∷◌ c s) p || contains s p

-- `strings.HasSuffix(s, p)`
unfoldable pub has_suffix : String → String → Bool
has_suffix String.[] p = String.[] == p
has_suffix (String.◌∷◌ c s) p = (String.◌∷◌ c s) == p || has_suffix s p

-- The code point of a separator, such as `/`.
abbrev pub is_slash : Char → Bool
is_slash c = eqb (code c) b'/'

-- `strings.Split(s, "/")`: never empty.
cons_to_first : Char → List String → List String
cons_to_first c [] = (String.◌∷◌ c String.[]) ∷ []
cons_to_first c (p ∷ ps) = (String.◌∷◌ c p) ∷ ps

unfoldable pub split_slash : String → List String
unfolding cons_to_first
split_slash String.[] = String.[] ∷ []
split_slash (String.◌∷◌ c s) =
    let rest = split_slash s in if is_slash c then String.[] ∷ rest else cons_to_first c rest

-- `strings.TrimLeft(s, "/")`
unfoldable pub trim_left_slash : String → String
trim_left_slash String.[] = String.[]
trim_left_slash (String.◌∷◌ c s) =
    let rest = trim_left_slash s in if is_slash c then rest else String.◌∷◌ c s

-- `strings.TrimRight(s, "/")`
unfoldable pub trim_right_slash : String → String
trim_right_slash String.[] = String.[]
trim_right_slash (String.◌∷◌ c s) =
    let rest = trim_right_slash s in
    if is_slash c && rest == String.[] then String.[] else String.◌∷◌ c rest

-- `strings.Trim(s, "/")`
unfoldable pub trim_slash : String → String
unfolding trim_left_slash trim_right_slash
trim_slash s = trim_left_slash (trim_right_slash s)

last_or : String → List String → String
last_or d [] = d
last_or d (p ∷ ps) = last_or p ps

-- `path.Base(s)`
unfoldable pub path_base : String → String
unfolding last_or split_slash trim_right_slash
path_base s =
    if s == String.[]
    then "."
    else (let t = trim_right_slash s in
        if t == String.[] then "/" else last_or String.[] (split_slash t))

path_base_test : path_base "events/dev/a.bundle" ≡ "a.bundle"
unfolding path_base
path_base_test = refl

contains_test : (contains "x/y.tmp-1" ".tmp-" ≡ true) × (contains "x/y.tm" ".tmp-" ≡ false)
unfolding contains
contains_test = (refl, refl)

split_slash_test : split_slash "checkpoints/c1/" ≡ "checkpoints" ∷ "c1" ∷ "" ∷ []
unfolding split_slash
split_slash_test = refl

-- A text with a prefix is not before it.
pub has_prefix-str_ltb : (s p : String) → has_prefix s p ≡ true → str_ltb s p ≡ false
unfolding has_prefix str_ltb
has_prefix-str_ltb String.[] String.[] h = refl
has_prefix-str_ltb (String.◌∷◌ c s) String.[] h = refl
has_prefix-str_ltb String.[] (String.◌∷◌ d p) h = cc h
has_prefix-str_ltb (String.◌∷◌ c s) (String.◌∷◌ d p) h = ground (arith, has_prefix-str_ltb s p)

-- What lies between a prefix and a text that has it, has it too.
pub has_prefix_between :
    (p s t : String)
    → str_ltb s p ≡ false
    → str_ltb t s ≡ false
    → has_prefix t p ≡ true
    → has_prefix s p ≡ true
unfolding has_prefix str_ltb
has_prefix_between String.[] s t lo hi h = ground arith
has_prefix_between (String.◌∷◌ d p) String.[] t lo hi h = cc lo
has_prefix_between (String.◌∷◌ d p) (String.◌∷◌ c s) String.[] lo hi h = cc h
has_prefix_between (String.◌∷◌ d p) (String.◌∷◌ c s) (String.◌∷◌ e t) lo hi h =
    ground (arith, has_prefix_between p s t)
