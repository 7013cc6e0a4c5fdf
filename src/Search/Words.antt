-- ===== src/Search/Words.antt =====
-- What internal/search/rank.go uses of Go's `strings` and `unicode`: characters as numbers, words and
-- the spaces between them.
use remnix.Prelude.{
  String, ℕ, Bool, ◌&&◌, ◌||◌, List, [], ◌∷◌, ◌==◌, if◌then◌else◌, ◌≡◌, refl, leb, eqb,
}
use Prim.Native.Char.{Char, code}

-- `[]rune(s)`
unfoldable pub runes : String → List ℕ
runes String.[] = []
runes (String.◌∷◌ c s) = code c ∷ runes s

-- `unicode.IsSpace`
unfoldable pub is_space : ℕ → Bool
is_space c =
    leb 9 c && leb c 13
    || eqb c 32
    || eqb c 133
    || eqb c 160
    || eqb c 5760
    || leb 8192 c && leb c 8202
    || eqb c 8232
    || eqb c 8233
    || eqb c 8239
    || eqb c 8287
    || eqb c 12288

put_first : Char → List String → List String
put_first c [] = String.◌∷◌ c String.[] ∷ []
put_first c (w ∷ ws) = String.◌∷◌ c w ∷ ws

-- The texts between spaces, the empty ones too.
unfoldable pub split_space : String → List String
unfolding put_first
split_space String.[] = "" ∷ []
split_space (String.◌∷◌ c s) =
    let rest = split_space s in if is_space (code c) then "" ∷ rest else put_first c rest

unfoldable pub drop_empty : List String → List String
drop_empty [] = []
drop_empty (w ∷ ws) = let rest = drop_empty ws in if w == "" then rest else w ∷ rest

-- `strings.Fields(s)`
unfoldable pub fields : String → List String
fields s = drop_empty (split_space s)

trim_left : String → String
trim_left String.[] = String.[]
trim_left (String.◌∷◌ c s) =
    let rest = trim_left s in if is_space (code c) then rest else String.◌∷◌ c s

trim_right : String → String
trim_right String.[] = String.[]
trim_right (String.◌∷◌ c s) =
    let rest = trim_right s in
    if is_space (code c) && rest == "" then String.[] else String.◌∷◌ c rest

-- `strings.TrimSpace(s)`
unfoldable pub trim_space : String → String
unfolding trim_left trim_right
trim_space s = trim_left (trim_right s)

fields_test : fields "  git \t commit " ≡ "git" ∷ "commit" ∷ []
unfolding fields split_space drop_empty is_space
fields_test = refl

trim_space_test : trim_space "  git commit \n" ≡ "git commit"
unfolding trim_space is_space
trim_space_test = refl
