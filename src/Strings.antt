-- ===== src/Strings.antt =====
-- What the program uses of Go's strings package, over code points. ToLower is that of ASCII; other
-- letters stay as they are (the Kelvin sign, which Go maps to k, among them). IsSpace is that of Latin-1.
use Prim.Native.Char.{Char, code}
use memory_leak_reloader.Base.{
  ℕ, ◌+◌, String, Bool, true, false, Option, none, some, List, [], ◌∷◌, ◌==◌, nat_eq, string_eq,
  if◌then◌else◌, ◌&&◌, ◌||◌, leb, map,
}

abbrev pub Text : Type 0
Text = List ℕ

abbrev pub codes : String → Text
codes String.[] = []
codes (String.◌∷◌ c s) = code c ∷ codes s

abbrev pub text_beq : Text → Text → Bool
text_beq [] [] = true
text_beq [] (d ∷ t) = false
text_beq (c ∷ s) [] = false
text_beq (c ∷ s) (d ∷ t) = (c == d) && text_beq s t

-- unicode.IsSpace, of Latin-1.
unfoldable pub is_space : ℕ → Bool
is_space c = (leb 9 c && leb c 13) || (c == 32) || (c == 0x85) || (c == 0xA0)

unfoldable pub trim_left : Text → Text
trim_left [] = []
trim_left (c ∷ s) = let rest = trim_left s in if is_space c then rest else c ∷ s

-- A text less its trailing white space.
abbrev pub keep_unless_space : ℕ → Text → Text
keep_unless_space c [] = if is_space c then [] else c ∷ []
keep_unless_space c (d ∷ t) = c ∷ d ∷ t

unfoldable pub trim_right : Text → Text
trim_right [] = []
trim_right (c ∷ s) = keep_unless_space c (trim_right s)

unfoldable pub trim_space : Text → Text
unfolding trim_left trim_right is_space
trim_space s = trim_right (trim_left s)

unfoldable pub to_lower : Text → Text
to_lower = map (λ c. if leb b'A' c && leb c b'Z' then c + 32 else c)

abbrev pub add_first : ℕ → List Text → List Text
add_first c [] = (c ∷ []) ∷ []
add_first c (s ∷ ss) = (c ∷ s) ∷ ss

-- strings.Split at one character; never empty.
unfoldable pub split : ℕ → Text → List Text
split sep [] = [] ∷ []
split sep (c ∷ s) = let rest = split sep s in if c == sep then [] ∷ rest else add_first c rest

-- strings.SplitN(s, sep, 2): the parts around the first separator, if there is one.
pub record Cut : Type 0 where
  pub found : Bool
  pub first : Text
  pub second : Text

unfoldable pub cut : ℕ → Text → Cut
cut sep [] = record { found = false; first = []; second = [] }
cut sep (c ∷ s) =
    let rest = cut sep s in
    if c == sep
    then record { found = true; first = []; second = s }
    else record rest { first = c ∷ rest.first }

-- strings.Cut(s, sep) of a text that stays a string.
abbrev pub cons_first : Char → Option (String × String) → Option (String × String)
cons_first c none = none
cons_first c (some (a, b)) = some (String.◌∷◌ c a, b)

unfoldable pub cut_string : ℕ → String → Option (String × String)
cut_string sep String.[] = none
cut_string sep (String.◌∷◌ c s) =
    let rest = cut_string sep s in if code c == sep then some (String.[], s) else cons_first c rest

-- strings.TrimRight(s, sep) of one character.
abbrev pub keep_unless : ℕ → Char → String → String
keep_unless sep c String.[] = if code c == sep then String.[] else String.◌∷◌ c String.[]
keep_unless sep c (String.◌∷◌ d s) = String.◌∷◌ c (String.◌∷◌ d s)

unfoldable pub trim_suffix : ℕ → String → String
trim_suffix sep String.[] = String.[]
trim_suffix sep (String.◌∷◌ c s) = keep_unless sep c (trim_suffix sep s)

-- strings.TrimSuffix(s, sep) of one character.
unfoldable pub trim_one : ℕ → String → String
trim_one sep String.[] = String.[]
trim_one sep (String.◌∷◌ c String.[]) = if code c == sep then String.[] else String.◌∷◌ c String.[]
trim_one sep (String.◌∷◌ c (String.◌∷◌ d s)) = String.◌∷◌ c (trim_one sep (String.◌∷◌ d s))

-- strings.TrimSuffix(s, suffix), for a suffix that is not empty.
unfoldable pub cut_suffix : String → String → String
cut_suffix suffix String.[] = String.[]
cut_suffix suffix (String.◌∷◌ c s) =
    let rest = cut_suffix suffix s in
    if String.◌∷◌ c s == suffix then String.[] else String.◌∷◌ c rest

-- strings.TrimSpace(s) == "".
unfoldable pub is_blank : String → Bool
unfolding trim_space
is_blank s = text_beq (trim_space (codes s)) []

-- The same functions of texts that stay strings: strings.TrimSpace, strings.Split and strings.Fields.
unfoldable pub trim_start : String → String
unfolding is_space
trim_start String.[] = String.[]
trim_start (String.◌∷◌ c s) =
    let rest = trim_start s in if is_space (code c) then rest else String.◌∷◌ c s

abbrev pub keep_unless_blank : Char → String → String
keep_unless_blank c String.[] = if is_space (code c) then String.[] else String.◌∷◌ c String.[]
keep_unless_blank c (String.◌∷◌ d s) = String.◌∷◌ c (String.◌∷◌ d s)

unfoldable pub trim_end : String → String
unfolding is_space
trim_end String.[] = String.[]
trim_end (String.◌∷◌ c s) = keep_unless_blank c (trim_end s)

unfoldable pub trim_string : String → String
unfolding trim_start trim_end
trim_string s = trim_end (trim_start s)

abbrev pub prefix_first : Char → List String → List String
prefix_first c [] = String.◌∷◌ c String.[] ∷ []
prefix_first c (w ∷ ws) = String.◌∷◌ c w ∷ ws

unfoldable pub split_string : ℕ → String → List String
split_string sep String.[] = "" ∷ []
split_string sep (String.◌∷◌ c s) =
    let rest = split_string sep s in if code c == sep then "" ∷ rest else prefix_first c rest

-- The word that is in progress, and those after it.
abbrev pub push_word : String × List String → List String
push_word (String.[], ws) = ws
push_word (String.◌∷◌ c w, ws) = String.◌∷◌ c w ∷ ws

unfoldable pub words : String → String × List String
unfolding is_space
words String.[] = ("", [])
words (String.◌∷◌ c s) =
    let (w, ws) = words s in
    if is_space (code c) then ("", push_word (w, ws)) else (String.◌∷◌ c w, ws)

unfoldable pub fields : String → List String
unfolding words
fields s = push_word (words s)
