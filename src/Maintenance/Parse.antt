-- ===== src/Maintenance/Parse.antt =====
-- The parsers of internal/maintenance/window.go. `none` stands for any of their errors.
use memory_leak_reloader.Base.{
  ℕ, zero, suc, ◌+◌, ◌-◌, ◌*◌, ◌%◌, String, Bool, true, Option, none, some, List, [], ◌∷◌, ◌++◌,
  ◌==◌, nat_eq, string_eq, if◌then◌else◌, ◌&&◌, ◌||◌, not, leb, ltb,
}
use memory_leak_reloader.Base.Map.{Map, insert}
use memory_leak_reloader.Api.{MaintenanceWindow}
use memory_leak_reloader.Maintenance.{Calendar, Window}
use memory_leak_reloader.Strings.{
  Text, codes, text_beq, trim_space, to_lower, split, cut, cut_string, trim_string, split_string,
  fields,
}

infixl 5 ◌>>=◌
abbrev pub ◌>>=◌ {ℓ κ} : {A : Type ℓ} {B : Type κ} → Option A → (A → Option B) → Option B
none >>= f = none
some a >>= f = f a

-- The map of the weekdays' names.
unfoldable pub weekdays : Text → Option ℕ
weekdays s =
    if text_beq s (codes "sun")
    then some 0
    else if text_beq s (codes "mon")
    then some 1
    else if text_beq s (codes "tue")
    then some 2
    else if text_beq s (codes "wed")
    then some 3
    else if text_beq s (codes "thu")
    then some 4
    else if text_beq s (codes "fri")
    then some 5
    else if text_beq s (codes "sat")
    then some 6
    else none

-- The loop of expandRange, with `i` counted up and the rounds left counted down.
unfoldable pub expand : ℕ → ℕ → ℕ → ℕ → List ℕ
expand from to i zero = []
expand from to i (suc left) =
    let wd = (from + i) % 7 in
    let rest = expand from to (i + 1) left in if wd == to then wd ∷ [] else wd ∷ rest

unfoldable pub expand_range : ℕ → ℕ → List ℕ
unfolding expand
expand_range from to = expand from to 0 7

unfoldable pub set_days : List ℕ → Map ℕ Bool → Map ℕ Bool
unfolding insert
set_days [] out = out
set_days (wd ∷ wds) out = set_days wds (insert wd true out)

-- The days of one token.
unfoldable pub token_days : Text → Option (List ℕ)
unfolding weekdays expand_range trim_space cut
token_days tok =
    let rng = cut b'-' tok in
    if rng.found
    then (do
      from ← weekdays (trim_space rng.first)
      to ← weekdays (trim_space rng.second)
      some (expand_range from to))
    else (do wd ← weekdays tok; some (wd ∷ []))

-- The loop of parseDays over the tokens.
unfoldable pub parse_tokens : List Text → Map ℕ Bool → Option (Map ℕ Bool)
unfolding token_days set_days
parse_tokens [] out = some out
parse_tokens (t ∷ ts) out = elim (trim_space t) [
  | [] ↦ parse_tokens ts out
  | c ∷ s ↦ token_days (c ∷ s) >>= λ wds. parse_tokens ts (set_days wds out)
]

abbrev pub non_empty : Map ℕ Bool → Option (Map ℕ Bool)
non_empty [] = none
non_empty (e ∷ m) = some (e ∷ m)

unfoldable pub every_day : Map ℕ Bool
unfolding set_days
every_day = set_days (0 ∷ 1 ∷ 2 ∷ 3 ∷ 4 ∷ 5 ∷ 6 ∷ []) []

unfoldable pub parse_days : Text → Option (Map ℕ Bool)
unfolding every_day parse_tokens to_lower split
parse_days s =
    let t = to_lower (trim_space s) in
    if text_beq t (codes "*")
      || text_beq t (codes "daily")
      || text_beq t (codes "all")
      || text_beq t (codes "everyday")
    then some every_day
    else parse_tokens (split b',' t) [] >>= non_empty

-- A decimal digit.
unfoldable pub digit : ℕ → Option ℕ
digit c = if leb b'0' c && leb c b'9' then some (c - b'0') else none

-- time.Parse of the layout "15:04": an hour of one or two digits and a minute of two.
unfoldable pub parse_minute : ℕ → Text → Option ℕ
unfolding digit
parse_minute h (a ∷ b ∷ []) = do
  x ← digit a
  y ← digit b
  if ltb h 24 && ltb (x * 10 + y) 60 then some (h * 60 + (x * 10 + y)) else none
parse_minute h _ = none

unfoldable pub parse_hour : Text → Option ℕ
unfolding parse_minute
parse_hour (a ∷ b ∷ rest) = if b == b':' then (do x ← digit a; parse_minute x rest) else elim rest [
  | [] ↦ none
  | c ∷ rest' ↦
      if c == b':' then (do x ← digit a; y ← digit b; parse_minute (x * 10 + y) rest') else none
]
parse_hour _ = none

unfoldable pub parse_hhmm : Text → Option ℕ
unfolding parse_hour trim_space
parse_hhmm s = parse_hour (trim_space s)

-- strings.Join(days, ",").
unfoldable pub join_days : List String → Text
join_days [] = []
join_days (d ∷ []) = codes d
join_days (d ∷ e ∷ ds) = codes d ++ b',' ∷ join_days (e ∷ ds)

pub record Spec : Type 0 where
  pub days : String
  pub start : String
  pub end : String
  pub timezone : String

module _ {L : Type 0} (cal : Calendar L) where
  abbrev pub location : String → Option L
  location tz = if not (tz == "") && not (tz == "UTC") then cal.load_location tz else some cal.utc

  unfoldable pub parse_window : Text → Text → Text → String → Option (Window L)
  unfolding parse_days parse_hhmm
  parse_window days start end tz = do
    d ← parse_days days
    sm ← parse_hhmm start
    em ← parse_hhmm end
    if leb em sm
        then none
        else (do loc ← location tz; some (record { days = d; start = sm; end = em; loc = loc }))

  -- FromWindows.
  unfoldable pub from_windows : List MaintenanceWindow → Option (List (Window L))
  unfolding parse_window join_days
  from_windows [] = some []
  from_windows (w ∷ ws) = do
    x ← parse_window (join_days w.days) (codes w.start) (codes w.end) w.timezone
    xs ← from_windows ws
    some (x ∷ xs)

  unfoldable pub parse_specs : List Spec → Option (List (Window L))
  unfolding parse_window
  parse_specs [] = some []
  parse_specs (s ∷ ss) = do
    x ← parse_window (codes s.days) (codes s.start) (codes s.end) s.timezone
    xs ← parse_specs ss
    some (x ∷ xs)

  -- The three fields of one part of ParseString.
  abbrev pub range_window : String → Option (String × String) → String → Option (Window L)
  range_window days none tz = none
  range_window days (some (start, end)) tz = parse_window (codes days) (codes start) (codes end) tz

  abbrev pub fields_window : List String → Option (Window L)
  fields_window (days ∷ range ∷ tz ∷ []) = range_window days (cut_string b'-' range) tz
  fields_window _ = none

  -- The loop of ParseString over the parts; a blank one is passed over.
  unfoldable pub parse_parts : List String → Option (List (Window L))
  unfolding parse_window cut_string fields trim_string
  parse_parts [] = some []
  parse_parts (p ∷ ps) =
      let part = trim_string p in
      let rest = parse_parts ps in
      if part == "" then rest else (do w ← fields_window (fields part); ws ← rest; some (w ∷ ws))

  unfoldable pub parse_string : String → Option (List (Window L))
  unfolding parse_parts split_string trim_string
  parse_string s =
      let t = trim_string s in if t == "" then some [] else parse_parts (split_string b';' t)
