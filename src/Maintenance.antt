-- ===== src/Maintenance.antt =====
-- internal/maintenance/window.go: the time windows in which a restart is allowed. The time-zone
-- database is no part of the program: a Calendar gives the offset of a location at an instant, and
-- time.Date. Local times are seconds since the start of year 1, which was a Monday.
pub mod Parse
pub mod Print
pub mod Opening
pub mod Reach
pub mod Allowed
pub mod Shown
pub mod Parsed
use memory_leak_reloader.Base.{
  ℕ, zero, suc, ◌+◌, ◌-◌, ◌*◌, ◌/◌, ◌%◌, String, Bool, true, false, Option, none, some, List, [],
  ◌∷◌, ◌==◌, nat_eq, if◌then◌else◌, ◌&&◌, not, leb, ltb,
}
use memory_leak_reloader.Base.Int.{ℤ, pos, negsuc, ◌+ℤ◌, int_beq}
use memory_leak_reloader.Base.Map.{Map, lookup}
use memory_leak_reloader.Base.Time.{Time, after, before, is_zero, zero_time, second}

pub record Calendar (L : Type 0) : Type 0 where
  pub utc : L
  pub load_location : String → Option L
  pub offset : L → Time → ℤ  -- seconds east of UTC that are in force at an instant
  pub date : L → ℤ → Time  -- time.Date of a local time

-- Division and remainder that round down.
unfoldable pub floor_div : ℤ → ℕ → ℤ
floor_div (pos n) k = pos (n / k)
floor_div (negsuc n) k = negsuc (n / k)

unfoldable pub floor_mod : ℤ → ℕ → ℕ
floor_mod (pos n) k = n % k
floor_mod (negsuc n) k = k - 1 - n % k

abbrev pub day_seconds : ℕ
day_seconds = 86400

pub record Window (L : Type 0) : Type 0 where
  pub days : Map ℕ Bool
  pub start : ℕ
  pub end : ℕ
  pub loc : L

-- A weekday that the map lacks reads as false.
abbrev pub is_set : Option Bool → Bool
is_set none = false
is_set (some b) = b

unfoldable pub has_day : Map ℕ Bool → ℕ → Bool
has_day days wd = is_set (lookup wd days)

-- The day number of a local time, its weekday (Sunday is 0), and its minute of the day.
unfoldable pub day_of : ℤ → ℤ
day_of s = floor_div s day_seconds

unfoldable pub weekday_of : ℤ → ℕ
weekday_of s = floor_mod (day_of s +ℤ pos 1) 7

unfoldable pub minute_of : ℤ → ℕ
minute_of s = floor_mod s day_seconds / 60

module _ {L : Type 0} (cal : Calendar L) where
  -- t.In(loc), as a local time.
  unfoldable pub local : L → Time → ℤ
  local l t = floor_div t second +ℤ cal.offset l t

  unfoldable pub contains : Window L → Time → Bool
  contains w t =
      let s = local w.loc t in
      let m = minute_of s in
      if not (has_day w.days (weekday_of s)) then false else leb w.start m && ltb m w.end

  -- Windows.IsAllowed.
  unfoldable pub any_contains : List (Window L) → Time → Bool
  any_contains [] t = false
  any_contains (w ∷ ws) t = let rest = any_contains ws t in if contains w t then true else rest

  unfoldable pub is_allowed : List (Window L) → Time → Bool
  is_allowed [] t = true
  is_allowed (w ∷ ws) t = any_contains (w ∷ ws) t

  -- The day `off` days on, and the opening on it.
  unfoldable pub day_at : Window L → Time → ℕ → ℤ
  day_at w t off = local w.loc (cal.date w.loc (local w.loc t +ℤ pos (off * day_seconds)))

  -- The first second of a day.
  unfoldable pub day_start : ℤ → ℤ
  day_start (pos n) = pos (n * day_seconds)
  day_start (negsuc n) = negsuc (suc n * day_seconds - 1)

  unfoldable pub opening_at : Window L → Time → ℕ → Time
  opening_at w t off = cal.date w.loc (day_start (day_of (day_at w t off)) +ℤ pos (w.start * 60))

  -- The loop of nextOpening over the days that are left.
  unfoldable pub scan : Window L → Time → ℕ → ℕ → Time
  scan w t off zero = zero_time
  scan w t off (suc left) =
      let rest = scan w t (off + 1) left in
      if not (has_day w.days (weekday_of (day_at w t off)))
      then rest
      else if after (opening_at w t off) t
      then opening_at w t off
      else rest

  unfoldable pub next_opening_of : Window L → Time → Time
  next_opening_of w t = scan w t 0 8

  -- Windows.NextOpening, from the best so far.
  unfoldable pub earliest : Time → List (Window L) → Time → Time
  earliest best [] t = best
  earliest best (w ∷ ws) t =
      let c = next_opening_of w t in
      earliest
        (if not (is_zero c) && (if is_zero best then true else before c best) then c else best) ws t

  unfoldable pub next_opening : List (Window L) → Time → Time
  next_opening ws t = earliest zero_time ws t
