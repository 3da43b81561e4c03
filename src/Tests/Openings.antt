-- ===== src/Tests/Openings.antt =====
-- The next opening of two windows.
use memory_leak_reloader.Base.{
  ℕ, String, some, ◌*◌, ◌<◌, ◌/◌, true, List, [], ◌∷◌, ◌≡◌, refl, sym, ap, ◌∙◌, arith, All, nat_eq,
}
use memory_leak_reloader.Base.Int.{
  pos, negsuc, ◌*ℤ◌, ◌<ℤ◌, eq_of_parts, pos_part, neg_part, sub_ℕ, int_laws,
}
use memory_leak_reloader.Base.Time.{Time, second}
use memory_leak_reloader.Base.Map.{lookup}
use memory_leak_reloader.Maintenance.{
  Window, is_allowed, next_opening, next_opening_of, local, floor_div, has_day,
}
use memory_leak_reloader.Maintenance.Reach.{IsExact, next_opening_of-reaches}
use memory_leak_reloader.Maintenance.Allowed.{IsUsable, next_opening-allowed}
use memory_leak_reloader.Maintenance.Parse.{parse_string}
use memory_leak_reloader.Maintenance.Parsed.{IsWindow, parse_string-IsWindow}
use memory_leak_reloader.Tests.Values.{calendar}

-- Monday from two to four, and Wednesday from one to two.
abbrev windows : List (Window (Unit {0}))
windows =
    record { days = (1, true) ∷ []; start = 120; end = 240; loc = tt }
    ∷ record { days = (3, true) ∷ []; start = 60; end = 120; loc = tt }
    ∷ []

mul_seconds : (n : ℕ) → pos n *ℤ pos 1000000000 ≡ pos (n * 1000000000)
unfolding ◌*ℤ◌ pos_part neg_part sub_ℕ
mul_seconds n = ground arith

local-calendar : (t : Time) → local calendar tt t ≡ floor_div t second
unfolding local
local-calendar t = eq_of_parts _ _ (omega int_laws)

late_in : (n m : ℕ) (t : Time) → floor_div t second ≡ pos n → n < m → t <ℤ pos (m * 1000000000)
unfolding floor_div pos_part neg_part
late_in n m (pos k) h l = let e : k / 1000000000 ≡ n = cc h in omega (arith, e)
late_in n m (negsuc k) h l = omega arith

calendar-IsExact : IsExact calendar tt
unfolding floor_div
calendar-IsExact = record {
  local_date = λ n. local-calendar _ ∙ rw (mul_seconds n) (ap pos (omega arith));
  date_later = λ n m t h l. rw (mul_seconds m) (late_in n m t (sym (local-calendar t) ∙ h) l);
}

-- Two seconds after Monday's window has opened.
abbrev monday : Window (Unit {0})
monday = record { days = (1, true) ∷ []; start = 0; end = 60; loc = tt }

is_local : local calendar tt (pos 2000000000) ≡ pos 2
unfolding floor_div
is_local = local-calendar (pos 2000000000)

is_set_monday : has_day monday.days 1 ≡ true
unfolding has_day lookup
is_set_monday = refl

next_opening_of-reaches_example : pos 2000000000 <ℤ next_opening_of calendar monday (pos 2000000000)
next_opening_of-reaches_example =
    next_opening_of-reaches calendar monday (pos 2000000000) 2 1 calendar-IsExact is_local
      (omega arith) is_set_monday

abbrev flag : String
flag = "Mon 09:00-17:00 UTC; Sat 10:00-12:30 UTC"

abbrev parsed : List (Window (Unit {0}))
parsed =
    record { days = (1, true) ∷ []; start = 540; end = 1020; loc = tt }
    ∷ record { days = (6, true) ∷ []; start = 600; end = 750; loc = tt }
    ∷ []

is_parsed : parse_string calendar flag ≡ some parsed
unfolding parse_string
is_parsed = refl

parse_string-IsWindow_example : All (IsWindow calendar) parsed
parse_string-IsWindow_example = parse_string-IsWindow calendar flag parsed is_parsed

usable : All (IsUsable calendar (pos 2000000000)) parsed
unfolding has_day lookup
usable = (
  record {
    exact = calendar-IsExact;
    clock = 2;
    here = is_local;
    wd = 1;
    is_weekday = omega arith;
    on_day = refl;
    opens = omega arith;
    closes = omega arith;
  },
  (
    record {
      exact = calendar-IsExact;
      clock = 2;
      here = is_local;
      wd = 6;
      is_weekday = omega arith;
      on_day = refl;
      opens = omega arith;
      closes = omega arith;
    },
    tt,
  ),
)

next_opening-allowed_example :
    (is_allowed calendar parsed (next_opening calendar parsed (pos 2000000000)) ≡ true)
    × (pos 2000000000 <ℤ next_opening calendar parsed (pos 2000000000))
next_opening-allowed_example =
    next_opening-allowed calendar parsed (pos 2000000000) (λ e. absurd (cc e)) (omega int_laws)
      usable
