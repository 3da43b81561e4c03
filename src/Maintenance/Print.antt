-- ===== src/Maintenance/Print.antt =====
-- The texts of a window's days and times (internal/maintenance/window.go, Windows.String), without the
-- zone, the sorting and the joining of the windows; and that the parsers read them back.
use memory_leak_reloader.Base.{
  ℕ, zero, suc, ◌+◌, ◌*◌, ◌/◌, ◌%◌, ◌<◌, String, Bool, true, false, Option, none, some, List, [],
  ◌∷◌, ◌++◌, ◌≡◌, refl, ap, ◌∙◌, ◌==◌, nat_eq, string_eq, bool_eq, if◌then◌else◌, ◌&&◌, ◌||◌, not,
  leb, ltb, arith,
}
use memory_leak_reloader.Base.Map.{Map, insert, lookup}
use memory_leak_reloader.Strings.{
  Text, trim_space, trim_left, trim_right, is_space, to_lower, split, cut,
}
use memory_leak_reloader.Maintenance.{Calendar, Window, has_day}
use memory_leak_reloader.Maintenance.Parse.{
  digit, parse_minute, parse_hour, parse_hhmm, join_days, parse_days, parse_tokens, token_days,
  weekdays, expand_range, set_days, every_day, location, parse_window,
}

-- fmt's %02d of a number below 100.
abbrev pub two_digits : ℕ → Text
two_digits n = (b'0' + n / 10) ∷ (b'0' + n % 10) ∷ []

unfoldable pub print_hhmm : ℕ → Text
print_hhmm m = two_digits (m / 60) ++ b':' ∷ two_digits (m % 60)

digit-of : (d : ℕ) → d < 10 → digit (b'0' + d) ≡ some d
unfolding digit
digit-of d h = ground arith

no_space : (d : ℕ) → d < 10 → is_space (b'0' + d) ≡ false
unfolding is_space
no_space d h = ground arith

-- The clock time of four digits.
abbrev clock : ℕ → ℕ → ℕ → ℕ → Text
clock a b c d = (b'0' + a) ∷ (b'0' + b) ∷ b':' ∷ (b'0' + c) ∷ (b'0' + d) ∷ []

trim_space-clock : (a b c d : ℕ) → a < 10 → d < 10 → trim_space (clock a b c d) ≡ clock a b c d
unfolding trim_space trim_left trim_right
trim_space-clock a b c d h k = rw (no_space a h, no_space d k) refl

parse_hour-clock :
    (a b c d : ℕ)
    → a < 10
    → b < 10
    → c < 10
    → d < 10
    → a * 10 + b < 24
    → c * 10 + d < 60
    → parse_hour (clock a b c d) ≡ some ((a * 10 + b) * 60 + (c * 10 + d))
unfolding parse_hour parse_minute
parse_hour-clock a b c d ha hb hc hd h m =
    let digit_b : ((b'0' + b) == b':') ≡ false = ground arith in
    let hour : ltb (a * 10 + b) 24 ≡ true = ground arith in
    let minute : ltb (c * 10 + d) 60 ≡ true = ground arith in
    rw (digit_b, digit-of a ha, digit-of b hb, digit-of c hc, digit-of d hd, hour, minute) refl

-- A minute of the day is read back from its text.
pub parse_hhmm-print : (m : ℕ) → m < 1440 → parse_hhmm (print_hhmm m) ≡ some m
unfolding parse_hhmm print_hhmm
parse_hhmm-print m h =
    let a = m / 60 / 10 in
    let b = m / 60 % 10 in
    let c = m % 60 / 10 in
    let d = m % 60 % 10 in
    rw (trim_space-clock a b c d (omega arith) (omega arith)) (
      parse_hour-clock a b c d (omega arith) (omega arith) (omega arith) (omega arith) (omega arith)
        (omega arith)
      ∙ ap some (omega arith))

-- The names of the days that are set, in weekdayOrder.
abbrev pub picked : List (Bool × String) → List String
picked [] = []
picked ((b, name) ∷ ds) = let rest = picked ds in if b then name ∷ rest else rest

abbrev pub week : Bool → Bool → Bool → Bool → Bool → Bool → Bool → List (Bool × String)
week b0 b1 b2 b3 b4 b5 b6 =
    (b0, "Sun")
    ∷ (b1, "Mon")
    ∷ (b2, "Tue")
    ∷ (b3, "Wed")
    ∷ (b4, "Thu")
    ∷ (b5, "Fri")
    ∷ (b6, "Sat")
    ∷ []

unfoldable pub print_days : Map ℕ Bool → Text
unfolding has_day
print_days days = join_days (
    picked (
      week (has_day days 0) (has_day days 1) (has_day days 2) (has_day days 3) (has_day days 4)
        (has_day days 5) (has_day days 6)))

abbrev agrees : Bool → Bool → Bool → Bool → Bool → Bool → Bool → Option (Map ℕ Bool) → Bool
agrees b0 b1 b2 b3 b4 b5 b6 none = false
agrees b0 b1 b2 b3 b4 b5 b6 (some m) =
    (has_day m 0 == b0)
    && (has_day m 1 == b1)
    && (has_day m 2 == b2)
    && (has_day m 3 == b3)
    && (has_day m 4 == b4)
    && (has_day m 5 == b5)
    && (has_day m 6 == b6)

abbrev reads_back : Bool → Bool → Bool → Bool → Bool → Bool → Bool → Bool
reads_back b0 b1 b2 b3 b4 b5 b6 =
    not (b0 || b1 || b2 || b3 || b4 || b5 || b6)
    || agrees b0 b1 b2 b3 b4 b5 b6 (parse_days (join_days (picked (week b0 b1 b2 b3 b4 b5 b6))))

abbrev both : (Bool → Bool) → Bool
both p = p true && p false

both-elim : (p : Bool → Bool) (b : Bool) → both p ≡ true → p b ≡ true
both-elim p true h = ground arith
both-elim p false h = ground arith

-- All sets of days.
all_sets :
    both (λ b0. both (λ b1.
      both (λ b2.
        both (λ b3. both (λ b4. both (λ b5. both (λ b6. reads_back b0 b1 b2 b3 b4 b5 b6)))))))
    ≡ true
unfolding parse_days parse_tokens token_days weekdays expand_range set_days every_day has_day lookup
    insert trim_space trim_left trim_right is_space to_lower split cut join_days
all_sets = refl

reads_back-all : (b0 b1 b2 b3 b4 b5 b6 : Bool) → reads_back b0 b1 b2 b3 b4 b5 b6 ≡ true
reads_back-all b0 b1 b2 b3 b4 b5 b6 =
    both-elim (λ b. reads_back b0 b1 b2 b3 b4 b5 b) b6
      (both-elim (λ b. both (reads_back b0 b1 b2 b3 b4 b)) b5
        (both-elim (λ b. both (λ f. both (reads_back b0 b1 b2 b3 b f))) b4
          (both-elim (λ b. both (λ e. both (λ f. both (reads_back b0 b1 b2 b e f)))) b3
            (both-elim (λ b. both (λ d. both (λ e. both (λ f. both (reads_back b0 b1 b d e f))))) b2
              (both-elim
                (λ b.
                  both (λ c. both (λ d. both (λ e. both (λ f. both (reads_back b0 b c d e f))))))
                b1
                (both-elim
                  (λ b. both (λ a.
                    both (λ c. both (λ d. both (λ e. both (λ f. both (reads_back b a c d e f)))))))
                  b0 all_sets))))))

-- A week has seven days; at least one is set.
abbrev pub any_day : Map ℕ Bool → Bool
any_day m =
    has_day m 0
    || has_day m 1
    || has_day m 2
    || has_day m 3
    || has_day m 4
    || has_day m 5
    || has_day m 6

-- A map with the days of another.
abbrev pub SameDays : Map ℕ Bool → Map ℕ Bool → Type 0
SameDays m n = (wd : ℕ) → wd < 7 → has_day m wd ≡ has_day n wd

same_days :
    (m n : Map ℕ Bool)
    → agrees
        (has_day n 0)
        (has_day n 1)
        (has_day n 2)
        (has_day n 3)
        (has_day n 4)
        (has_day n 5)
        (has_day n 6)
        (some m)
      ≡ true
    → SameDays m n
same_days m n h zero k = ground arith
same_days m n h (suc zero) k = ground arith
same_days m n h (suc (suc zero)) k = ground arith
same_days m n h (suc (suc (suc zero))) k = ground arith
same_days m n h (suc (suc (suc (suc zero)))) k = ground arith
same_days m n h (suc (suc (suc (suc (suc zero))))) k = ground arith
same_days m n h (suc (suc (suc (suc (suc (suc zero)))))) k = ground arith
same_days m n h (suc (suc (suc (suc (suc (suc (suc wd))))))) k = absurd (omega arith)

-- A set of days is read back from its text.
parse_days-print :
    (days : Map ℕ Bool)
    → any_day days ≡ true
    → (m : Map ℕ Bool) × (parse_days (print_days days) ≡ some m) × SameDays m days
unfolding print_days
parse_days-print days h =
    let all =
      reads_back-all (has_day days 0) (has_day days 1) (has_day days 2) (has_day days 3)
        (has_day days 4) (has_day days 5) (has_day days 6) in
    found (parse_days (print_days days)) refl (rw h at all)
  where
    found :
        (o : Option (Map ℕ Bool))
        → parse_days (print_days days) ≡ o
        → agrees
            (has_day days 0)
            (has_day days 1)
            (has_day days 2)
            (has_day days 3)
            (has_day days 4)
            (has_day days 5)
            (has_day days 6)
            o
          ≡ true
        → (m : Map ℕ Bool) × (parse_days (print_days days) ≡ some m) × SameDays m days
    found none e k = absurd (cc k)
    found (some m) e k = (m, e, same_days m days k)

module _ {L : Type 0} (cal : Calendar L) where
  -- A window with at least one day, whose start is before its end and its end in the day, and whose
  -- zone the zone name stands for, is read back from the texts of its days, start and end: with the
  -- same days, start, end and zone.
  pub parse_window-print :
      (w : Window L) (tz : String)
      → any_day w.days ≡ true
      → w.start < w.end
      → w.end < 1440
      → location cal tz ≡ some w.loc
      → (v : Window L) × (parse_window cal
            (print_days w.days)
            (print_hhmm w.start)
            (print_hhmm w.end)
            tz
          ≡ some v)
        × SameDays v.days w.days
        × (v.start ≡ w.start)
        × (v.end ≡ w.end)
        × (v.loc ≡ w.loc)
  unfolding parse_window
  parse_window-print w tz days order late loc =
      let (m, read, same) = parse_days-print w.days days in
      let valid : leb w.end w.start ≡ false = ground arith in
      (
        record { days = m; start = w.start; end = w.end; loc = w.loc },
        rw (read, parse_hhmm-print w.start (omega arith), parse_hhmm-print w.end late, valid, loc)
            refl,
        same,
        refl,
        refl,
        refl,
      )
