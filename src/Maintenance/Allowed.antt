-- ===== src/Maintenance/Allowed.antt =====
-- The next opening of the maintenance windows is a time at which a restart is allowed
-- (internal/maintenance/window.go).
use memory_leak_reloader.Base.{
  ℕ, ◌+◌, ◌*◌, ◌/◌, ◌%◌, ◌<◌, ◌≤◌, true, false, List, [], ◌∷◌, ◌≡◌, ◌≢◌, refl, ap, ◌∙◌, arith, All,
}
use memory_leak_reloader.Base.Int.{pos, pos_part, neg_part, ◌<ℤ◌, ◌≤ℤ◌, int_eq}
use memory_leak_reloader.Base.Time.{Time, is_zero, zero_time}
use memory_leak_reloader.Maintenance.{
  Calendar, Window, has_day, weekday_of, minute_of, day_of, day_at, floor_div, floor_mod, local,
  contains, any_contains, is_allowed, next_opening_of, earliest, next_opening,
}
use memory_leak_reloader.Maintenance.Opening.{choice, earliest-keeps}
use memory_leak_reloader.Maintenance.Reach.{
  IsExact, Opened, next_opening_of-Opened, weekday_at, weekday_of-pos, opening_at-pos, pos_add,
}

module _ {L : Type 0} (cal : Calendar L) where
  -- A window as parseWindow makes it, with a day, whose local time at `t` is not before year 1.
  pub record IsUsable (t : Time) (w : Window L) : Type 0 where
    pub exact : IsExact cal w.loc
    pub clock : ℕ
    pub here : local cal w.loc t ≡ pos clock
    pub wd : ℕ
    pub is_weekday : wd < 7
    pub on_day : has_day w.days wd ≡ true
    pub opens : w.start < w.end
    pub closes : w.end ≤ 1440

  minute_of-pos : (d m : ℕ) → m < 1440 → minute_of (pos (d * 86400 + m * 60)) ≡ m
  unfolding minute_of floor_mod
  minute_of-pos d m h = omega arith

  day_start-weekday : (d m : ℕ) → m < 1440 → weekday_of (pos (d * 86400 + m * 60)) ≡ (d + 1) % 7
  unfolding weekday_of day_of floor_div floor_mod
  day_start-weekday d m h = rw (pos_add cal ((d * 86400 + m * 60) / 86400) 1) (omega arith)

  Opened-contains :
      (w : Window L) (t o : Time) → IsUsable t w → Opened cal w t o → contains cal w o ≡ true
  unfolding contains
  Opened-contains w t o u h =
      let d = u.clock / 86400 + h.off in
      let at : local cal w.loc o ≡ pos (d * 86400 + w.start * 60) =
        ap (local cal w.loc) (h.opening ∙ opening_at-pos cal w t u.clock h.off u.exact u.here)
        ∙ u.exact.local_date (d * 86400 + w.start * 60) in
      let same_day : weekday_of (day_at cal w t h.off) ≡ (d + 1) % 7 =
        ap weekday_of (weekday_at cal w t u.clock h.off u.exact u.here)
        ∙ weekday_of-pos cal u.clock h.off in
      let set : has_day w.days ((d + 1) % 7) ≡ true = rw same_day at h.on_day in
      let in_day : w.start < 1440 = omega (arith, u.opens, u.closes) in
      rw (at, day_start-weekday d w.start in_day, minute_of-pos d w.start in_day, set)
        (ground (arith, u.opens))

  next_opening_of-contains :
      (w : Window L) (t : Time)
      → IsUsable t w
      → (contains cal w (next_opening_of cal w t) ≡ true) × (t <ℤ next_opening_of cal w t)
  next_opening_of-contains w t u =
      let o = next_opening_of-Opened cal w t u.clock u.wd u.exact u.here u.is_weekday u.on_day in
      (Opened-contains w t (next_opening_of cal w t) u o, o.later)

  later_chosen : (t c : Time) → pos 0 ≤ℤ t → t <ℤ c → choice zero_time c ≡ c
  unfolding pos_part neg_part
  later_chosen t c now h = let there : is_zero c ≡ false = ground arith in rw there refl

  -- A time that one of the windows allows, after `t`.
  abbrev Allows : List (Window L) → Time → Time → Type 0
  Allows ws t o = (any_contains cal ws o ≡ true) × (t <ℤ o)

  All-Allows-cons :
      (w : Window L) (ws vs : List (Window L)) (t : Time)
      → All (λ v. Allows ws t (next_opening_of cal v t)) vs
      → All (λ v. Allows (w ∷ ws) t (next_opening_of cal v t)) vs
  unfolding any_contains
  All-Allows-cons w ws [] t h = tt
  All-Allows-cons w ws (v ∷ vs) t h =
      ((ground (arith, h.0.0), h.0.1), All-Allows-cons w ws vs t h.1)

  All-Allows :
      (ws : List (Window L)) (t : Time)
      → All (IsUsable t) ws
      → All (λ v. Allows ws t (next_opening_of cal v t)) ws
  unfolding any_contains
  All-Allows [] t h = tt
  All-Allows (w ∷ ws) t h =
      let one = next_opening_of-contains w t h.0 in
      ((rw one.0 refl, one.1), All-Allows-cons w ws ws t (All-Allows ws t h.1))

  -- At a time that is not before the zero Time, let every window of a list that is not empty have a
  -- weekday, start before it ends within the day, and lie in an exact location in which the local
  -- time is not before year 1. Then NextOpening is a later time at which the windows allow a restart:
  -- one that is deferred until then is let through.
  pub next_opening-allowed :
      (ws : List (Window L)) (t : Time)
      → ws ≢ []
      → pos 0 ≤ℤ t
      → All (IsUsable t) ws
      → (is_allowed cal ws (next_opening cal ws t) ≡ true) × (t <ℤ next_opening cal ws t)
  unfolding is_allowed next_opening earliest
  next_opening-allowed [] t some_window now h = absurd (some_window refl)
  next_opening-allowed (w ∷ ws) t some_window now h =
      let (first, rest) = All-Allows (w ∷ ws) t h in
      let c = next_opening_of cal w t in
      let chosen : choice zero_time c ≡ c = later_chosen t c now first.1 in
      rw chosen (earliest-keeps cal (Allows (w ∷ ws) t) ws c t first rest)
