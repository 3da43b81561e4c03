-- ===== src/Maintenance/Reach.antt =====
-- NextOpening looks far enough ahead (internal/maintenance/window.go): the eight days of its loop
-- reach an opening of every window that has a day.
use memory_leak_reloader.Base.{
  ℕ, zero, suc, ◌+◌, ◌-◌, ◌*◌, ◌/◌, ◌%◌, ◌<◌, ◌≤◌, true, ◌≡◌, refl, ap, ◌∙◌, arith, not, if_both,
  ltb, Bool-cases, inl, inr, subst,
}
use memory_leak_reloader.Base.Int.{eq_of_parts, pos, ◌<ℤ◌, ◌+ℤ◌, int_laws}
use memory_leak_reloader.Base.Time.{Time, after}
use memory_leak_reloader.Maintenance.{
  Calendar, Window, has_day, weekday_of, day_of, day_at, day_start, day_seconds, floor_div,
  floor_mod, local, opening_at, scan, next_opening_of,
}

-- Each weekday comes within the seven days after a day.
day_within_week : (a wd : ℕ) → wd < 7 → (off : ℕ) × (1 ≤ off) × (off < 8) × ((a + off + 1) % 7 ≡ wd)
day_within_week a wd h = elim (Bool-cases (ltb ((a + 1) % 7) wd)) [
  | inl later ↦ (wd - (a + 1) % 7, ground arith, omega arith, ground arith)
  | inr not_later ↦ (wd + 7 - (a + 1) % 7, omega arith, ground arith, ground arith)
]

module _ {L : Type 0} (cal : Calendar L) where
  -- A location without transitions: a local time is that of its instant, and a later local time is
  -- one of a later instant.
  pub record IsExact (l : L) : Type 0 where
    pub local_date : (n : ℕ) → local cal l (cal.date l (pos n)) ≡ pos n
    pub date_later : (n m : ℕ) (t : Time) → local cal l t ≡ pos n → n < m → t <ℤ cal.date l (pos m)

  -- An opening of the window after `t`, on a day that it has.
  pub record Opened (w : Window L) (t : Time) (o : Time) : Type 0 where
    pub off : ℕ
    pub opening : o ≡ opening_at cal w t off
    pub on_day : has_day w.days (weekday_of (day_at cal w t off)) ≡ true
    pub later : t <ℤ o

  pub hit-Opened :
      (w : Window L) (t : Time) (off : ℕ)
      → has_day w.days (weekday_of (day_at cal w t off)) ≡ true
      → after (opening_at cal w t off) t ≡ true
      → Opened w t (opening_at cal w t off)
  hit-Opened w t off set late = record {
    off = off;
    opening = refl;
    on_day = set;
    later = ground (arith, late);
  }

  scan-Opened :
      (w : Window L) (t : Time) (off left j : ℕ)
      → off ≤ j
      → j < off + left
      → has_day w.days (weekday_of (day_at cal w t j)) ≡ true
      → after (opening_at cal w t j) t ≡ true
      → Opened w t (scan cal w t off left)
  unfolding scan
  scan-Opened w t off zero j h k set late = absurd (omega arith)
  scan-Opened w t off (suc left) j h k set late = elim (Bool-cases (ltb off j)) [
    | inl ahead ↦
        let rest = scan-Opened w t (off + 1) left j (ground arith) (omega arith) set late in
        if_both (Opened w t) (not (has_day w.days (weekday_of (day_at cal w t off)))) _ _
          (λ e. rest)
          (λ e.
            if_both (Opened w t) (after (opening_at cal w t off) t) (opening_at cal w t off) _
              (λ f. hit-Opened w t off (ground (arith, e)) f) (λ f. rest))
    | inr here ↦
        let same : j ≡ off = ground arith in
        let set' = subst (λ i. has_day w.days (weekday_of (day_at cal w t i)) ≡ true) same set in
        let late' = subst (λ i. after (opening_at cal w t i) t ≡ true) same late in
        rw (set', late') (hit-Opened w t off set' late')
  ]

  pub pos_add : (a b : ℕ) → pos a +ℤ pos b ≡ pos (a + b)
  pos_add a b = eq_of_parts (pos a +ℤ pos b) (pos (a + b)) (omega int_laws)

  pub weekday_at :
      (w : Window L) (t : Time) (n off : ℕ)
      → IsExact w.loc
      → local cal w.loc t ≡ pos n
      → day_at cal w t off ≡ pos (n + off * 86400)
  unfolding day_at
  weekday_at w t n off x here =
      rw (here, pos_add n (off * day_seconds)) (x.local_date (n + off * 86400))

  pub weekday_of-pos : (n off : ℕ) → weekday_of (pos (n + off * 86400)) ≡ (n / 86400 + off + 1) % 7
  unfolding weekday_of day_of floor_div floor_mod
  weekday_of-pos n off = rw (pos_add ((n + off * 86400) / 86400) 1) (omega arith)

  pub opening_at-pos :
      (w : Window L) (t : Time) (n off : ℕ)
      → IsExact w.loc
      → local cal w.loc t ≡ pos n
      → opening_at cal w t off ≡ cal.date w.loc (pos ((n / 86400 + off) * 86400 + w.start * 60))
  unfolding opening_at day_start floor_mod day_of floor_div
  opening_at-pos w t n off x here =
      ap (λ d. cal.date w.loc (day_start cal (day_of d) +ℤ pos (w.start * 60)))
        (weekday_at w t n off x here)
      ∙ ap (cal.date w.loc) (pos_add ((n + off * 86400) / 86400 * 86400) (w.start * 60))
      ∙ ap (λ m. cal.date w.loc (pos m)) (omega arith)

  pub next_opening_of-Opened :
      (w : Window L) (t : Time) (n wd : ℕ)
      → IsExact w.loc
      → local cal w.loc t ≡ pos n
      → wd < 7
      → has_day w.days wd ≡ true
      → Opened w t (next_opening_of cal w t)
  unfolding next_opening_of
  next_opening_of-Opened w t n wd x here h set =
      let (off, ahead, near, hits) = day_within_week (n / 86400) wd h in
      let late : t <ℤ opening_at cal w t off =
        rw (opening_at-pos w t n off x here) (x.date_later n _ t here (omega arith)) in
      scan-Opened w t 0 8 off (omega arith) near
        (rw (weekday_at w t n off x here, weekday_of-pos n off, hits) set) (ground (arith, late))

  -- In an exact location, at an instant whose local time is not before year 1, a window with a day of
  -- the week has a next opening, which is after that instant: the eight rounds of the loop are enough.
  pub next_opening_of-reaches :
      (w : Window L) (t : Time) (n wd : ℕ)
      → IsExact w.loc
      → local cal w.loc t ≡ pos n
      → wd < 7
      → has_day w.days wd ≡ true
      → t <ℤ next_opening_of cal w t
  next_opening_of-reaches w t n wd x here h set =
      (next_opening_of-Opened w t n wd x here h set).later
