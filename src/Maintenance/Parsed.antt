-- ===== src/Maintenance/Parsed.antt =====
-- What the parsers of internal/maintenance/window.go let through.
use memory_leak_reloader.Base.{
  ℕ, ◌+◌, ◌*◌, ◌<◌, String, Bool, false, Option, none, some, List, [], ◌∷◌, ◌≡◌, refl, subst, arith,
  ◌==◌, nat_eq, string_eq, if◌then◌else◌, leb, All, Bool-cases, inl, inr,
}
use memory_leak_reloader.Base.Map.{Map}
use memory_leak_reloader.Strings.{
  Text, codes, cut_string, fields, trim_space, trim_string, split_string,
}
use memory_leak_reloader.Maintenance.{Calendar, Window}
use memory_leak_reloader.Maintenance.Parse.{
  ◌>>=◌, digit, parse_minute, parse_hour, parse_hhmm, parse_days, location, parse_window,
  range_window, fields_window, parse_parts, parse_string,
}

from_some :
    (P : ℕ → Type 0) (o : Option ℕ) (f : ℕ → Option ℕ)
    → ((x m : ℕ) → f x ≡ some m → P m)
    → (m : ℕ) → (o >>= f) ≡ some m
    → P m
from_some P none f h m e = absurd (cc e)
from_some P (some x) f h m e = h x m e

parse_minute-lt : (h : ℕ) (s : Text) (m : ℕ) → parse_minute h s ≡ some m → m < 1440
unfolding parse_minute
parse_minute-lt h [] m e = absurd (cc e)
parse_minute-lt h (a ∷ []) m e = absurd (cc e)
parse_minute-lt h (a ∷ b ∷ c ∷ s) m e = absurd (cc e)
parse_minute-lt h (a ∷ b ∷ []) m e =
    from_some (λ k. k < 1440) (digit a) _
      (λ x k e'. from_some (λ k'. k' < 1440) (digit b) _ (λ y k' e''. ground arith) k e') m e

parse_hour-lt : (s : Text) (m : ℕ) → parse_hour s ≡ some m → m < 1440
unfolding parse_hour
parse_hour-lt [] m e = absurd (cc e)
parse_hour-lt (a ∷ []) m e = absurd (cc e)
parse_hour-lt (a ∷ b ∷ []) m e = elim (Bool-cases (b == b':')) [
  | inl colon ↦
      from_some (λ k. k < 1440) (digit a) _ (λ x k q. parse_minute-lt x [] k q) m (rw colon at e)
  | inr other ↦ absurd (cc (rw other at e))
]
parse_hour-lt (a ∷ b ∷ c ∷ s) m e = elim (Bool-cases (b == b':')) [
  | inl colon ↦
      from_some (λ k. k < 1440) (digit a) _ (λ x k q. parse_minute-lt x (c ∷ s) k q) m
        (rw colon at e)
  | inr other ↦ elim (Bool-cases (c == b':')) [
    | inl colon ↦
        from_some (λ k. k < 1440) (digit a) _
          (λ x k q.
            from_some (λ k'. k' < 1440) (digit b) _
              (λ y k' q'. parse_minute-lt (x * 10 + y) s k' q') k q)
          m (rw (other, colon) at e)
    | inr none_there ↦ absurd (cc (rw (other, none_there) at e))
  ]
]

parse_hhmm-lt : (s : Text) (m : ℕ) → parse_hhmm s ≡ some m → m < 1440
unfolding parse_hhmm
parse_hhmm-lt s m e = parse_hour-lt (trim_space s) m e

module _ {L : Type 0} (cal : Calendar L) where
  -- A window in the day.
  pub record IsWindow (w : Window L) : Type 0 where
    pub order : w.start < w.end
    pub in_day : w.end < 1440

  window_of-IsWindow :
      (d : Option (Map ℕ Bool)) (s e : Option ℕ) (l : Option L) (w : Window L)
      → ((m : ℕ) → e ≡ some m → m < 1440)
      → (d >>= λ days. s >>= λ sm. e >>= λ em.
          if leb em sm
          then none
          else (l >>= λ loc. some (record { days = days; start = sm; end = em; loc = loc })))
        ≡ some w
      → IsWindow w
  window_of-IsWindow none s e l w h k = absurd (cc k)
  window_of-IsWindow (some days) none e l w h k = absurd (cc k)
  window_of-IsWindow (some days) (some sm) none l w h k = absurd (cc k)
  window_of-IsWindow (some days) (some sm) (some em) l w h k = elim (Bool-cases (leb em sm)) [
    | inl late ↦ absurd (cc (rw late at k))
    | inr fine ↦ located l fine (rw fine at k)
  ]
    where
      located :
          (o : Option L)
          → leb em sm ≡ false
          → (o >>= λ loc. some (record { days = days; start = sm; end = em; loc = loc })) ≡ some w
          → IsWindow w
      located none f q = absurd (cc q)
      located (some loc) f q =
          let same : record { days = days; start = sm; end = em; loc = loc } ≡ w = cc q in
          subst IsWindow same (record { order = ground arith; in_day = h em refl })

  parse_window-IsWindow :
      (days start end : Text) (tz : String) (w : Window L)
      → parse_window cal days start end tz ≡ some w
      → IsWindow w
  unfolding parse_window
  parse_window-IsWindow days start end tz w h =
      window_of-IsWindow (parse_days days) (parse_hhmm start) (parse_hhmm end) (location cal tz) w
        (λ m e. parse_hhmm-lt end m e) h

  range_window-IsWindow :
      (days tz : String) (r : Option (String × String)) (w : Window L)
      → range_window cal days r tz ≡ some w
      → IsWindow w
  range_window-IsWindow days tz none w h = absurd (cc h)
  range_window-IsWindow days tz (some (start, end)) w h =
      parse_window-IsWindow (codes days) (codes start) (codes end) tz w h

  fields_window-IsWindow :
      (fs : List String) (w : Window L) → fields_window cal fs ≡ some w → IsWindow w
  fields_window-IsWindow [] w h = absurd (cc h)
  fields_window-IsWindow (a ∷ []) w h = absurd (cc h)
  fields_window-IsWindow (a ∷ b ∷ []) w h = absurd (cc h)
  fields_window-IsWindow (a ∷ b ∷ c ∷ []) w h = range_window-IsWindow a c (cut_string b'-' b) w h
  fields_window-IsWindow (a ∷ b ∷ c ∷ d ∷ fs) w h = absurd (cc h)

  added-IsWindow :
      (o : Option (Window L)) (rest : Option (List (Window L))) (ws : List (Window L))
      → ((w : Window L) → o ≡ some w → IsWindow w)
      → ((vs : List (Window L)) → rest ≡ some vs → All IsWindow vs)
      → (o >>= λ w. rest >>= λ vs. some (w ∷ vs)) ≡ some ws
      → All IsWindow ws
  added-IsWindow none rest ws h k e = absurd (cc e)
  added-IsWindow (some w) none ws h k e = absurd (cc e)
  added-IsWindow (some w) (some vs) ws h k e =
      let same : w ∷ vs ≡ ws = cc e in subst (All IsWindow) same (h w refl, k vs refl)

  parse_parts-IsWindow :
      (ps : List String) (ws : List (Window L)) → parse_parts cal ps ≡ some ws → All IsWindow ws
  unfolding parse_parts
  parse_parts-IsWindow [] ws h = let same : [] ≡ ws = cc h in subst (All IsWindow) same tt
  parse_parts-IsWindow (p ∷ ps) ws h = elim (Bool-cases (trim_string p == "")) [
    | inl blank ↦ parse_parts-IsWindow ps ws (rw blank at h)
    | inr part ↦
        added-IsWindow (fields_window cal (fields (trim_string p))) (parse_parts cal ps) ws
          (λ w e. fields_window-IsWindow (fields (trim_string p)) w e)
          (λ vs e. parse_parts-IsWindow ps vs e) (rw part at h)
  ]

  -- Each window that the flag form is read as opens before it closes, within one day.
  pub parse_string-IsWindow :
      (s : String) (ws : List (Window L)) → parse_string cal s ≡ some ws → All IsWindow ws
  unfolding parse_string
  parse_string-IsWindow s ws h = elim (Bool-cases (trim_string s == "")) [
    | inl blank ↦ let same : [] ≡ ws = cc (rw blank at h) in subst (All IsWindow) same tt
    | inr text ↦ parse_parts-IsWindow (split_string b';' (trim_string s)) ws (rw text at h)
  ]
