-- ===== src/Maintenance/Opening.antt =====
-- The next opening of the maintenance windows (internal/maintenance/window.go, NextOpening).
use mathlib.Core.List.{Memᴰ}
use memory_leak_reloader.Base.{
  true, List, [], ◌∷◌, ◌≡◌, ◌≢◌, ◌⊎◌, if_both, not, ◌&&◌, if◌then◌else◌, All,
}
use memory_leak_reloader.Base.Int.{◌≤ℤ◌, ◌<ℤ◌, int_eq}
use memory_leak_reloader.Base.Time.{Time, before, is_zero, zero_time}
use memory_leak_reloader.Maintenance.{Calendar, Window, next_opening_of, earliest}
use memory_leak_reloader.Maintenance.Reach.{Opened}

-- No opening, or one after `t`.
abbrev pub Ahead : Time → Time → Type 0
Ahead t o = (o ≡ zero_time) ⊎ (t <ℤ o)

-- `x` is no opening, or `o` is one that is not later.
abbrev pub Before : Time → Time → Type 0
Before o x = (x ≡ zero_time) ⊎ ((o ≢ zero_time) × (o ≤ℤ x))

-- The choice between the best opening so far and a candidate.
abbrev pub choice : Time → Time → Time
choice best c =
    if not (is_zero c) && (if is_zero best then true else before c best) then c else best

module _ {L : Type 0} (cal : Calendar L) where
  -- What holds of the best so far and of each window's next opening holds of the earliest.
  pub earliest-keeps :
      (G : Time → Type 0) (ws : List (Window L)) (best t : Time)
      → G best
      → All (λ w. G (next_opening_of cal w t)) ws
      → G (earliest cal best ws t)
  unfolding earliest
  earliest-keeps G [] best t g h = g
  earliest-keeps G (w ∷ ws) best t g h =
      let c = next_opening_of cal w t in
      earliest-keeps G ws (choice best c) t
        (if_both G (not (is_zero c) && (if is_zero best then true else before c best)) c best
          (λ e. h.0) (λ e. g))
        h.1

  -- No opening, or an opening of one of the windows: on a day of that window, at its start, after `t`.
  abbrev pub Found : List (Window L) → Time → Time → Type 0
  Found ws t o = (o ≡ zero_time) ⊎ ((w : Window L) × Memᴰ w ws × Opened cal w t o)
