-- ===== src/Maintenance/Shown.antt =====
-- Windows.String (internal/maintenance/window.go). sort.Strings and the name of a location are parameters.
use memory_leak_reloader.Base.{List, [], ◌∷◌, ◌++◌}
use memory_leak_reloader.Strings.{Text, codes}
use memory_leak_reloader.Maintenance.{Window}
use memory_leak_reloader.Maintenance.Print.{print_days, print_hhmm}

-- strings.Join(parts, "; ").
unfoldable pub join_parts : List Text → Text
join_parts [] = []
join_parts (p ∷ []) = p
join_parts (p ∷ q ∷ ps) = p ++ b';' ∷ b' ' ∷ join_parts (q ∷ ps)

module _ {L : Type 0} (sort : List Text → List Text) (zone : L → Text) where
  unfoldable pub window_text : Window L → Text
  unfolding print_days print_hhmm
  window_text w =
      print_days w.days
      ++ b' ' ∷ (print_hhmm w.start ++ b'-' ∷ (print_hhmm w.end ++ b' ' ∷ zone w.loc))

  abbrev pub window_texts : List (Window L) → List Text
  window_texts [] = []
  window_texts (w ∷ ws) = window_text w ∷ window_texts ws

  unfoldable pub windows_text : List (Window L) → Text
  unfolding window_text join_parts
  windows_text [] = codes "always"
  windows_text (w ∷ ws) = join_parts (sort (window_texts (w ∷ ws)))
