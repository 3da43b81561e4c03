-- ===== src/Tests/Gates.antt =====
-- The gate on concrete calls.
use memory_leak_reloader.Base.{true, List, [], ◌∷◌, ◌≡◌, ◌≢◌, refl, string_eq}
use memory_leak_reloader.Base.Int.{pos, int_laws}
use memory_leak_reloader.Base.Map.{has, distinct}
use memory_leak_reloader.Gate.{Gate, cap_reached, try_acquire, release, holds}
use memory_leak_reloader.Gate.Laws.{IsValid, Answers, try_acquire-Answers, release_makes_room}
use memory_leak_reloader.Gate.Steps.{Call, acquires, releases, expires}

abbrev full : Gate
full = record { cap = pos 1; inflight = ("Deployment/shop/web", pos 5) ∷ [] }

abbrev calls : List Call
calls = acquires "a" (pos 1) ∷ acquires "b" (pos 2) ∷ expires (pos 30) (pos 20) ∷ releases "b" ∷ []

full-IsValid : IsValid full
unfolding distinct has
full-IsValid = record { one_each = refl; bounded = λ h. omega int_laws }

try_acquire-Answers_example :
    Answers full "Deployment/shop/api" (pos 9) (try_acquire full "Deployment/shop/api" (pos 9))
try_acquire-Answers_example = try_acquire-Answers full "Deployment/shop/api" (pos 9)

full-holds : holds full "Deployment/shop/web" ≡ true
unfolding holds has
full-holds = refl

release_makes_room_example :
    (try_acquire (release full "Deployment/shop/web") "Deployment/shop/api" (pos 9)).0 ≢ cap_reached
release_makes_room_example =
    release_makes_room full "Deployment/shop/web" "Deployment/shop/api" (pos 9) full-IsValid
      full-holds
