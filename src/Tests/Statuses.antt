-- ===== src/Tests/Statuses.antt =====
-- The bookkeeping in a policy's status.
use memory_leak_reloader.Base.{
  String, true, false, none, some, List, [], ◌∷◌, ◌≡◌, ◌↔◌, refl, arith, string_eq, apart_of_beq,
}
use memory_leak_reloader.Base.Int.{pos, ◌≤ℤ◌, int_laws}
use memory_leak_reloader.Base.Word.{IsInt64}
use memory_leak_reloader.Base.Time.{Time}
use memory_leak_reloader.Api.{MemoryLeakPolicyStatus, InFlightRollout, RestartRecord}
use memory_leak_reloader.Restart.Breaker.{Cause, breaker_tripped, in_cooldown, adopt_workload}
use memory_leak_reloader.Restart.Breaker.History.{
  IsConsistent, Change, restarts, completes, adopts, recomputes, changes, changes-IsConsistent,
}
use memory_leak_reloader.Restart.Breaker.Budget.{attempts, counted, attempts_budget}
use memory_leak_reloader.Restart.Breaker.Laws.{IsTripped, breaker_tripped_iff, adopt_workload_fresh}
use memory_leak_reloader.Tests.Values.{library, fresh}

abbrev cause : Cause
cause = record { container = "app"; observed = pos 95; threshold = pos 80; mode = "sustained" }

fresh-IsConsistent : IsConsistent fresh
fresh-IsConsistent = record { bounded = omega arith; tracked = λ f e. absurd (cc e) }

abbrev flow : List Change
flow =
    restarts "v1" cause (pos 10) (pos 100)
    ∷ recomputes (pos 10) (pos 20) (pos 100) (pos 2)
    ∷ completes (pos 15) "Settled"
    ∷ adopts "u2"
    ∷ []

changes-IsConsistent_example : IsConsistent (changes library fresh flow)
changes-IsConsistent_example = changes-IsConsistent library fresh flow fresh-IsConsistent

abbrev flight : InFlightRollout
flight = record { dispatched_at = pos 10; dispatched_version = "v1"; phase = "Dispatched" }

abbrev open_record : RestartRecord
open_record = record {
  triggered_at = pos 10;
  completed_at = none;
  container = "app";
  observed = pos 95;
  threshold = pos 80;
  detection_mode = "sustained";
  version = "v1";
  outcome = "InProgress";
}

abbrev restarting : MemoryLeakPolicyStatus
restarting = record fresh {
  in_flight = some flight;
  history = open_record ∷ [];
  restart_count = pos 2;
  window_start = some (pos 10);
  version = "v1";
}

restarting-IsConsistent : IsConsistent restarting
restarting-IsConsistent = record {
  bounded = omega arith;
  tracked = λ f e. record {
    last = open_record;
    newest = refl;
    unfinished = refl;
    time = cc e;
    version = cc e;
  };
}

abbrev evaluations : List (String × Cause × Time)
evaluations = ("v1", cause, pos 10) ∷ ("v1", cause, pos 20) ∷ ("v2", cause, pos 30) ∷ []

two-IsInt64 : IsInt64 (pos 2)
two-IsInt64 = record { not_over = omega int_laws; not_under = omega int_laws }

attempts_budget_example :
    let (st', log) = attempts library (pos 100) (pos 2) (fresh, []) evaluations in
    (st'.restart_count ≡ pos (counted st'.window_start log))
    × (pos (counted st'.window_start log) ≤ℤ pos 2)
attempts_budget_example =
    attempts_budget library (pos 100) (pos 2) two-IsInt64 (omega int_laws) fresh (pos 0) evaluations
      refl refl (omega int_laws, (omega int_laws, (omega int_laws, tt)))

breaker_tripped_iff_example :
    (breaker_tripped restarting "v1" (pos 20) (pos 100) (pos 2) ≡ true)
    ↔ IsTripped restarting "v1" (pos 20) (pos 100) (pos 2)
breaker_tripped_iff_example = breaker_tripped_iff restarting "v1" (pos 20) (pos 100) (pos 2)

adopt_workload_fresh_example :
    let st' = adopt_workload restarting "u2" in
    (breaker_tripped st' "v1" (pos 20) (pos 100) (pos 2) ≡ false)
    × (in_cooldown st' (pos 20) (pos 15) ≡ false)
    × (st'.in_flight ≡ none)
    × (st'.history ≡ [])
adopt_workload_fresh_example =
    adopt_workload_fresh restarting "u2" "v1" (pos 20) (pos 100) (pos 15) (pos 2)
      (apart_of_beq "u1" "" refl) (apart_of_beq "u1" "u2" refl)
