-- ===== src/Gate/Steps.antt =====
-- The gate under any interleaving of the reconciler and the expirer: the methods are atomic, so a
-- history is a list of calls.
use memory_leak_reloader.Base.{String, List, [], ◌∷◌}
use memory_leak_reloader.Base.Int.{ℤ}
use memory_leak_reloader.Base.Time.{Time, Duration}
use memory_leak_reloader.Gate.{Gate, new, try_acquire, release, expire_older_than}
use memory_leak_reloader.Gate.Laws.{
  IsValid, new-IsValid, try_acquire-IsValid, release-IsValid, expire_older_than-IsValid,
}

pub data Call : Type 0 where
  acquires : String → Time → Call
  releases : String → Call
  expires : Time → Duration → Call

pub step : Gate → Call → Gate
step g (acquires k now) = (try_acquire g k now).1
step g (releases k) = release g k
step g (expires now timeout) = (expire_older_than g now timeout).0

pub run : Gate → List Call → Gate
unfolding step
run g [] = g
run g (c ∷ cs) = run (step g c) cs

step-IsValid : (g : Gate) (c : Call) → IsValid g → IsValid (step g c)
unfolding step
step-IsValid g (acquires k now) v = try_acquire-IsValid g k now v
step-IsValid g (releases k) v = release-IsValid g k v
step-IsValid g (expires now timeout) v = expire_older_than-IsValid g now timeout v

run-IsValid : (g : Gate) (cs : List Call) → IsValid g → IsValid (run g cs)
unfolding run
run-IsValid g [] v = v
run-IsValid g (c ∷ cs) v = run-IsValid (step g c) cs (step-IsValid g c v)

-- Whatever calls the reconciler and the expirer make, in whatever order, a workload has at most one
-- slot, and with a positive cap there are at most that many slots.
pub run-new-IsValid : (capacity : ℤ) (cs : List Call) → IsValid (run (new capacity) cs)
run-new-IsValid capacity cs = run-IsValid (new capacity) cs (new-IsValid capacity)
