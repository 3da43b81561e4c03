-- ===== src/System/Safety.antt =====
-- What holds in every history of the reconciler, the sampler and the expirer.
use memory_leak_reloader.Base.{List, [], ◌∷◌, ◌≡◌}
use memory_leak_reloader.Base.Int.{ℤ}
use memory_leak_reloader.Gate.{new}
use memory_leak_reloader.Gate.Laws.{IsValid, new-IsValid}
use memory_leak_reloader.Controller.State.{State}
use memory_leak_reloader.Controller.Invariant.Gates.{reconcile-IsValid}
use memory_leak_reloader.Controller.Invariant.Log.{IsRecorded, reconcile-IsRecorded}
use memory_leak_reloader.Expirer.Laws.{tick-IsValid, tick-IsRecorded}
use memory_leak_reloader.System.{System, Action, reconciles, samples, ticks, changes, step, run}

module _ {L F W : Type 0} (sys : System L F W) where
  step-IsValid : (a : Action W) (s : State W) → IsValid s.gate → IsValid (step sys a s).gate
  unfolding step
  step-IsValid (reconciles req) s v = reconcile-IsValid sys.reconciler req s v
  step-IsValid samples s v = v
  step-IsValid (ticks now) s v =
      tick-IsValid sys.reconciler.client sys.reconciler.lib sys.expirer now s v
  step-IsValid (changes f) s v = v

  step-IsRecorded : (a : Action W) (s : State W) → IsRecorded s.log → IsRecorded (step sys a s).log
  unfolding step
  step-IsRecorded (reconciles req) s h = reconcile-IsRecorded sys.reconciler req s h
  step-IsRecorded samples s h = h
  step-IsRecorded (ticks now) s h =
      tick-IsRecorded sys.reconciler.client sys.reconciler.lib sys.expirer now s h
  step-IsRecorded (changes f) s h = h

  pub record Safe (s : State W) : Type 0 where
    pub gate : IsValid s.gate
    pub log : IsRecorded s.log

  run-keeps : (acts : List (Action W)) (s : State W) → Safe s → Safe (run sys acts s)
  unfolding run
  run-keeps [] s h = h
  run-keeps (a ∷ acts) s h =
      run-keeps acts (step sys a s)
        (record { gate = step-IsValid a s h.gate; log = step-IsRecorded a s h.log })

  -- From an empty gate and log, whatever runs of the reconciler, the sampler and the expirer follow
  -- one another, with any changes of the cluster between them: no workload has two slots, with a
  -- positive cap there are at most that many slots, and every restart that was dispatched comes right
  -- after a Persist, which returned no error, of a status that has a rollout in flight.
  pub run-Safe :
      (capacity : ℤ) (acts : List (Action W)) (s : State W)
      → s.gate ≡ new capacity
      → s.log ≡ []
      → Safe (run sys acts s)
  unfolding IsRecorded
  run-Safe capacity acts s g l =
      run-keeps acts s (record { gate = rw g (new-IsValid capacity); log = rw l tt })
