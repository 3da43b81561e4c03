-- ===== src/Controller/Invariant/Gates.antt =====
-- Reconcile and the gate (internal/controller/reconciler.go, internal/gate/gate.go).
use memory_leak_reloader.Base.{arith, String, Bool, ◌≡◌, ◌≢◌, refl, ◌∙◌, string_eq}
use memory_leak_reloader.Base.Time.{Time}
use memory_leak_reloader.Base.Map.{has-insert}
use memory_leak_reloader.Api.{MemoryLeakPolicy}
use memory_leak_reloader.Config.{PodConfig}
use memory_leak_reloader.Gate.{Gate, try_acquire, release, holds}
use memory_leak_reloader.Gate.Laws.{IsValid, try_acquire-IsValid, release-IsValid, holds-release}
use memory_leak_reloader.Restart.Objects.{NamespacedName}
use memory_leak_reloader.Controller.State.{Reconciler, State, release_slot}
use memory_leak_reloader.Controller.Reconcile.{key_of, reconcile}
use memory_leak_reloader.Controller.Invariant.{Invariant, Reads}
use memory_leak_reloader.Controller.Invariant.Notifying.{enforce_stage-keeps}
use memory_leak_reloader.Controller.Invariant.Reconciles.{reconcile-keeps}

-- An acquire for one workload leaves the slots of the others.
holds-try_acquire :
    (g : Gate) (k j : String) (now : Time) → k ≢ j → holds (try_acquire g k now).1 j ≡ holds g j
unfolding try_acquire holds
holds-try_acquire g k j now d = ground (arith, has-insert k j now g.inflight, string_eq.beq_iff k j)

holds-release_other : (g : Gate) (k j : String) → k ≢ j → holds (release g k) j ≡ holds g j
holds-release_other g k j d = ground (arith, holds-release g k j, string_eq.beq_iff k j)

module _ {L F W : Type 0} (r : Reconciler L F W) where
  abbrev GateIsValid : State W → Type 0
  GateIsValid s = IsValid s.gate

  gate-Invariant : (key : String) (cfg : PodConfig) → Invariant r key cfg GateIsValid
  unfolding release_slot
  gate-Invariant key cfg = record {
    noted = λ e s p h. h;
    moved = λ w s h. h;
    warned = λ m s h. h;
    throttled = λ m s h. h;
    released = λ s h. release-IsValid s.gate key h;
    acquired = λ t s h. try_acquire-IsValid s.gate key t h;
    enforced = λ c s k e d h.
        enforce_stage-keeps r GateIsValid (λ x s' p h'. h') c s (λ x s' h'. h') (λ w s' h'. h')
          (λ s' h'. release-IsValid s'.gate c.key h') h;
  }

  -- A reconciliation keeps a valid gate valid, whatever the API server answers: within a
  -- positive cap, and with at most one slot for each workload.
  pub reconcile-IsValid :
      (req : NamespacedName) (s : State W) → IsValid s.gate → IsValid (reconcile r req s).1.gate
  reconcile-IsValid req s h =
      reconcile-keeps r GateIsValid req s (λ w. h) (λ p read. gate-Invariant (key_of p) _)

  abbrev SlotIs : String → Bool → State W → Type 0
  SlotIs j b s = holds s.gate j ≡ b

  slot-Invariant :
      (j : String) (b : Bool) (key : String) (cfg : PodConfig)
      → key ≢ j
      → Invariant r key cfg (SlotIs j b)
  unfolding release_slot
  slot-Invariant j b key cfg d = record {
    noted = λ e s p h. h;
    moved = λ w s h. h;
    warned = λ m s h. h;
    throttled = λ m s h. h;
    released = λ s h. holds-release_other s.gate key j d ∙ h;
    acquired = λ t s h. holds-try_acquire s.gate key j t d ∙ h;
    enforced = λ c s k e x h.
        enforce_stage-keeps r (SlotIs j b) (λ y s' p h'. h') c s (λ y s' h'. h') (λ w s' h'. h')
          (λ s' h'. rw k (holds-release_other s'.gate key j d ∙ h')) h;
  }

  -- A reconciliation gives and takes no slot of a workload that the policy does not name: for each
  -- policy that it may act on with another workload key than `j`, the slot of `j` stays as it is.
  pub reconcile_other_slots :
      (req : NamespacedName) (s : State W) (j : String)
      → ((p : MemoryLeakPolicy) → Reads r req s p → key_of p ≢ j)
      → holds (reconcile r req s).1.gate j ≡ holds s.gate j
  reconcile_other_slots req s j d =
      reconcile-keeps r (SlotIs j (holds s.gate j)) req s (λ w. refl)
        (λ p a. slot-Invariant j (holds s.gate j) (key_of p) _ (d p a))
