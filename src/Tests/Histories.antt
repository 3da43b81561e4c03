-- ===== src/Tests/Histories.antt =====
-- Ticks of the expirer and a history of the three parts.
use mathlib.Core.List.{Memᴰ}
use memory_leak_reloader.Base.{
  true, false, none, some, List, [], ◌∷◌, ◌≡◌, refl, if◌then◌else◌, string_eq,
}
use memory_leak_reloader.Base.Int.{ℤ, pos, int_laws, ◌≤ℤ◌}
use memory_leak_reloader.Base.Map.{lookup, distinct, has}
use memory_leak_reloader.Base.Time.{since}
use memory_leak_reloader.Api.{MemoryLeakPolicy, InFlightRollout}
use memory_leak_reloader.Gate.{holds, new}
use memory_leak_reloader.Gate.Laws.{IsValid, younger}
use memory_leak_reloader.Restart.Resolve.{get_workload}
use memory_leak_reloader.Restart.Workload.{workload_key, uid, template_version}
use memory_leak_reloader.Restart.Store.{sweep, sweep_one, classify_in_flight, persist}
use memory_leak_reloader.Controller.State.{State}
use memory_leak_reloader.Expirer.{Expirer, tick}
use memory_leak_reloader.Expirer.Laws.{is_in, swept_keys, lookup-tick, tick_frees_aged}
use memory_leak_reloader.System.{System, Action, reconciles, samples, ticks, changes, run}
use memory_leak_reloader.System.Safety.{Safe, run-Safe}
use memory_leak_reloader.Tests.Values.{client, library, policy, fresh, state, reconciler}
use memory_leak_reloader.Tests.Samplers.{sampler, world}

abbrev expirer : Expirer
expirer = record { has_state = true; timeout = pos 20; interval = pos 7 }

state-IsValid : IsValid (state world).gate
unfolding distinct has
state-IsValid = record { one_each = refl; bounded = λ h. omega int_laws }

lookup-tick_example :
    lookup "Deployment/shop/api" (tick client library expirer (pos 50) (state world)).gate.inflight
    ≡ (if is_in "Deployment/shop/api" (swept_keys client library expirer (pos 50) world)
        then none
        else younger (pos 50) (pos 20) (lookup "Deployment/shop/api" (state world).gate.inflight))
lookup-tick_example =
    lookup-tick client library expirer (pos 50) (state world) "Deployment/shop/api" state-IsValid

abbrev flight : InFlightRollout
flight = record { dispatched_at = pos 10; dispatched_version = "v1"; phase = "Dispatched" }

abbrev stuck : MemoryLeakPolicy
stuck = policy (some false) (record fresh { in_flight = some flight })

swept_fine : (sweep client library (stuck ∷ []) (pos 50) (pos 20) stuck).0.1 ≡ none
unfolding sweep sweep_one classify_in_flight get_workload uid template_version persist
swept_fine = refl

aged : pos 20 ≤ℤ since (pos 50) (pos 10)
unfolding since
aged = omega int_laws

-- A young slot, which the sweep alone gives back.
abbrev held : State MemoryLeakPolicy
held = record (state stuck) {
  gate = record { cap = pos 2; inflight = ("Deployment/shop/web", pos 45) ∷ [] };
}

tick_frees_aged_example :
    holds
      (tick client library expirer (pos 50) held).gate
      (workload_key stuck.spec.workload_ref.kind stuck.namespace stuck.spec.workload_ref.name)
    ≡ false
tick_frees_aged_example =
    tick_frees_aged client library expirer (pos 50) held (stuck ∷ []) stuck stuck flight refl refl
      swept_fine (Memᴰ.head refl) refl aged

abbrev system : System (Unit {0}) ℤ MemoryLeakPolicy
system = record { reconciler = reconciler; sampler = sampler; expirer = expirer }

abbrev start : State MemoryLeakPolicy
start = record (state world) { gate = record { cap = pos 1; inflight = [] } }

abbrev history : List (Action MemoryLeakPolicy)
history =
    samples
    ∷ reconciles (record { namespace = "shop"; name = "web-policy" })
    ∷ changes (λ w. stuck)
    ∷ ticks (pos 60)
    ∷ []

run-Safe_example : Safe system (run system history start)
unfolding new
run-Safe_example = run-Safe system (pos 1) history start refl refl
