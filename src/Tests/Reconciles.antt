-- ===== src/Tests/Reconciles.antt =====
-- Reconcile on a leaking Deployment, in dry run and enforced.
use memory_leak_reloader.Base.{
  Bool, true, false, Option, none, some, [], ◌≡◌, ◌≢◌, refl, subst, apart_of_beq, string_eq,
}
use memory_leak_reloader.Base.Int.{int_laws, pos_part, neg_part}
use memory_leak_reloader.Base.Map.{distinct, has}
use memory_leak_reloader.Api.{MemoryLeakPolicy}
use memory_leak_reloader.Config.{resolve_policy, resolve_detection}
use memory_leak_reloader.Gate.{holds, try_acquire}
use memory_leak_reloader.Gate.Laws.{IsValid}
use memory_leak_reloader.Restart.Objects.{NamespacedName}
use memory_leak_reloader.Restart.Workload.{
  workload_key, uid, is_settled, is_current_revision, template_version,
}
use memory_leak_reloader.Restart.Resolve.{get_workload, resolve_owner, dispatch}
use memory_leak_reloader.Restart.Store.{persist}
use memory_leak_reloader.Restart.Breaker.{adopt_workload, in_cooldown, breaker_tripped, same_window}
use memory_leak_reloader.Maintenance.{is_allowed}
use memory_leak_reloader.Base.Word.{mul64}
use memory_leak_reloader.Sampling.Buffer.{samples}
use memory_leak_reloader.Sampling.Detect.{detect}
use memory_leak_reloader.Controller.Pods.{list_workload_pods, pod_ready, pod_age}
use memory_leak_reloader.Controller.Selection.{select_targets, sort}
use memory_leak_reloader.Controller.Detection.{scan_pods, scan_pod, first_leak}
use memory_leak_reloader.Controller.Restarting.{
  breach_stage, acquire_stage, guard_stage, capture_profile, enforce_stage, recorded, notify,
}
use memory_leak_reloader.Controller.State.{State, persist_policy, dispatch_restart}
use memory_leak_reloader.Controller.Reconcile.{
  key_of, reconcile, mode_stage, workload_stage, adopt_stage, settle_stage, settled_stage,
  detect_stage,
}
use memory_leak_reloader.Controller.Invariant.{Reads, read, finalized}
use memory_leak_reloader.Controller.Invariant.Log.{
  count_dispatches, IsRecorded, reconcile_dry_run, reconcile-IsRecorded,
}
use memory_leak_reloader.Controller.Invariant.Gates.{reconcile_other_slots}
use memory_leak_reloader.Tests.Values.{reconciler, state, policy, fresh}

abbrev request : NamespacedName
request = record { namespace = "shop"; name = "web-policy" }

abbrev after : Option Bool → State MemoryLeakPolicy
after dry = (reconcile reconciler request (state (policy dry fresh))).1

-- The policy that is read is the one of the store.
Reads-policy :
    (dry : Option Bool) (p : MemoryLeakPolicy)
    → Reads reconciler request (state (policy dry fresh)) p
    → policy dry fresh ≡ p
Reads-policy dry p (read e) = cc e
Reads-policy dry p (finalized q e f) = cc (e, f)

dry_run_policy :
    (p : MemoryLeakPolicy)
    → Reads reconciler request (state (policy none fresh)) p
    → (resolve_policy reconciler.defaults p.spec).dry_run ≡ true
unfolding resolve_policy
dry_run_policy p a =
    subst (λ q. (resolve_policy reconciler.defaults q.spec).dry_run ≡ true) (Reads-policy none p a)
      refl

reconcile_dry_run_example : count_dispatches (after none).log ≡ count_dispatches []
reconcile_dry_run_example =
    reconcile_dry_run reconciler request (state (policy none fresh)) dry_run_policy

reconcile-IsRecorded_example : IsRecorded (after (some false)).log
unfolding IsRecorded
reconcile-IsRecorded_example =
    reconcile-IsRecorded reconciler request (state (policy (some false) fresh)) tt

state-IsValid : IsValid (state (policy (some false) fresh)).gate
unfolding distinct has
state-IsValid = record { one_each = refl; bounded = λ h. omega int_laws }

other_key :
    (p : MemoryLeakPolicy)
    → Reads reconciler request (state (policy (some false) fresh)) p
    → key_of p ≢ "Deployment/shop/api"
unfolding workload_key
other_key p a =
    subst (λ q. key_of q ≢ "Deployment/shop/api") (Reads-policy (some false) p a)
      (apart_of_beq (key_of (policy (some false) fresh)) "Deployment/shop/api" refl)

reconcile_other_slots_example :
    holds (after (some false)).gate "Deployment/shop/api"
    ≡ holds (state (policy (some false) fresh)).gate "Deployment/shop/api"
reconcile_other_slots_example =
    reconcile_other_slots reconciler request (state (policy (some false) fresh))
      "Deployment/shop/api" other_key

-- The same leak restarts an enforced workload once.
enforced_run : count_dispatches (after (some false)).log ≡ 1
unfolding count_dispatches reconcile mode_stage resolve_policy workload_stage get_workload
    adopt_stage adopt_workload uid settle_stage is_settled pos_part neg_part settled_stage holds
    workload_key detect_stage list_workload_pods scan_pods scan_pod pod_ready pod_age resolve_owner
    is_current_revision select_targets first_leak samples detect mul64 breach_stage in_cooldown
    breaker_tripped same_window is_allowed acquire_stage try_acquire guard_stage template_version
    capture_profile enforce_stage recorded persist_policy persist dispatch_restart dispatch notify
    sort resolve_detection
enforced_run = refl
