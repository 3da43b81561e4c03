-- ===== src/Tests/Failing.antt =====
-- A restart that the API server refuses to record.
use memory_leak_reloader.Base.{true, false, none, some, [], ◌≡◌, refl}
use memory_leak_reloader.Base.Int.{ℤ, pos, pos_part, neg_part}
use memory_leak_reloader.Api.{MemoryLeakPolicy}
use memory_leak_reloader.Config.{resolve_policy}
use memory_leak_reloader.Gate.{holds, try_acquire}
use memory_leak_reloader.Restart.Objects.{deployment}
use memory_leak_reloader.Restart.Cluster.{Error, other, wrapped, err}
use memory_leak_reloader.Restart.Breaker.{in_cooldown, breaker_tripped, same_window}
use memory_leak_reloader.Maintenance.{is_allowed}
use memory_leak_reloader.Restart.Store.{persist}
use memory_leak_reloader.Restart.Resolve.{get_workload}
use memory_leak_reloader.Restart.Workload.{template_version}
use memory_leak_reloader.Controller.State.{Reconciler, persist_policy}
use memory_leak_reloader.Controller.Restarting.{
  Case, breach_stage, acquire_stage, guard_stage, enforce_stage, capture_profile,
}
use memory_leak_reloader.Controller.Failures.{breach_stage_frees}
use memory_leak_reloader.Tests.Values.{
  reconciler, client, defaults, policy, fresh, state, web, web_ref, web_pod, detection,
}

abbrev failing : Reconciler (Unit {0}) ℤ MemoryLeakPolicy
failing = record reconciler {
  client = record client { update_status = λ p w. (err (other "down"), w) };
}

abbrev case : Case
case = record {
  policy = policy (some false) fresh;
  cfg = resolve_policy defaults (policy (some false) fresh).spec;
  wl = record { ref = web_ref; object = deployment web; rs = none; pod = none };
  key = "Deployment/shop/web";
  version = "image: web:1";
  now = pos 30;
  breach = record {
    target = record { name = "app"; limit_bytes = pos 100; det = detection };
    pod = web_pod;
    result = record { leaking = true; reason = ""; observed = pos 95; threshold = pos 80 };
    samples = [];
  };
}

abbrev refused : Error
refused = wrapped "persist restart state for Deployment/shop/web" (other "down")

is_refused : (breach_stage failing case (state case.policy)).0.error ≡ some refused
unfolding breach_stage acquire_stage guard_stage enforce_stage in_cooldown breaker_tripped pos_part
    resolve_policy neg_part same_window is_allowed try_acquire get_workload template_version
    capture_profile persist_policy persist memory_leak_reloader.Restart.Cluster.is_conflict
is_refused = refl

breach_stage_frees_example :
    holds (breach_stage failing case (state case.policy)).1.gate "Deployment/shop/web" ≡ false
breach_stage_frees_example = breach_stage_frees failing case (state case.policy) refused is_refused
