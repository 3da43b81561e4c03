-- ===== src/Controller/Invariant/Scanning.antt =====
-- An invariant is kept by the search for a breach (internal/controller/reconciler.go).
use memory_leak_reloader.Base.{
  String, List, [], ◌∷◌, refl, if_both, string_eq, bool_eq, not, ltb, ℕ, ◌||◌,
}
use memory_leak_reloader.Base.Int.{ltb_ℤ}
use memory_leak_reloader.Base.Map.{has}
use memory_leak_reloader.Base.Time.{Time}
use memory_leak_reloader.Config.{PodConfig}
use memory_leak_reloader.Restart.Objects.{Pod}
use memory_leak_reloader.Restart.Cluster.{Result, ok, err}
use memory_leak_reloader.Restart.Workload.{Workload, is_current_revision}
use memory_leak_reloader.Restart.Resolve.{resolve_owner}
use memory_leak_reloader.Controller.Selection.{Target, select_targets}
use memory_leak_reloader.Controller.Pods.{pod_ready, pod_age}
use memory_leak_reloader.Controller.State.{Reconciler, State, at_world}
use memory_leak_reloader.Controller.Detection.{
  Scan, nothing, broken, breach, warn_unmonitorable_once, scan_targets, scan_owned, scan_pod,
  scan_on, scan_pods,
}
use memory_leak_reloader.Controller.Invariant.{Invariant}

module _ {L F W : Type 0} (r : Reconciler L F W) (key : String) (cfg : PodConfig)
    (P : State W → Type 0) (i : Invariant r key cfg P) where
  abbrev Kept : {A : Type 0} → A × State W → Type 0
  Kept a = P a.1

  warn-keeps : (pod : Pod) (s : State W) → P s → P (warn_unmonitorable_once r pod s)
  unfolding warn_unmonitorable_once
  warn-keeps pod s h =
      if_both P (has pod.uid s.warned) s _ (λ e. h) (λ e. i.noted _ _ refl (i.warned _ s h))

  scan_targets-keeps :
      (pod : Pod) (now : Time) (a : List Target × ℕ) (s : State W)
      → P s
      → P (scan_targets r pod now a s).1
  scan_targets-keeps pod now ([], dropped) s h =
      if_both P (ltb 0 dropped) _ s (λ e. warn-keeps pod s h) (λ e. h)
  scan_targets-keeps pod now (t ∷ ts, dropped) s h = h

  scan_owned-keeps :
      (pod : Pod) (now : Time) (a : Result Workload × W) (s : State W)
      → P s
      → P (scan_owned r pod cfg now a s).1
  scan_owned-keeps pod now (err e, w) s h = i.moved w s h
  scan_owned-keeps pod now (ok owner, w) s h =
      if_both Kept (not (is_current_revision owner)) _ _ (λ e. i.moved w s h)
        (λ e. scan_targets-keeps pod now (select_targets pod cfg) (at_world s w) (i.moved w s h))

  scan_pod-keeps : (pod : Pod) (now : Time) (s : State W) → P s → P (scan_pod r pod cfg now s).1
  unfolding scan_pod
  scan_pod-keeps pod now s h =
      if_both Kept (not (pod_ready pod) || ltb_ℤ (pod_age pod (r.clock s.world)) cfg.startup_grace)
        _ _ (λ e. h)
        (λ e. scan_owned-keeps pod now (resolve_owner r.client r.lib r.kinds pod s.world) s h)

  scan_on-keeps :
      (a : Scan × State W) (next : State W → Scan × State W)
      → P a.1
      → ((s : State W) → P s → P (next s).1)
      → P (scan_on r a next).1
  scan_on-keeps (nothing, s) next h f = f s h
  scan_on-keeps (broken e, s) next h f = h
  scan_on-keeps (breach b, s) next h f = h

  pub scan_pods-keeps :
      (pods : List Pod) (now : Time) (s : State W) → P s → P (scan_pods r pods cfg now s).1
  unfolding scan_pods
  scan_pods-keeps [] now s h = h
  scan_pods-keeps (pod ∷ pods) now s h =
      scan_on-keeps (scan_pod r pod cfg now s) (λ s'. scan_pods r pods cfg now s')
        (scan_pod-keeps pod now s h) (λ s' h'. scan_pods-keeps pods now s' h')
