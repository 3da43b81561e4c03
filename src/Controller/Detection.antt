-- ===== src/Controller/Detection.antt =====
-- The detection loop of Reconcile (internal/controller/reconciler.go): the first leaking container on
-- a ready pod of the current revision.
use memory_leak_reloader.Base.{
  ℕ, Option, none, some, List, [], ◌∷◌, if◌then◌else◌, ◌||◌, not, ltb, string_eq,
}
use memory_leak_reloader.Base.Int.{ltb_ℤ}
use memory_leak_reloader.Base.Map.{has, insert}
use memory_leak_reloader.Base.Time.{Time}
use memory_leak_reloader.Config.{PodConfig}
use memory_leak_reloader.Restart.Objects.{Pod}
use memory_leak_reloader.Restart.Cluster.{Error, is_no_owner, Result, ok, err}
use memory_leak_reloader.Restart.Workload.{Workload, is_current_revision}
use memory_leak_reloader.Restart.Resolve.{resolve_owner}
use memory_leak_reloader.Sampling.Buffer.{Sample, Key, Store, samples}
use memory_leak_reloader.Sampling.Detect
use memory_leak_reloader.Sampling.Detect.{detect, window_samples}
use memory_leak_reloader.Controller.Selection.{Target, select_targets}
use memory_leak_reloader.Controller.Pods.{pod_ready, pod_age}
use memory_leak_reloader.Controller.State.{
  reason_pod_unmonitorable, Reconciler, State, event, note, at_world,
}

pub record Breach : Type 0 where
  pub target : Target
  pub pod : Pod
  pub result : Detect.Result
  pub samples : List Sample

-- What a pass over pods ends with.
pub data Scan : Type 0 where
  nothing : Scan
  broken : Error → Scan
  breach : Breach → Scan

abbrev pub key_of : Pod → Target → Key
key_of pod t = record { namespace = pod.namespace; pod = pod.name; container = t.name }

abbrev pub or_scan : Option Breach → Scan
or_scan none = nothing
or_scan (some b) = breach b

module _ {L F W : Type 0} (r : Reconciler L F W) where
  -- The loop over the targets.
  unfoldable pub first_leak : Store → Pod → Time → List Target → Option Breach
  first_leak store pod now [] = none
  first_leak store pod now (t ∷ ts) =
      let rest = first_leak store pod now ts in
      let series = samples store (key_of pod t) in
      let result = detect r.fl series t.det now in
      if result.leaking
      then some (record {
        target = t;
        pod = pod;
        result = result;
        samples = window_samples series t.det.window now;
      })
      else rest

  -- warnUnmonitorableOnce.
  unfoldable pub warn_unmonitorable_once : Pod → State W → State W
  warn_unmonitorable_once pod s =
      if has pod.uid s.warned
      then s
      else note (event reason_pod_unmonitorable) (record s { warned = insert pod.uid tt s.warned })

  -- The targets of a pod of the current revision.
  abbrev pub scan_targets : Pod → Time → List Target × ℕ → State W → Scan × State W
  scan_targets pod now ([], dropped) s =
      (nothing, if ltb 0 dropped then warn_unmonitorable_once pod s else s)
  scan_targets pod now (t ∷ ts, dropped) s = (or_scan (first_leak s.store pod now (t ∷ ts)), s)

  abbrev pub scan_owned : Pod → PodConfig → Time → Result Workload × W → State W → Scan × State W
  scan_owned pod cfg now (err e, w) s = (if is_no_owner e then nothing else broken e, at_world s w)
  scan_owned pod cfg now (ok owner, w) s =
      if not (is_current_revision owner)
      then (nothing, at_world s w)
      else scan_targets pod now (select_targets pod cfg) (at_world s w)

  unfoldable pub scan_pod : Pod → PodConfig → Time → State W → Scan × State W
  scan_pod pod cfg now s =
      if not (pod_ready pod) || ltb_ℤ (pod_age pod (r.clock s.world)) cfg.startup_grace
      then (nothing, s)
      else scan_owned pod cfg now (resolve_owner r.client r.lib r.kinds pod s.world) s

  -- The loop over the pods; an error or a breach ends it.
  abbrev pub scan_on : Scan × State W → (State W → Scan × State W) → Scan × State W
  scan_on (nothing, s) next = next s
  scan_on (broken e, s) next = (broken e, s)
  scan_on (breach b, s) next = (breach b, s)

  unfoldable pub scan_pods : List Pod → PodConfig → Time → State W → Scan × State W
  scan_pods [] cfg now s = (nothing, s)
  scan_pods (pod ∷ pods) cfg now s =
      scan_on (scan_pod pod cfg now s) (λ s'. scan_pods pods cfg now s')
