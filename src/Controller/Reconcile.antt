-- ===== src/Controller/Reconcile.antt =====
-- Reconcile (internal/controller/reconciler.go), from the request to the search for a breach.
use memory_leak_reloader.Base.{
  String, Bool, true, false, Option, none, some, List, ◌==◌, string_eq, bool_eq, if◌then◌else◌,
}
use memory_leak_reloader.Base.Time.{Time}
use memory_leak_reloader.Api.{
  MemoryLeakPolicy, InFlightRollout, outcome_settled, outcome_superseded,
}
use memory_leak_reloader.Config.{PodConfig, resolve_policy}
use memory_leak_reloader.Gate.{holds, try_acquire, inflight_count}
use memory_leak_reloader.Restart.Objects.{NamespacedName, Pod}
use memory_leak_reloader.Restart.Cluster.{
  Error, is_not_found, is_not_auto_restartable, Result, ok, err,
}
use memory_leak_reloader.Restart.Workload.{
  Workload, workload_key, template_version, uid, is_settled,
}
use memory_leak_reloader.Restart.Resolve.{get_workload}
use memory_leak_reloader.Restart.Breaker.{
  adopt_workload, complete_in_flight, recompute_observability,
}
use memory_leak_reloader.Controller.State.{
  inflight_gauge, Reconciler, State, Outcome, done, failed, requeue, note, at_world, release_slot,
  skip, persist_policy,
}
use memory_leak_reloader.Controller.Pods.{list_workload_pods}
use memory_leak_reloader.Controller.Detection.{Scan, nothing, broken, breach, scan_pods}
use memory_leak_reloader.Controller.Restarting.{breach_stage}

abbrev pub policy_finalizer : String
policy_finalizer = "memreload.io/finalizer"

-- The variables of Reconcile once the workload is known.
pub record Scene : Type 0 where
  pub policy : MemoryLeakPolicy
  pub cfg : PodConfig
  pub wl : Workload
  pub key : String
  pub version : String
  pub now : Time

abbrev pub key_of : MemoryLeakPolicy → String
key_of p = workload_key p.spec.workload_ref.kind p.namespace p.spec.workload_ref.name

-- The end of a branch that writes, and has nothing to do after it.
abbrev pub written : {A W : Type 0} → Result A × W → State W → Outcome × State W
written (err e, w) s = (failed e, at_world s w)
written (ok p, w) s = (done, at_world s w)

abbrev pub saved : {W : Type 0} → (Option Error × MemoryLeakPolicy) × State W → Outcome × State W
saved ((some e, p), s) = (failed e, s)
saved ((none, p), s) = (done, s)

-- A persist on the way: its error ends the reconciliation.
abbrev pub then_with :
    {W : Type 0}
    → (Option Error × MemoryLeakPolicy) × State W
    → (MemoryLeakPolicy → State W → Outcome × State W)
    → Outcome × State W
then_with ((some e, p), s) next = (failed e, s)
then_with ((none, p), s) next = next p s

module _ {L F W : Type 0} (r : Reconciler L F W) where
  abbrev pub scanned : Scene → Scan × State W → Outcome × State W
  scanned c (nothing, s) = (done, s)
  scanned c (broken e, s) = (failed e, s)
  scanned c (breach b, s) =
      breach_stage r
        (record {
          policy = c.policy;
          cfg = c.cfg;
          wl = c.wl;
          key = c.key;
          version = c.version;
          now = c.now;
          breach = b;
        })
        s

  abbrev pub listed : Scene → Result (List Pod) × W → State W → Outcome × State W
  listed c (err e, w) s = (failed e, at_world s w)
  listed c (ok pods, w) s = scanned c (scan_pods r pods c.cfg c.now (at_world s w))

  unfoldable pub detect_stage : Scene → State W → Outcome × State W
  detect_stage c s = listed c (list_workload_pods r.client r.lib c.wl s.world) s

  -- A settled workload whose slot is held: the rollout in flight is over.
  abbrev pub completed : Scene → InFlightRollout → MemoryLeakPolicy
  completed c f =
      let outcome =
        if f.dispatched_version == c.version then outcome_settled else outcome_superseded in
      record c.policy {
        status =
            recompute_observability (complete_in_flight r.lib c.policy.status c.now outcome) c.now
              c.cfg.cooldown c.cfg.restart_window c.cfg.max_restarts_per_window;
      }

  abbrev pub complete : Scene → Option InFlightRollout → State W → Outcome × State W
  complete c none s = (done, s)
  complete c (some f) s = saved (persist_policy r.client r.lib (completed c f) s)

  unfoldable pub settled_stage : Scene → State W → Outcome × State W
  settled_stage c s =
      if holds s.gate c.key
      then complete c c.policy.status.in_flight (release_slot c.key s)
      else detect_stage c s

  -- A rollout is in progress. One that the status records as ours takes its slot back.
  abbrev pub resumed : Scene → InFlightRollout → State W → Outcome × State W
  resumed c f s =
      let (answer, g) = try_acquire s.gate c.key f.dispatched_at in
      (requeue r.requeue_after, note (inflight_gauge (inflight_count g)) (record s { gate = g }))

  abbrev pub resume : Scene → Option InFlightRollout → State W → Outcome × State W
  resume c none s = skip "in_progress" s
  resume c (some f) s =
      if f.dispatched_version == c.version then resumed c f s else skip "in_progress" s

  unfoldable pub unsettled_stage : Scene → State W → Outcome × State W
  unsettled_stage c s =
      if holds s.gate c.key
      then (requeue r.requeue_after, s)
      else resume c c.policy.status.in_flight s

  abbrev pub on_settled : Scene → Result Bool → State W → Outcome × State W
  on_settled c (err e) s =
      if is_not_auto_restartable e then skip "not_autorestartable" s else (failed e, s)
  on_settled c (ok false) s = unsettled_stage c s
  on_settled c (ok true) s = settled_stage c s

  unfoldable pub settle_stage : Scene → State W → Outcome × State W
  settle_stage c s = on_settled c (is_settled c.wl.object) s

  abbrev pub scene_of : String → PodConfig → Workload → Time → MemoryLeakPolicy → Scene
  scene_of key cfg wl now p = record {
    policy = p;
    cfg = cfg;
    wl = wl;
    key = key;
    version = template_version r.lib wl.object;
    now = now;
  }

  abbrev pub adopted : MemoryLeakPolicy → Workload → MemoryLeakPolicy
  adopted p wl = record p { status = adopt_workload p.status (uid wl.object) }

  -- The identity guard.
  unfoldable pub adopt_stage :
      String → MemoryLeakPolicy → PodConfig → Workload → State W → Outcome × State W
  adopt_stage key p cfg wl s =
      let scene = scene_of key cfg wl (r.clock s.world) in
      let p' = adopted p wl in
      if p.status.workload_uid == p'.status.workload_uid
      then settle_stage (scene p') s
      else then_with (persist_policy r.client r.lib p' s) (λ q s'. settle_stage (scene q) s')

  abbrev pub with_workload :
      String → MemoryLeakPolicy → PodConfig → Result Workload × W → State W → Outcome × State W
  with_workload key p cfg (err e, w) s =
      (if is_not_found e then requeue r.requeue_after else failed e, at_world s w)
  with_workload key p cfg (ok wl, w) s = adopt_stage key p cfg wl (at_world s w)

  unfoldable pub workload_stage :
      String → PodConfig → MemoryLeakPolicy → State W → Outcome × State W
  workload_stage key cfg p s =
      with_workload key p cfg
        (get_workload r.client r.lib p.spec.workload_ref.kind p.namespace p.spec.workload_ref.name
          s.world)
        s

  abbrev pub moded : MemoryLeakPolicy → PodConfig → MemoryLeakPolicy
  moded p cfg = record p { status = record p.status { dry_run = cfg.dry_run } }

  -- The effective mode in the status.
  unfoldable pub mode_stage : MemoryLeakPolicy → State W → Outcome × State W
  mode_stage p s =
      let key = key_of p in
      let cfg = resolve_policy r.defaults p.spec in
      if p.status.dry_run == cfg.dry_run
      then workload_stage key cfg p s
      else then_with (persist_policy r.client r.lib (moded p cfg) s) (workload_stage key cfg)

  abbrev pub freed : String → State W → State W
  freed key s = if holds s.gate key then release_slot key s else s

  -- A policy that is being deleted.
  unfoldable pub finalize : MemoryLeakPolicy → State W → Outcome × State W
  finalize p s =
      if r.lib.contains_finalizer p policy_finalizer
      then (let s1 = freed (key_of p) s in
          written (r.client.update_policy (r.lib.remove_finalizer p policy_finalizer) s1.world) s1)
      else (done, s)

  abbrev pub with_finalizer : Bool × MemoryLeakPolicy → State W → Outcome × State W
  with_finalizer (true, p) s = written (r.client.update_policy p s.world) s
  with_finalizer (false, p) s = mode_stage p s

  abbrev pub live : MemoryLeakPolicy → Option Time → State W → Outcome × State W
  live p (some t) s = finalize p s
  live p none s = with_finalizer (r.lib.add_finalizer p policy_finalizer) s

  abbrev pub fetched : Result MemoryLeakPolicy × W → State W → Outcome × State W
  fetched (err e, w) s = (if is_not_found e then done else failed e, at_world s w)
  fetched (ok p, w) s = live p p.deletion_timestamp (at_world s w)

  -- Reconcile.
  unfoldable pub reconcile : NamespacedName → State W → Outcome × State W
  reconcile req s = fetched (r.client.get_policy req s.world) s
