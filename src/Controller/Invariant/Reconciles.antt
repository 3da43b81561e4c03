-- ===== src/Controller/Invariant/Reconciles.antt =====
-- An invariant is kept by Reconcile (internal/controller/reconciler.go).
use memory_leak_reloader.Base.{
  String, Bool, true, false, Option, none, some, List, ◌≡◌, refl, if_both, ◌==◌, string_eq, bool_eq,
}
use memory_leak_reloader.Base.Time.{Time}
use memory_leak_reloader.Api.{MemoryLeakPolicy, InFlightRollout}
use memory_leak_reloader.Config.{PodConfig, resolve_policy}
use memory_leak_reloader.Gate.{holds}
use memory_leak_reloader.Restart.Objects.{NamespacedName, Pod}
use memory_leak_reloader.Restart.Cluster.{Error, is_not_auto_restartable, Result, ok, err}
use memory_leak_reloader.Restart.Workload.{Workload, is_settled, uid}
use memory_leak_reloader.Restart.Resolve.{get_workload}
use memory_leak_reloader.Restart.Breaker.{adopt_workload}
use memory_leak_reloader.Controller.Pods.{list_workload_pods}
use memory_leak_reloader.Controller.State.{
  Reconciler, State, Outcome, release_slot, persist_policy, at_world,
}
use memory_leak_reloader.Controller.Detection.{Scan, nothing, broken, breach, scan_pods}
use memory_leak_reloader.Controller.Reconcile.{
  scene_of, moded, adopted, freed, Scene, key_of, policy_finalizer, written, saved, scanned, listed,
  detect_stage, completed, complete, settled_stage, resume, unsettled_stage, on_settled,
  settle_stage, adopt_stage, with_workload, workload_stage, mode_stage, finalize, with_finalizer,
  live, fetched, reconcile, then_with,
}
use memory_leak_reloader.Controller.Invariant.{Invariant, Reads, read, finalized}
use memory_leak_reloader.Controller.Invariant.Scanning.{scan_pods-keeps}
use memory_leak_reloader.Controller.Invariant.Stages.{breach_stage-keeps}

module _ {L F W : Type 0} (r : Reconciler L F W) (P : State W → Type 0) where
  abbrev Kept : {A : Type 0} → A × State W → Type 0
  Kept a = P a.1

  module _ (key : String) (cfg : PodConfig) (i : Invariant r key cfg P) where
    persist_policy-keeps :
        (p : MemoryLeakPolicy) (s : State W) → P s → P (persist_policy r.client r.lib p s).1
    unfolding persist_policy
    persist_policy-keeps p s h = i.noted _ _ refl (i.moved _ s h)

    saved-keeps : (a : (Option Error × MemoryLeakPolicy) × State W) → P a.1 → P (saved a).1
    saved-keeps ((some e, p), s) h = h
    saved-keeps ((none, p), s) h = h

    then_with-keeps :
        (a : (Option Error × MemoryLeakPolicy) × State W)
        (next : MemoryLeakPolicy → State W → Outcome × State W)
        → P a.1
        → ((p : MemoryLeakPolicy) (s : State W) → P s → P (next p s).1)
        → P (then_with a next).1
    then_with-keeps ((some e, p), s) next h f = h
    then_with-keeps ((none, p), s) next h f = f p s h

    scanned-keeps :
        (c : Scene) (a : Scan × State W) → c.key ≡ key → c.cfg ≡ cfg → P a.1 → P (scanned r c a).1
    scanned-keeps c (nothing, s) k e h = h
    scanned-keeps c (broken x, s) k e h = h
    scanned-keeps c (breach b, s) k e h = breach_stage-keeps r key cfg P i _ s k e h

    listed-keeps :
        (c : Scene) (a : Result (List Pod) × W) (s : State W)
        → c.key ≡ key
        → c.cfg ≡ cfg
        → P s
        → P (listed r c a s).1
    listed-keeps c (err x, w) s k e h = i.moved w s h
    listed-keeps c (ok pods, w) s k e h =
        scanned-keeps c (scan_pods r pods c.cfg c.now (at_world s w)) k e
          (rw e (scan_pods-keeps r key cfg P i pods c.now (at_world s w) (i.moved w s h)))

    detect_stage-keeps :
        (c : Scene) (s : State W) → c.key ≡ key → c.cfg ≡ cfg → P s → P (detect_stage r c s).1
    unfolding detect_stage
    detect_stage-keeps c s k e h =
        listed-keeps c (list_workload_pods r.client r.lib c.wl s.world) s k e h

    complete-keeps :
        (c : Scene) (f : Option InFlightRollout) (s : State W) → P s → P (complete r c f s).1
    complete-keeps c none s h = h
    complete-keeps c (some f) s h =
        saved-keeps (persist_policy r.client r.lib (completed r c f) s) (persist_policy-keeps _ s h)

    settled_stage-keeps :
        (c : Scene) (s : State W) → c.key ≡ key → c.cfg ≡ cfg → P s → P (settled_stage r c s).1
    unfolding settled_stage
    settled_stage-keeps c s k e h =
        if_both Kept (holds s.gate c.key) _ _
          (λ d. complete-keeps c c.policy.status.in_flight _ (rw k (i.released s h)))
          (λ d. detect_stage-keeps c s k e h)

    resume-keeps :
        (c : Scene) (f : Option InFlightRollout) (s : State W)
        → c.key ≡ key
        → P s
        → P (resume r c f s).1
    resume-keeps c none s k h = i.noted _ s refl h
    resume-keeps c (some f) s k h =
        if_both Kept (f.dispatched_version == c.version) _ _
          (λ d. i.noted _ _ refl (rw k (i.acquired f.dispatched_at s h))) (λ d. i.noted _ s refl h)

    unsettled_stage-keeps :
        (c : Scene) (s : State W) → c.key ≡ key → P s → P (unsettled_stage r c s).1
    unfolding unsettled_stage
    unsettled_stage-keeps c s k h =
        if_both Kept (holds s.gate c.key) _ _ (λ d. h)
          (λ d. resume-keeps c c.policy.status.in_flight s k h)

    on_settled-keeps :
        (c : Scene) (a : Result Bool) (s : State W)
        → c.key ≡ key
        → c.cfg ≡ cfg
        → P s
        → P (on_settled r c a s).1
    on_settled-keeps c (err x) s k e h =
        if_both Kept (is_not_auto_restartable x) _ _ (λ d. i.noted _ s refl h) (λ d. h)
    on_settled-keeps c (ok false) s k e h = unsettled_stage-keeps c s k h
    on_settled-keeps c (ok true) s k e h = settled_stage-keeps c s k e h

    settle_stage-keeps :
        (c : Scene) (s : State W) → c.key ≡ key → c.cfg ≡ cfg → P s → P (settle_stage r c s).1
    unfolding settle_stage
    settle_stage-keeps c s k e h = on_settled-keeps c (is_settled c.wl.object) s k e h

    adopt_stage-keeps :
        (p : MemoryLeakPolicy) (wl : Workload) (s : State W)
        → P s
        → P (adopt_stage r key p cfg wl s).1
    unfolding adopt_stage
    adopt_stage-keeps p wl s h =
        if_both Kept
          (p.status.workload_uid == (adopt_workload p.status (uid wl.object)).workload_uid) _ _
          (λ d.
            settle_stage-keeps (scene_of r key cfg wl (r.clock s.world) (adopted r p wl)) s refl
              refl h)
          (λ d.
            then_with-keeps (persist_policy r.client r.lib (adopted r p wl) s)
              (λ q s'. settle_stage r (scene_of r key cfg wl (r.clock s.world) q) s')
              (persist_policy-keeps _ s h)
              (λ q s' h'.
                settle_stage-keeps (scene_of r key cfg wl (r.clock s.world) q) s' refl refl h'))

    with_workload-keeps :
        (p : MemoryLeakPolicy) (a : Result Workload × W) (s : State W)
        → P s
        → P (with_workload r key p cfg a s).1
    with_workload-keeps p (err e, w) s h = i.moved w s h
    with_workload-keeps p (ok wl, w) s h = adopt_stage-keeps p wl (at_world s w) (i.moved w s h)

    workload_stage-keeps :
        (p : MemoryLeakPolicy) (s : State W) → P s → P (workload_stage r key cfg p s).1
    unfolding workload_stage
    workload_stage-keeps p s h =
        with_workload-keeps p
          (get_workload r.client r.lib p.spec.workload_ref.kind p.namespace p.spec.workload_ref.name
            s.world)
          s h

  written-keeps :
      {A : Type 0} (a : Result A × W) (s : State W)
      → ((w : W) → P (at_world s w))
      → P (written a s).1
  written-keeps (err e, w) s h = h w
  written-keeps (ok p, w) s h = h w

  abbrev pub Governs : MemoryLeakPolicy → Type 0
  Governs p = Invariant r (key_of p) (resolve_policy r.defaults p.spec) P

  mode_stage-keeps : (p : MemoryLeakPolicy) (s : State W) → Governs p → P s → P (mode_stage r p s).1
  unfolding mode_stage
  mode_stage-keeps p s i h =
      let cfg = resolve_policy r.defaults p.spec in
      let key = key_of p in
      if_both Kept (p.status.dry_run == cfg.dry_run) _ _ (λ d. workload_stage-keeps key cfg i p s h)
        (λ d.
          then_with-keeps key cfg i (persist_policy r.client r.lib (moded r p cfg) s)
            (workload_stage r key cfg) (persist_policy-keeps key cfg i _ s h)
            (workload_stage-keeps key cfg i))

  finalize-keeps : (p : MemoryLeakPolicy) (s : State W) → Governs p → P s → P (finalize r p s).1
  unfolding finalize
  finalize-keeps p s i h =
      let s1 = freed r (key_of p) s in
      let clean =
        if_both P (holds s.gate (key_of p)) (release_slot (key_of p) s) s (λ e. i.released s h)
          (λ e. h) in
      if_both Kept (r.lib.contains_finalizer p policy_finalizer) _ _
        (λ e.
          written-keeps
            (r.client.update_policy (r.lib.remove_finalizer p policy_finalizer) s1.world) s1
            (λ w. i.moved w s1 clean))
        (λ e. h)

  with_finalizer-keeps :
      (a : Bool × MemoryLeakPolicy) (p : MemoryLeakPolicy) (s : State W)
      → Governs p
      → (a.0 ≡ false → Governs a.1)
      → P s
      → P (with_finalizer r a s).1
  with_finalizer-keeps (true, q) p s i f h =
      written-keeps (r.client.update_policy q s.world) s (λ w. i.moved w s h)
  with_finalizer-keeps (false, q) p s i f h = mode_stage-keeps q s (f refl) h

  live-keeps :
      (p : MemoryLeakPolicy) (t : Option Time) (s : State W)
      → Governs p
      → ((r.lib.add_finalizer p policy_finalizer).0 ≡ false
          → Governs (r.lib.add_finalizer p policy_finalizer).1)
      → P s
      → P (live r p t s).1
  live-keeps p (some t) s i f h = finalize-keeps p s i h
  live-keeps p none s i f h =
      with_finalizer-keeps (r.lib.add_finalizer p policy_finalizer) p s i f h

  fetched-keeps :
      (a : Result MemoryLeakPolicy × W) (s : State W)
      → ((w : W) → P (at_world s w))
      → ((p : MemoryLeakPolicy) → a.0 ≡ ok p → Governs p)
      → ((p : MemoryLeakPolicy) → a.0 ≡ ok p → Governs (r.lib.add_finalizer p policy_finalizer).1)
      → P (fetched r a s).1
  fetched-keeps (err e, w) s m f g = m w
  fetched-keeps (ok p, w) s m f g =
      live-keeps p p.deletion_timestamp (at_world s w) (f p refl) (λ e. g p refl) (m w)

  -- A property that holds of a state, of that state with the API server's state changed, and that
  -- every change of a reconciliation keeps, holds after the reconciliation.
  pub reconcile-keeps :
      (req : NamespacedName) (s : State W)
      → ((w : W) → P (at_world s w))
      → ((p : MemoryLeakPolicy) → Reads r req s p → Governs p)
      → P (reconcile r req s).1
  unfolding reconcile
  reconcile-keeps req s m f =
      fetched-keeps (r.client.get_policy req s.world) s m (λ p e. f p (read e))
        (λ p e. f _ (finalized p e refl))
