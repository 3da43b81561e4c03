-- ===== src/Controller/Restarting.antt =====
-- Reconcile from the breach on (internal/controller/reconciler.go): the gates, the slot, and the
-- restart or its dry run. Each stage is a function that calls the next one.
use memory_leak_reloader.Base.{
  String, Bool, false, Option, none, some, List, [], ◌∷◌, ◌==◌, string_eq, if◌then◌else◌, not,
}
use memory_leak_reloader.Base.Int.{pos, leb_ℤ, ltb_ℤ}
use memory_leak_reloader.Base.Map.{lookup, insert}
use memory_leak_reloader.Base.Text.{concat}
use memory_leak_reloader.Base.Time.{Time, Duration, since}
use memory_leak_reloader.Api.{MemoryLeakPolicy, MaintenanceWindow, ProfileRef}
use memory_leak_reloader.Config.{PodConfig, or_else}
use memory_leak_reloader.Gate
use memory_leak_reloader.Gate.{
  Gate, acquired, already_in_f, cap_reached, try_acquire, inflight_count,
}
use memory_leak_reloader.Maintenance.{Window, is_allowed, next_opening}
use memory_leak_reloader.Maintenance.Parse.{from_windows}
use memory_leak_reloader.Notify
use memory_leak_reloader.Notify.{
  Notifier, SamplePoint, known_route, deliveries, event_restart_triggered,
  event_circuit_breaker_tripped, event_restart_deferred,
}
use memory_leak_reloader.Restart.Cluster.{Error, wrapped, Result, ok, err}
use memory_leak_reloader.Restart.Workload.{Workload, kind_of, template_version}
use memory_leak_reloader.Restart.Resolve.{get_workload}
use memory_leak_reloader.Restart.Breaker.{
  Cause, in_cooldown, breaker_tripped, apply_restart, recompute_observability,
}
use memory_leak_reloader.Sampling.Buffer.{Sample}
use memory_leak_reloader.Controller.State.{
  reason_breach_detected, reason_would_restart, reason_restart_triggered, reason_restart_deferred,
  reason_profile_captured, reason_circuit_breaker, reason_invalid_config, event, breaches, defers,
  triggers, captures, delivers, inflight_gauge, CaptureResult, Capturer, Reconciler, State, Outcome,
  done, failed, requeue, note, at_world, release_slot, skip, skip_requeue, persist_policy,
  dispatch_restart,
}
use memory_leak_reloader.Controller.Detection.{Breach}

-- The variables of Reconcile that the stages below read.
pub record Case : Type 0 where
  pub policy : MemoryLeakPolicy
  pub cfg : PodConfig
  pub wl : Workload
  pub key : String
  pub version : String
  pub now : Time
  pub breach : Breach

-- toSamplePoints.
unfoldable pub to_sample_points : List Sample → List SamplePoint
to_sample_points [] = []
to_sample_points (s ∷ ss) = record { time = s.time; bytes = s.working_set } ∷ to_sample_points ss

-- The loop over the route names: an unknown one is reported and dropped.
unfoldable pub known_routes :
    {W : Type 0} → Notifier → List String → State W → List String × State W
known_routes n [] s = ([], s)
known_routes n (name ∷ names) s =
    let known = known_route n name in
    let (rest, s') =
      known_routes n names (if known then s else note (event reason_invalid_config) s) in
    (if known then name ∷ rest else rest, s')

abbrev pub default_path : String → String
default_path path = if path == "" then "/debug/pprof/heap" else path

module _ {L F W : Type 0} (r : Reconciler L F W) where
  abbrev pub event_of : String → Case → List String → Notify.Event
  event_of t c routes = record {
    type = t;
    kind = kind_of c.wl.object;
    workload = c.wl.ref.name;
    namespace = c.wl.ref.namespace;
    container = c.breach.target.name;
    mode = c.breach.target.det.mode;
    observed = c.breach.result.observed;
    threshold = c.breach.result.threshold;
    window = c.breach.target.det.window;
    reason = c.breach.result.reason;
    dry_run = c.cfg.dry_run;
    time = c.now;
    samples = to_sample_points c.breach.samples;
    cluster_name = r.cluster_name;
    routes = routes;
    slack_channel = c.cfg.slack_channel;
  }

  abbrev pub deliver : Notifier → String → Case → List String × State W → State W
  deliver n t c (routes, s) = let e = event_of t c routes in note (delivers e (deliveries n e)) s

  abbrev pub notify_by : Option Notifier → String → Case → State W → State W
  notify_by none t c s = s
  notify_by (some n) t c s = deliver n t c (known_routes n c.cfg.notify_routes s)

  -- notify.
  unfoldable pub notify : String → Case → State W → State W
  notify t c s = notify_by r.notifier t c s

  -- captureProfile: the case with the profile in the policy's status.
  abbrev pub captured : Case → State W → Result CaptureResult × W → Case × State W
  captured c s (err e, w) = (c, note (captures "error") (at_world s w))
  captured c s (ok res, w) =
      let profile : ProfileRef = record { url = res.uri; captured_at = c.now } in
      (
        record c {
          policy = record c.policy {
            status = record c.policy.status { last_profile = some profile };
          };
        },
        note (event reason_profile_captured) (note (captures "success") (at_world s w)),
      )

  abbrev pub profile_of : Capturer W → Case → W → Result CaptureResult × W
  profile_of capture c w =
      capture c.breach.pod.pod_ip (default_path c.cfg.pprof_path)
        (concat (
          c.breach.pod.namespace
          ∷ "/"
          ∷ c.breach.pod.name
          ∷ "/"
          ∷ c.breach.target.name
          ∷ "/"
          ∷ r.stamp c.now
          ∷ ".pb.gz"
          ∷ []))
        w

  abbrev pub capture_by : Option (Capturer W) → Case → State W → Case × State W
  capture_by none c s = (c, s)
  capture_by (some capture) c s =
      if not (or_else c.cfg.profile_capture r.profile_enabled)
      then (c, s)
      else if c.cfg.dry_run
      then (c, note (captures "skipped") s)
      else captured c s (profile_of capture c s.world)

  unfoldable pub capture_profile : Case → State W → Case × State W
  capture_profile c s = capture_by r.capturer c s

  -- recentlyWouldRestart.
  unfoldable pub recently_would_restart : Case → State W → Bool
  recently_would_restart c s = elim (lookup c.key s.last_would_restart) [
    | none ↦ false
    | some t ↦ ltb_ℤ (since c.now t) c.cfg.cooldown
  ]

  unfoldable pub dry_run_stage : Case → State W → Outcome × State W
  dry_run_stage c s =
      let s1 = release_slot c.key s in
      if recently_would_restart c s1 then skip "cooldown" s1 else (
        done,
        notify event_restart_triggered c (
            note (triggers "dry_run") (
              note (event reason_would_restart)
                (record s1 { last_would_restart = insert c.key c.now s1.last_would_restart }))),
      )

  abbrev pub release_failed : String → Case → Error → State W → Outcome × State W
  release_failed what c e s = (
    failed (wrapped (concat (what ∷ c.key ∷ [])) e),
    note (triggers "error") (release_slot c.key s),
  )

  abbrev pub dispatched : Case → Option Error × State W → Outcome × State W
  dispatched c (some e, s) = release_failed "dispatch restart for " c e s
  dispatched c (none, s) = (
    requeue r.requeue_after,
    notify event_restart_triggered c
        (note (event reason_restart_triggered) (note (triggers "success") s)),
  )

  abbrev pub persisted : Case → (Option Error × MemoryLeakPolicy) × State W → Outcome × State W
  persisted c ((some e, p), s) = release_failed "persist restart state for " c e s
  persisted c ((none, p), s) =
      dispatched (record c { policy = p })
        (dispatch_restart r.client r.lib c.key c.wl.object c.now s)

  -- The policy with the restart in its status.
  unfoldable pub recorded : Case → MemoryLeakPolicy
  recorded c =
      let cause : Cause = record {
        container = c.breach.target.name;
        observed = c.breach.result.observed;
        threshold = c.breach.result.threshold;
        mode = c.breach.target.det.mode;
      } in
      let applied =
        apply_restart r.lib c.policy.status (template_version r.lib c.wl.object) cause c.now
          c.cfg.restart_window in
      let notified = record applied {
        last_notification = some (record { event = event_restart_triggered; notified_at = c.now });
      } in
      record c.policy {
        status =
            recompute_observability notified c.now c.cfg.cooldown c.cfg.restart_window
              c.cfg.max_restarts_per_window;
      }

  unfoldable pub enforce_stage : Case → State W → Outcome × State W
  enforce_stage c s = persisted c (persist_policy r.client r.lib (recorded c) s)

  abbrev pub restart_stage : Case × State W → Outcome × State W
  restart_stage (c, s) = if c.cfg.dry_run then dry_run_stage c s else enforce_stage c s

  -- The supersession guard: the workload's template may have moved.
  abbrev pub guarded : Case → Result Workload × W → State W → Outcome × State W
  guarded c (err e, w) s = (failed e, release_slot c.key (at_world s w))
  guarded c (ok fresh, w) s =
      if not (template_version r.lib fresh.object == c.version)
      then skip "superseded" (release_slot c.key (at_world s w))
      else restart_stage (capture_profile c (at_world s w))

  unfoldable pub guard_stage : Case → State W → Outcome × State W
  guard_stage c s =
      guarded c
        (get_workload r.client r.lib (kind_of c.wl.object) c.wl.ref.namespace c.wl.ref.name s.world)
        s

  abbrev pub acquire_answer : Case → Gate.Outcome × Gate → State W → Outcome × State W
  acquire_answer c (already_in_f, g) s = skip "in_progress" (record s { gate = g })
  acquire_answer c (cap_reached, g) s = skip_requeue r.requeue_after "cap" (record s { gate = g })
  acquire_answer c (acquired, g) s =
      guard_stage c (note (inflight_gauge (inflight_count g)) (record s { gate = g }))

  unfoldable pub acquire_stage : Case → State W → Outcome × State W
  acquire_stage c s = acquire_answer c (try_acquire s.gate c.key c.now) s

  -- The windows in force: the policy's, when it names some that parse.
  abbrev pub override_windows : Option (List (Window L)) → State W → List (Window L) × State W
  override_windows none s = (r.windows, note (event reason_invalid_config) s)
  override_windows (some ws) s = (ws, s)

  abbrev pub windows_named : List MaintenanceWindow → State W → List (Window L) × State W
  windows_named [] s = (r.windows, s)
  windows_named (m ∷ ms) s = override_windows (from_windows r.cal (m ∷ ms)) s

  abbrev pub wait_for : Duration → Duration → Duration
  wait_for default d = if leb_ℤ d (pos 0) then default else d

  abbrev pub window_stage : Case → List (Window L) × State W → Outcome × State W
  window_stage c (windows, s) =
      if not (is_allowed r.cal windows c.now)
      then (
        requeue (wait_for r.requeue_after (since (next_opening r.cal windows c.now) c.now)),
        notify event_restart_deferred c (note (event reason_restart_deferred) (note defers s)),
      )
      else acquire_stage c s

  abbrev pub gates : Case → State W → Outcome × State W
  gates c s =
      if in_cooldown c.policy.status c.now c.cfg.cooldown
      then skip "cooldown" s
      else if breaker_tripped c.policy.status c.version c.now c.cfg.restart_window
          c.cfg.max_restarts_per_window
      then skip "circuit_breaker"
          (notify event_circuit_breaker_tripped c (note (event reason_circuit_breaker) s))
      else window_stage c (windows_named c.cfg.maintenance_windows s)

  unfoldable pub breach_stage : Case → State W → Outcome × State W
  breach_stage c s = gates c (note (event reason_breach_detected) (note breaches s))
