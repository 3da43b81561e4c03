-- ===== src/Controller/Invariant/Stages.antt =====
-- An invariant is kept by every stage after the breach (internal/controller/reconciler.go).
use memory_leak_reloader.Base.{
  String, Option, none, some, List, [], ◌∷◌, ◌≡◌, refl, if_both, not, ◌==◌, string_eq, sym,
}
use memory_leak_reloader.Config.{PodConfig, or_else}
use memory_leak_reloader.Api.{MaintenanceWindow}
use memory_leak_reloader.Gate
use memory_leak_reloader.Gate.{
  Gate, try_acquire, already_in_f, cap_reached, acquired, inflight_count,
}
use memory_leak_reloader.Maintenance.{Window, is_allowed}
use memory_leak_reloader.Maintenance.Parse.{from_windows}
use memory_leak_reloader.Restart.Cluster.{Result, ok, err}
use memory_leak_reloader.Restart.Workload.{Workload, template_version}
use memory_leak_reloader.Restart.Breaker.{in_cooldown, breaker_tripped}
use memory_leak_reloader.Controller.State.{CaptureResult, Capturer, Reconciler, State, release_slot}
use memory_leak_reloader.Controller.Restarting.{
  profile_of, Case, captured, capture_by, capture_profile, recently_would_restart, dry_run_stage,
  restart_stage, guarded, guard_stage, acquire_answer, acquire_stage, override_windows,
  windows_named, window_stage, gates, breach_stage,
}
use memory_leak_reloader.Controller.Invariant.{Invariant}
use memory_leak_reloader.Controller.Invariant.Notifying.{notify-keeps}

module _ {L F W : Type 0} (r : Reconciler L F W) where
  abbrev pub Alike : Case → Case × State W → Type 0
  Alike c a = (a.0.key ≡ c.key) × (a.0.cfg ≡ c.cfg)

  captured-Alike :
      (c : Case) (s : State W) (a : Result CaptureResult × W) → Alike c (captured r c s a)
  captured-Alike c s (err e, w) = (refl, refl)
  captured-Alike c s (ok res, w) = (refl, refl)

  capture_by-Alike :
      (o : Option (Capturer W)) (c : Case) (s : State W) → Alike c (capture_by r o c s)
  capture_by-Alike none c s = (refl, refl)
  capture_by-Alike (some capture) c s =
      if_both (Alike c) (not (or_else c.cfg.profile_capture r.profile_enabled)) _ _
        (λ e. (refl, refl))
        (λ e.
          if_both (Alike c) c.cfg.dry_run _ _ (λ e'. (refl, refl))
            (λ e'. captured-Alike c s (profile_of r capture c s.world)))

  -- A capture changes neither the key nor the configuration of the case.
  pub capture_profile-Alike : (c : Case) (s : State W) → Alike c (capture_profile r c s)
  unfolding capture_profile
  capture_profile-Alike c s = capture_by-Alike r.capturer c s

module _ {L F W : Type 0} (r : Reconciler L F W) (key : String) (cfg : PodConfig)
    (P : State W → Type 0) (i : Invariant r key cfg P) where
  abbrev Kept : {A : Type 0} → A × State W → Type 0
  Kept a = P a.1

  captured-keeps :
      (c : Case) (s : State W) (a : Result CaptureResult × W) → P s → P (captured r c s a).1
  captured-keeps c s (err e, w) h = i.noted _ _ refl (i.moved w s h)
  captured-keeps c s (ok res, w) h = i.noted _ _ refl (i.noted _ _ refl (i.moved w s h))

  capture_by-keeps :
      (o : Option (Capturer W)) (c : Case) (s : State W) → P s → P (capture_by r o c s).1
  capture_by-keeps none c s h = h
  capture_by-keeps (some capture) c s h =
      if_both Kept (not (or_else c.cfg.profile_capture r.profile_enabled)) _ _ (λ e. h)
        (λ e.
          if_both Kept c.cfg.dry_run _ _ (λ e'. i.noted _ s refl h)
            (λ e'. captured-keeps c s (profile_of r capture c s.world) h))

  capture_profile-keeps : (c : Case) (s : State W) → P s → P (capture_profile r c s).1
  unfolding capture_profile
  capture_profile-keeps c s h = capture_by-keeps r.capturer c s h

  release-keeps : (c : Case) (s : State W) → c.key ≡ key → P s → P (release_slot c.key s)
  release-keeps c s k h = rw k (i.released s h)

  dry_run_stage-keeps : (c : Case) (s : State W) → c.key ≡ key → P s → P (dry_run_stage r c s).1
  unfolding dry_run_stage
  dry_run_stage-keeps c s k h =
      let freed = release-keeps c s k h in
      if_both Kept (recently_would_restart r c (release_slot c.key s)) _ _
        (λ e. i.noted _ _ refl freed)
        (λ e.
          notify-keeps r P i.noted _ c _
            (i.noted _ _ refl (i.noted _ _ refl (i.throttled _ _ freed))))

  restart_stage-keeps :
      (c : Case) (s : State W) → c.key ≡ key → c.cfg ≡ cfg → P s → P (restart_stage r (c, s)).1
  restart_stage-keeps c s k e h =
      if_both Kept c.cfg.dry_run _ _ (λ d. dry_run_stage-keeps c s k h)
        (λ d. i.enforced c s k e (rw (sym e) d) h)

  guarded-keeps :
      (c : Case) (a : Result Workload × W) (s : State W)
      → c.key ≡ key
      → c.cfg ≡ cfg
      → P s
      → P (guarded r c a s).1
  guarded-keeps c (err e, w) s k f h = release-keeps c _ k (i.moved w s h)
  guarded-keeps c (ok fresh, w) s k f h =
      let s' : State W = record s { world = w } in
      let taken = capture_profile-Alike r c s' in
      if_both Kept (not (template_version r.lib fresh.object == c.version)) _ _
        (λ e. i.noted _ _ refl (release-keeps c _ k (i.moved w s h)))
        (λ e.
          restart_stage-keeps (capture_profile r c s').0 (capture_profile r c s').1 (rw taken.0 k)
            (rw taken.1 f) (capture_profile-keeps c s' (i.moved w s h)))

  guard_stage-keeps :
      (c : Case) (s : State W) → c.key ≡ key → c.cfg ≡ cfg → P s → P (guard_stage r c s).1
  unfolding guard_stage
  guard_stage-keeps c s k e h = guarded-keeps c _ s k e h

  acquire_answer-keeps :
      (c : Case) (a : Gate.Outcome × Gate) (s : State W)
      → c.key ≡ key
      → c.cfg ≡ cfg
      → P (record s { gate = a.1 })
      → P (acquire_answer r c a s).1
  acquire_answer-keeps c (already_in_f, g) s k e h = i.noted _ _ refl h
  acquire_answer-keeps c (cap_reached, g) s k e h = i.noted _ _ refl h
  acquire_answer-keeps c (acquired, g) s k e h = guard_stage-keeps c _ k e (i.noted _ _ refl h)

  acquire_stage-keeps :
      (c : Case) (s : State W) → c.key ≡ key → c.cfg ≡ cfg → P s → P (acquire_stage r c s).1
  unfolding acquire_stage
  acquire_stage-keeps c s k e h = acquire_answer-keeps c _ s k e (rw k (i.acquired c.now s h))

  override_windows-keeps :
      (o : Option (List (Window L))) (s : State W) → P s → P (override_windows r o s).1
  override_windows-keeps none s h = i.noted _ s refl h
  override_windows-keeps (some ws) s h = h

  windows_named-keeps :
      (ms : List MaintenanceWindow) (s : State W) → P s → P (windows_named r ms s).1
  windows_named-keeps [] s h = h
  windows_named-keeps (m ∷ ms) s h = override_windows-keeps (from_windows r.cal (m ∷ ms)) s h

  window_stage-keeps :
      (c : Case) (a : List (Window L) × State W)
      → c.key ≡ key
      → c.cfg ≡ cfg
      → P a.1
      → P (window_stage r c a).1
  window_stage-keeps c (windows, s) k e h =
      if_both Kept (not (is_allowed r.cal windows c.now)) _ _
        (λ d. notify-keeps r P i.noted _ c _ (i.noted _ _ refl (i.noted _ _ refl h)))
        (λ d. acquire_stage-keeps c s k e h)

  gates-keeps : (c : Case) (s : State W) → c.key ≡ key → c.cfg ≡ cfg → P s → P (gates r c s).1
  gates-keeps c s k e h =
      if_both Kept (in_cooldown c.policy.status c.now c.cfg.cooldown) _ _ (λ d. i.noted _ s refl h)
        (λ d.
          if_both Kept
            (breaker_tripped c.policy.status c.version c.now c.cfg.restart_window
              c.cfg.max_restarts_per_window)
            _ _ (λ d'. i.noted _ _ refl (notify-keeps r P i.noted _ c _ (i.noted _ _ refl h)))
            (λ d'. window_stage-keeps c _ k e (windows_named-keeps c.cfg.maintenance_windows s h)))

  pub breach_stage-keeps :
      (c : Case) (s : State W) → c.key ≡ key → c.cfg ≡ cfg → P s → P (breach_stage r c s).1
  unfolding breach_stage
  breach_stage-keeps c s k e h = gates-keeps c _ k e (i.noted _ _ refl (i.noted _ _ refl h))
