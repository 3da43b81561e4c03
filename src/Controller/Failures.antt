-- ===== src/Controller/Failures.antt =====
-- What a restart that fails leaves behind (internal/controller/reconciler.go).
use memory_leak_reloader.Base.{
  String, false, Option, none, some, List, ◌≡◌, refl, subst, ◌∙◌, if_both, not, ◌==◌, string_eq,
  beq_refl,
}
use memory_leak_reloader.Api.{MemoryLeakPolicy}
use memory_leak_reloader.Gate
use memory_leak_reloader.Gate.{
  Gate, acquired, already_in_f, cap_reached, try_acquire, release, holds,
}
use memory_leak_reloader.Gate.Laws.{holds-release}
use memory_leak_reloader.Maintenance.{Window, is_allowed}
use memory_leak_reloader.Restart.Cluster.{Error, Result, ok, err}
use memory_leak_reloader.Restart.Workload.{Workload, template_version, kind_of}
use memory_leak_reloader.Restart.Resolve.{get_workload}
use memory_leak_reloader.Restart.Breaker.{in_cooldown, breaker_tripped}
use memory_leak_reloader.Controller.State.{
  Reconciler, State, Outcome, release_slot, persist_policy, dispatch_restart, at_world,
}
use memory_leak_reloader.Controller.Restarting.{
  Case, dispatched, persisted, recorded, enforce_stage, dry_run_stage, recently_would_restart,
  restart_stage, guarded, guard_stage, capture_profile, acquire_answer, acquire_stage, window_stage,
  windows_named, gates, breach_stage,
}
use memory_leak_reloader.Controller.Invariant.Stages.{capture_profile-Alike}

module _ {L F W : Type 0} (r : Reconciler L F W) where
  -- An outcome with an error comes with no slot for the workload.
  abbrev Freed : String → Outcome × State W → Type 0
  Freed k o = (e : Error) → o.0.error ≡ some e → holds o.1.gate k ≡ false

  released : (g : Gate) (k : String) → holds (release g k) k ≡ false
  released g k = holds-release g k k ∙ rw (beq_refl k) refl

  release_slot-free : (k : String) (s : State W) → holds (release_slot k s).gate k ≡ false
  unfolding release_slot
  release_slot-free k s = released s.gate k

  dispatched-Freed : (c : Case) (a : Option Error × State W) → Freed c.key (dispatched r c a)
  dispatched-Freed c (some e, s) x h = release_slot-free c.key s
  dispatched-Freed c (none, s) x h = absurd (cc h)

  persisted-Freed :
      (c : Case) (a : (Option Error × MemoryLeakPolicy) × State W) → Freed c.key (persisted r c a)
  persisted-Freed c ((some e, p), s) x h = release_slot-free c.key s
  persisted-Freed c ((none, p), s) x h =
      dispatched-Freed (record c { policy = p })
        (dispatch_restart r.client r.lib c.key c.wl.object c.now s) x h

  enforce_stage-Freed : (c : Case) (s : State W) → Freed c.key (enforce_stage r c s)
  unfolding enforce_stage
  enforce_stage-Freed c s = persisted-Freed c (persist_policy r.client r.lib (recorded r c) s)

  dry_run_stage-Freed : (c : Case) (s : State W) → Freed c.key (dry_run_stage r c s)
  unfolding dry_run_stage
  dry_run_stage-Freed c s =
      if_both (Freed c.key) (recently_would_restart r c (release_slot c.key s)) _ _
        (λ e x h. absurd (cc h)) (λ e x h. absurd (cc h))

  restart_stage-Freed : (c : Case) (s : State W) → Freed c.key (restart_stage r (c, s))
  restart_stage-Freed c s =
      if_both (Freed c.key) c.cfg.dry_run _ _ (λ e. dry_run_stage-Freed c s)
        (λ e. enforce_stage-Freed c s)

  guarded-Freed : (c : Case) (a : Result Workload × W) (s : State W) → Freed c.key (guarded r c a s)
  guarded-Freed c (err e, w) s = λ x h. release_slot-free c.key (at_world s w)
  guarded-Freed c (ok fresh, w) s =
      if_both (Freed c.key) (not (template_version r.lib fresh.object == c.version)) _ _
        (λ e x h. absurd (cc h))
        (λ e.
          let taken = capture_profile r c (at_world s w) in
          subst (λ k. Freed k (restart_stage r taken))
            ((capture_profile-Alike r c (at_world s w)).0) (restart_stage-Freed taken.0 taken.1))

  guard_stage-Freed : (c : Case) (s : State W) → Freed c.key (guard_stage r c s)
  unfolding guard_stage
  guard_stage-Freed c s =
      guarded-Freed c
        (get_workload r.client r.lib (kind_of c.wl.object) c.wl.ref.namespace c.wl.ref.name s.world)
        s

  acquire_answer-Freed :
      (c : Case) (a : Gate.Outcome × Gate) (s : State W) → Freed c.key (acquire_answer r c a s)
  acquire_answer-Freed c (already_in_f, g) s x h = absurd (cc h)
  acquire_answer-Freed c (cap_reached, g) s x h = absurd (cc h)
  acquire_answer-Freed c (acquired, g) s x h = guard_stage-Freed c _ x h

  acquire_stage-Freed : (c : Case) (s : State W) → Freed c.key (acquire_stage r c s)
  unfolding acquire_stage
  acquire_stage-Freed c s = acquire_answer-Freed c (try_acquire s.gate c.key c.now) s

  window_stage-Freed : (c : Case) (a : List (Window L) × State W) → Freed c.key (window_stage r c a)
  window_stage-Freed c (windows, s) =
      if_both (Freed c.key) (not (is_allowed r.cal windows c.now)) _ _ (λ e x h. absurd (cc h))
        (λ e. acquire_stage-Freed c s)

  gates-Freed : (c : Case) (s : State W) → Freed c.key (gates r c s)
  gates-Freed c s =
      if_both (Freed c.key) (in_cooldown c.policy.status c.now c.cfg.cooldown) _ _
        (λ e x h. absurd (cc h))
        (λ e.
          if_both (Freed c.key)
            (breaker_tripped c.policy.status c.version c.now c.cfg.restart_window
              c.cfg.max_restarts_per_window)
            _ _ (λ e' x h. absurd (cc h))
            (λ e'. window_stage-Freed c (windows_named r c.cfg.maintenance_windows s)))

  -- When a breach ends in an error, of the second read of the workload, of the persist or of the
  -- dispatch, the workload holds no slot afterwards: a failed restart does not take up capacity.
  pub breach_stage_frees :
      (c : Case) (s : State W) (e : Error)
      → (breach_stage r c s).0.error ≡ some e
      → holds (breach_stage r c s).1.gate c.key ≡ false
  unfolding breach_stage
  breach_stage_frees c s e h = gates-Freed c _ e h
