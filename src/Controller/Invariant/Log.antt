-- ===== src/Controller/Invariant/Log.antt =====
-- Reconcile and its effects (internal/controller/reconciler.go): when a restart is dispatched.
use memory_leak_reloader.Base.{
  ℕ, suc, String, true, some, List, [], ◌∷◌, ◌≡◌, refl, sym, subst, none, ◌∙◌, if◌then◌else◌,
}
use memory_leak_reloader.Api.{MemoryLeakPolicy, MemoryLeakPolicyStatus, InFlightRollout}
use memory_leak_reloader.Config.{PodConfig, resolve_policy}
use memory_leak_reloader.Restart.Objects.{NamespacedName}
use memory_leak_reloader.Restart.Breaker.{apply_restart, recompute_observability}
use memory_leak_reloader.Controller.State.{
  Effect, event, persists, dispatches, delivers, skips, triggers, captures, breaches, defers,
  inflight_gauge, Reconciler, State, release_slot, persist_policy, dispatch_restart,
}
use memory_leak_reloader.Controller.Restarting.{Case, recorded, enforce_stage}
use memory_leak_reloader.Controller.Reconcile.{key_of, reconcile}
use memory_leak_reloader.Controller.Invariant.{Invariant, Reads, is_plain}
use memory_leak_reloader.Controller.Invariant.Notifying.{persisted-keeps}
use memory_leak_reloader.Controller.Invariant.Reconciles.{reconcile-keeps}

-- The number of restarts that a log holds.
unfoldable pub count_dispatches : List Effect → ℕ
count_dispatches [] = 0
count_dispatches (e ∷ es) = let rest = count_dispatches es in if is_plain e then rest else suc rest

-- The newest effect of a log is a Persist, without an error, of a status with a rollout in flight.
pub data Records : List Effect → Type 0 where
  in_flight :
      (st : MemoryLeakPolicyStatus) (f : InFlightRollout) (es : List Effect)
      → st.in_flight ≡ some f
      → Records (persists st none ∷ es)

-- Each dispatch of a log comes next after such a persist.
unfoldable pub IsRecorded : List Effect → Type 0
IsRecorded [] = Unit
IsRecorded (dispatches k ∷ es) = Records es × IsRecorded es
IsRecorded (event k ∷ es) = IsRecorded es
IsRecorded (persists st e ∷ es) = IsRecorded es
IsRecorded (delivers e ss ∷ es) = IsRecorded es
IsRecorded (skips k ∷ es) = IsRecorded es
IsRecorded (triggers k ∷ es) = IsRecorded es
IsRecorded (captures k ∷ es) = IsRecorded es
IsRecorded (breaches ∷ es) = IsRecorded es
IsRecorded (defers ∷ es) = IsRecorded es
IsRecorded (inflight_gauge n ∷ es) = IsRecorded es

plain-IsRecorded :
    (e : Effect) (es : List Effect) → is_plain e ≡ true → IsRecorded es → IsRecorded (e ∷ es)
unfolding IsRecorded
plain-IsRecorded (dispatches k) es p h = cc p
plain-IsRecorded (event k) es p h = h
plain-IsRecorded (persists st e) es p h = h
plain-IsRecorded (delivers e ss) es p h = h
plain-IsRecorded (skips k) es p h = h
plain-IsRecorded (triggers k) es p h = h
plain-IsRecorded (captures k) es p h = h
plain-IsRecorded breaches es p h = h
plain-IsRecorded defers es p h = h
plain-IsRecorded (inflight_gauge n) es p h = h

plain-count_dispatches :
    (e : Effect) (es : List Effect)
    → is_plain e ≡ true
    → count_dispatches (e ∷ es) ≡ count_dispatches es
unfolding count_dispatches
plain-count_dispatches e es p = rw p refl

module _ {L F W : Type 0} (r : Reconciler L F W) where
  abbrev LogIsRecorded : State W → Type 0
  LogIsRecorded s = IsRecorded s.log

  -- The status that is written before a restart has a rollout in flight.
  recorded-in_flight :
      (c : Case) → (f : InFlightRollout) × ((recorded r c).status.in_flight ≡ some f)
  unfolding recorded apply_restart recompute_observability
  recorded-in_flight c = (_, refl)

  enforce_stage-IsRecorded :
      (c : Case) (s : State W) → IsRecorded s.log → IsRecorded (enforce_stage r c s).1.log
  unfolding enforce_stage persist_policy dispatch_restart release_slot IsRecorded
  enforce_stage-IsRecorded c s h =
      let (f, e) = recorded-in_flight c in
      persisted-keeps r LogIsRecorded (λ x s' p h'. plain-IsRecorded x s'.log p h') c
        (persist_policy r.client r.lib (recorded r c) s) (λ s' h'. h') h
        (λ none_left. (
          subst (λ o. Records (persists (recorded r c).status o ∷ s.log)) (sym none_left)
              (in_flight (recorded r c).status f s.log e),
          h,
        ))

  log-Invariant : (key : String) (cfg : PodConfig) → Invariant r key cfg LogIsRecorded
  unfolding release_slot IsRecorded
  log-Invariant key cfg = record {
    noted = λ e s p h. plain-IsRecorded e s.log p h;
    moved = λ w s h. h;
    warned = λ m s h. h;
    throttled = λ m s h. h;
    released = λ s h. h;
    acquired = λ t s h. h;
    enforced = λ c s k e d h. enforce_stage-IsRecorded c s h;
  }

  -- Every restart that a reconciliation dispatches comes right after a Persist, which returned no
  -- error, of a status that has a rollout in flight: if each dispatch of the log before it does,
  -- each dispatch of the log after it does.
  pub reconcile-IsRecorded :
      (req : NamespacedName) (s : State W) → IsRecorded s.log → IsRecorded (reconcile r req s).1.log
  reconcile-IsRecorded req s h =
      reconcile-keeps r LogIsRecorded req s (λ w. h) (λ p read. log-Invariant (key_of p) _)

  abbrev Dispatched : ℕ → State W → Type 0
  Dispatched n s = count_dispatches s.log ≡ n

  dry_run-Invariant :
      (n : ℕ) (key : String) (cfg : PodConfig)
      → cfg.dry_run ≡ true
      → Invariant r key cfg (Dispatched n)
  unfolding release_slot
  dry_run-Invariant n key cfg d = record {
    noted = λ e s p h. plain-count_dispatches e s.log p ∙ h;
    moved = λ w s h. h;
    warned = λ m s h. h;
    throttled = λ m s h. h;
    released = λ s h. plain-count_dispatches _ s.log refl ∙ h;
    acquired = λ t s h. h;
    enforced = λ c s k e x h. cc (x, d);
  }

  -- A policy in dry-run mode restarts nothing: when every policy that the reconciliation may act on
  -- resolves to a dry run, no restart is dispatched.
  pub reconcile_dry_run :
      (req : NamespacedName) (s : State W)
      → ((p : MemoryLeakPolicy)
          → Reads r req s p
          → (resolve_policy r.defaults p.spec).dry_run ≡ true)
      → count_dispatches (reconcile r req s).1.log ≡ count_dispatches s.log
  reconcile_dry_run req s d =
      reconcile-keeps r (Dispatched (count_dispatches s.log)) req s (λ w. refl)
        (λ p a. dry_run-Invariant (count_dispatches s.log) (key_of p) _ (d p a))
