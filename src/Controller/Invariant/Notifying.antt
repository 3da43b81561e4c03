-- ===== src/Controller/Invariant/Notifying.antt =====
-- Notifications and restarts keep a property that the effects they write keep
-- (internal/controller/reconciler.go).
use memory_leak_reloader.Base.{String, true, Option, none, some, List, [], ◌∷◌, ◌≡◌, refl, if_both}
use memory_leak_reloader.Api.{MemoryLeakPolicy}
use memory_leak_reloader.Notify.{Notifier, known_route}
use memory_leak_reloader.Restart.Cluster.{Error}
use memory_leak_reloader.Controller.State.{
  Effect, Reconciler, State, note, at_world, release_slot, persist_policy, dispatch_restart,
}
use memory_leak_reloader.Controller.Restarting.{
  Case, known_routes, notify_by, notify, dispatched, persisted, recorded, enforce_stage,
}
use memory_leak_reloader.Controller.Invariant.{is_plain}

module _ {L F W : Type 0} (r : Reconciler L F W) (P : State W → Type 0)
    (noted : (e : Effect) (s : State W) → is_plain e ≡ true → P s → P (note e s)) where
  known_routes-keeps :
      (n : Notifier) (names : List String) (s : State W) → P s → P (known_routes n names s).1
  unfolding known_routes
  known_routes-keeps n [] s h = h
  known_routes-keeps n (name ∷ names) s h =
      known_routes-keeps n names _
        (if_both P (known_route n name) s _ (λ e. h) (λ e. noted _ s refl h))

  notify_by-keeps :
      (o : Option Notifier) (t : String) (c : Case) (s : State W) → P s → P (notify_by r o t c s)
  notify_by-keeps none t c s h = h
  notify_by-keeps (some n) t c s h = noted _ _ refl (known_routes-keeps n c.cfg.notify_routes s h)

  pub notify-keeps : (t : String) (c : Case) (s : State W) → P s → P (notify r t c s)
  unfolding notify
  notify-keeps t c s h = notify_by-keeps r.notifier t c s h

  pub dispatched-keeps :
      (c : Case) (a : Option Error × State W)
      → ((s : State W) → P s → P (release_slot c.key s))
      → P a.1
      → P (dispatched r c a).1
  dispatched-keeps c (some e, s) released h = noted _ _ refl (released s h)
  dispatched-keeps c (none, s) released h = notify-keeps _ c _ (noted _ _ refl (noted _ _ refl h))

  pub persisted-keeps :
      (c : Case) (a : (Option Error × MemoryLeakPolicy) × State W)
      → ((s : State W) → P s → P (release_slot c.key s))
      → P a.1
      → (a.0.0 ≡ none → P (dispatch_restart r.client r.lib c.key c.wl.object c.now a.1).1)
      → P (persisted r c a).1
  persisted-keeps c ((some e, p), s) released h d = noted _ _ refl (released s h)
  persisted-keeps c ((none, p), s) released h d =
      dispatched-keeps (record c { policy = p })
        (dispatch_restart r.client r.lib c.key c.wl.object c.now s) released (d refl)

  -- What a persist and a dispatch keep is kept by the restart.
  pub enforce_stage-keeps :
      (c : Case) (s : State W)
      → ((e : Effect) (s' : State W) → P s' → P (note e s'))
      → ((w : W) (s' : State W) → P s' → P (at_world s' w))
      → ((s' : State W) → P s' → P (release_slot c.key s'))
      → P s
      → P (enforce_stage r c s).1
  unfolding enforce_stage persist_policy dispatch_restart
  enforce_stage-keeps c s any moved released h =
      let saved = any _ _ (moved _ s h) in
      persisted-keeps c (persist_policy r.client r.lib (recorded r c) s) released saved
        (λ e. any _ _ (moved _ _ saved))
