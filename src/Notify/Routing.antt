-- ===== src/Notify/Routing.antt =====
-- Where a notification goes (internal/notify/notify.go).
use memory_leak_reloader.Base.{
  String, true, false, some, List, [], ◌∷◌, ◌≡◌, ◌≢◌, ◌⊎◌, inl, inr, refl, arith, string_eq, All,
  Option-cases, Bool-cases,
}
use memory_leak_reloader.Base.Map.{Map, lookup}
use memory_leak_reloader.Base.Time.{Duration}
use memory_leak_reloader.Notify.{
  Event, Sink, Notifier, is_slack_bot, any_slack_bot, new, route_sinks, first_slack_bot,
  resolve_targets, targets_for,
}

-- A sink that one of these names is registered for.
abbrev pub RegisteredFor : Notifier → List String → Sink → Type 0
RegisteredFor n names s = (name : String) × (lookup name n.routes ≡ some s)

All-route_sinks :
    (n : Notifier) (ns names : List String) → All (RegisteredFor n ns) (route_sinks n names)
unfolding route_sinks
All-route_sinks n ns [] = tt
All-route_sinks n ns (name ∷ names) = elim (Option-cases (lookup name n.routes)) [
  | inl unknown ↦ rw unknown (All-route_sinks n ns names)
  | inr (s, e) ↦ rw e ((name, e), All-route_sinks n ns names)
]

first_slack_bot_lem :
    (ss : List Sink)
    → any_slack_bot ss ≡ true
    → (s : Sink) × (first_slack_bot ss ≡ some s) × (is_slack_bot s ≡ true)
unfolding any_slack_bot first_slack_bot
first_slack_bot_lem [] h = cc
first_slack_bot_lem (s ∷ ss) h = elim (Bool-cases (is_slack_bot s)) [
  | inl bot ↦ (s, rw bot, bot)
  | inr other ↦
      let rest = first_slack_bot_lem ss (rw other at h) in (rest.0, rw other rest.1, rest.2)
]

-- A notification that names routes goes to registered route sinks only, never to the default sinks
-- of the controller.
pub resolve_targets_routes :
    (n : Notifier) (e : Event)
    → e.routes ≢ []
    → All (RegisteredFor n e.routes) (resolve_targets n e)
unfolding resolve_targets
resolve_targets_routes n e h = go e.routes refl
  where
    go : (rs : List String) → e.routes ≡ rs → All (RegisteredFor n e.routes) (targets_for n e rs)
    go [] k = absurd (h k)
    go (r ∷ rs) k = All-route_sinks n e.routes (r ∷ rs)

-- Without routes, a channel override replaces the default sinks by one Slack bot, if there is one
-- among them.
pub resolve_targets_channel :
    (sinks : List Sink) (routes : Map String Sink) (events : List String) (timeout : Duration)
    (e : Event)
    → e.routes ≡ []
    → e.slack_channel ≢ ""
    → any_slack_bot sinks ≡ true
    → (s : Sink) × (resolve_targets (new sinks routes events timeout) e ≡ s ∷ [])
      × (is_slack_bot s ≡ true)
unfolding resolve_targets new
resolve_targets_channel sinks routes events timeout e none_named h k =
    let bot = first_slack_bot_lem sinks k in
    (bot.0, ground (arith, none_named, string_eq.beq_iff e.slack_channel "", bot.1, k), bot.2)

-- With neither routes nor a channel override, or with no Slack bot, the default sinks are used.
pub resolve_targets_default :
    (sinks : List Sink) (routes : Map String Sink) (events : List String) (timeout : Duration)
    (e : Event)
    → e.routes ≡ []
    → (e.slack_channel ≡ "") ⊎ (any_slack_bot sinks ≡ false)
    → resolve_targets (new sinks routes events timeout) e ≡ sinks
unfolding resolve_targets new
resolve_targets_default sinks routes events timeout e none_named h =
    ground (arith, none_named, string_eq.beq_iff e.slack_channel "", h)
