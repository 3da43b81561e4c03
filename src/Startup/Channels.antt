-- ===== src/Startup/Channels.antt =====
-- The notifier that buildNotifier (cmd/main.go) makes, and a pod's own Slack channel.
use memory_leak_reloader.Base.{
  String, Bool, true, false, some, List, [], ◌∷◌, ◌++◌, ◌≡◌, ◌≢◌, refl, ◌*◌, subst, arith, ◌==◌,
  string_eq, bool_eq, Bool-cases, inl, inr,
}
use memory_leak_reloader.Base.Int.{pos, int_eq}
use memory_leak_reloader.Base.Map.{Map, lookup, insert, lookup-insert}
use memory_leak_reloader.Base.Time.{Duration, second}
use memory_leak_reloader.Datasource.{is_in}
use memory_leak_reloader.Notify.{
  Event, Sink, slack_bot, Notifier, new, enable_all, any_slack_bot, first_slack_bot,
  resolve_targets, is_enabled, deliveries,
}
use memory_leak_reloader.Notify.Routes.{Built, built, refused, load_routes}
use memory_leak_reloader.Restart.Cluster.{ok}
use memory_leak_reloader.Startup.{Platform}
use memory_leak_reloader.Startup.Notifications.{
  default_sinks, webhook_sinks, datadog_sinks, parse_events, with_routes, build_notifier,
}

-- What is enabled stays so, and each event of the list is.
enable_all_keeps :
    (e : String) (es : List String) (m : Map String Bool)
    → is_enabled (lookup e m) ≡ true
    → is_enabled (lookup e (enable_all es m)) ≡ true
unfolding enable_all
enable_all_keeps e [] m h = h
enable_all_keeps e (x ∷ es) m h =
    enable_all_keeps e es (insert x true m) (rw (lookup-insert x e true m) (ground (arith, h)))

is_enabled-enable_all :
    (e : String) (es : List String) (m : Map String Bool)
    → is_in e es ≡ true
    → is_enabled (lookup e (enable_all es m)) ≡ true
unfolding enable_all
is_enabled-enable_all e [] m h = absurd (cc h)
is_enabled-enable_all e (x ∷ es) m h = elim (Bool-cases (x == e)) [
  | inl same ↦ enable_all_keeps e es (insert x true m) (rw (lookup-insert x e true m, same) refl)
  | inr other ↦ is_enabled-enable_all e es (insert x true m) (rw other at h)
]

-- The Slack bot of the environment is the first of the sinks.
sinks_of_token :
    (env : String → String) (site channel : String)
    → env "SLACK_BOT_TOKEN" ≢ ""
    → default_sinks env site channel
      ≡ slack_bot (env "SLACK_BOT_TOKEN") channel ∷ (webhook_sinks env ++ datadog_sinks env site)
unfolding default_sinks
sinks_of_token env site channel h =
    let given : (env "SLACK_BOT_TOKEN" == "") ≡ false =
      ground (arith, string_eq.beq_iff (env "SLACK_BOT_TOKEN") "") in
    rw given refl

built_with :
    (s : Sink) (ss : List Sink) (types : List String) (b : Built) (n : Notifier)
    → with_routes (s ∷ ss) types b ≡ ok (some n)
    → (routes : Map String Sink) × (new (s ∷ ss) routes types (pos (5 * second)) ≡ n)
built_with s ss types (refused e) n h = absurd (cc h)
built_with s ss types (built routes) n h = (routes, cc h)

-- A bot that stands first is the one that a channel override goes to.
bot_first :
    (token channel : String) (ss : List Sink) (routes : Map String Sink) (types : List String)
    (d : Duration) (e : Event)
    → e.routes ≡ []
    → e.slack_channel ≢ ""
    → is_in e.type types ≡ true
    → deliveries (new (slack_bot token channel ∷ ss) routes types d) e
      ≡ slack_bot token channel ∷ []
unfolding deliveries resolve_targets new any_slack_bot first_slack_bot
bot_first token channel ss routes types d e none_named own listed =
    rw (is_enabled-enable_all e.type types [] listed, none_named)
      (ground (arith, string_eq.beq_iff e.slack_channel ""))

module _ {L F U W : Type 0} (p : Platform L F U W) where
  -- With a bot token in the environment, the notifier that is built sends an event of a type that
  -- --notify-events lists, with a pod's own channel and no routes, to the Slack bot of that token and to
  -- no other sink, whatever webhooks and routes are configured beside it.
  pub build_notifier-deliveries :
      (events site channel file : String) (w : W) (n : Notifier) (e : Event)
      → build_notifier p events site channel file w ≡ ok (some n)
      → p.env "SLACK_BOT_TOKEN" ≢ ""
      → e.routes ≡ []
      → e.slack_channel ≢ ""
      → is_in e.type (parse_events events) ≡ true
      → deliveries n e ≡ slack_bot (p.env "SLACK_BOT_TOKEN") channel ∷ []
  unfolding build_notifier
  build_notifier-deliveries events site channel file w n e h token none_named own listed =
      let b =
        built_with (slack_bot (p.env "SLACK_BOT_TOKEN") channel)
          (webhook_sinks p.env ++ datadog_sinks p.env site) (parse_events events)
          (load_routes p.hostname p.unmarshal (p.read_file file w)) n
          (rw (sinks_of_token p.env site channel token) at h) in
      subst (λ (m : Notifier). deliveries m e ≡ slack_bot (p.env "SLACK_BOT_TOKEN") channel ∷ [])
        b.1 (bot_first _ channel _ b.0 (parse_events events) _ e none_named own listed)
