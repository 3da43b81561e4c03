-- ===== src/Startup/Notifications.antt =====
-- buildNotifier in cmd/main.go: the sinks that the environment configures, the named routes and the
-- events that are notified of.
use memory_leak_reloader.Base.{
  ◌*◌, String, Option, none, some, List, [], ◌∷◌, ◌++◌, ◌==◌, string_eq, if◌then◌else◌,
}
use memory_leak_reloader.Base.Int.{pos}
use memory_leak_reloader.Base.Map.{Map}
use memory_leak_reloader.Base.Time.{second}
use memory_leak_reloader.Strings.{split_string, trim_string}
use memory_leak_reloader.Notify.{Sink, slack_bot, slack_webhook, webhook, datadog, Notifier, new}
use memory_leak_reloader.Notify.Routes.{
  RouteError, empty_name, duplicate_name, unknown_type, unreadable, bad_file, Built, built, refused,
  load_routes,
}
use memory_leak_reloader.Restart.Cluster.{Error, other, wrapped, Result, ok, err}
use memory_leak_reloader.Startup.{Platform}

module _ (env : String → String) where
  -- A bot token is preferred over an incoming webhook.
  abbrev pub slack_sinks : String → List Sink
  slack_sinks channel =
      if env "SLACK_BOT_TOKEN" == ""
      then (if env "SLACK_WEBHOOK_URL" == ""
          then []
          else slack_webhook (env "SLACK_WEBHOOK_URL") ∷ [])
      else slack_bot (env "SLACK_BOT_TOKEN") channel ∷ []

  abbrev pub webhook_sinks : List Sink
  webhook_sinks =
      if env "WEBHOOK_URL" == ""
      then []
      else webhook (env "WEBHOOK_URL") (env "WEBHOOK_AUTH_HEADER") ∷ []

  abbrev pub datadog_sinks : String → List Sink
  datadog_sinks site =
      if env "DATADOG_EVENT_ENABLED" == "true" then datadog site (env "DD_API_KEY") ∷ [] else []

  unfoldable pub default_sinks : String → String → List Sink
  default_sinks site channel = slack_sinks channel ++ webhook_sinks ++ datadog_sinks site

-- The loop over the parts of --notify-events.
unfoldable pub event_types : List String → List String
unfolding trim_string
event_types [] = []
event_types (e ∷ es) =
    let rest = event_types es in if trim_string e == "" then rest else trim_string e ∷ rest

unfoldable pub parse_events : String → List String
unfolding event_types split_string
parse_events s = event_types (split_string b',' s)

abbrev pub notifier_for : List Sink → Map String Sink → List String → Option Notifier
notifier_for [] [] types = none
notifier_for [] (r ∷ rs) types = some (new [] (r ∷ rs) types (pos (5 * second)))
notifier_for (s ∷ ss) routes types = some (new (s ∷ ss) routes types (pos (5 * second)))

-- The errors of the routes, cut short.
abbrev pub route_error : RouteError → Error
route_error empty_name = other "notification route has empty name"
route_error (duplicate_name n) = other "duplicate notification route name"
route_error (unknown_type n t) = other "unknown type of a notification route"
route_error (unreadable e) = wrapped "read notification routes" e
route_error (bad_file e) = wrapped "parse notification routes" e

abbrev pub with_routes : List Sink → List String → Built → Result (Option Notifier)
with_routes sinks types (refused e) = err (wrapped "load notification routes" (route_error e))
with_routes sinks types (built routes) = ok (notifier_for sinks routes types)

module _ {L F U W : Type 0} (p : Platform L F U W) where
  unfoldable pub build_notifier : String → String → String → String → W → Result (Option Notifier)
  unfolding default_sinks parse_events load_routes
  build_notifier events site channel routes_file w =
      with_routes (default_sinks p.env site channel) (parse_events events)
        (load_routes p.hostname p.unmarshal (p.read_file routes_file w))
