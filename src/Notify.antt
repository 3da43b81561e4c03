-- ===== src/Notify.antt =====
-- internal/notify/notify.go: notifications and the sinks that they go to, in order. What a delivery
-- does is in Delivery; its result only reaches a metric.
pub mod Routing
pub mod Format
pub mod Slack
pub mod Payload
pub mod Delivery
pub mod Routes
pub mod Registry
pub mod Sinks
use memory_leak_reloader.Base.{
  ◌*◌, String, Bool, true, false, Option, none, some, List, [], ◌∷◌, ◌==◌, string_eq, if◌then◌else◌,
  ◌&&◌, not,
}
use memory_leak_reloader.Base.Int.{ℤ, pos, int_eq}
use memory_leak_reloader.Base.Map.{Map, lookup, has, insert}
use memory_leak_reloader.Base.Time.{Time, Duration, second}

abbrev pub event_restart_triggered : String
event_restart_triggered = "RestartTriggered"

abbrev pub event_circuit_breaker_tripped : String
event_circuit_breaker_tripped = "CircuitBreakerTripped"

abbrev pub event_restart_deferred : String
event_restart_deferred = "RestartDeferred"

pub record SamplePoint : Type 0 where
  pub time : Time
  pub bytes : ℤ

pub record Event : Type 0 where
  pub type : String
  pub kind : String
  pub workload : String
  pub namespace : String
  pub container : String
  pub mode : String
  pub observed : ℤ
  pub threshold : ℤ
  pub window : Duration
  pub reason : String
  pub dry_run : Bool
  pub time : Time
  pub samples : List SamplePoint
  pub cluster_name : String
  pub routes : List String
  pub slack_channel : String

-- The sinks of sinks.go, without their HTTP clients.
pub data Sink : Type 0 where
  slack_webhook : String → Sink  -- WebhookURL
  slack_bot : String → String → Sink  -- Token, DefaultChannel
  webhook : String → String → Sink  -- URL, AuthHeader
  datadog : String → String → Sink  -- Site, APIKey

abbrev pub is_slack_bot : Sink → Bool
is_slack_bot (slack_bot token channel) = true
is_slack_bot (slack_webhook url) = false
is_slack_bot (webhook url auth) = false
is_slack_bot (datadog site key) = false

pub record Notifier : Type 0 where
  pub default_sinks : List Sink
  pub routes : Map String Sink
  pub has_slack_bot : Bool
  pub enabled : Map String Bool
  pub timeout : Duration

-- The loops of New.
unfoldable pub enable_all : List String → Map String Bool → Map String Bool
enable_all [] m = m
enable_all (e ∷ es) m = enable_all es (insert e true m)

unfoldable pub any_slack_bot : List Sink → Bool
any_slack_bot [] = false
any_slack_bot (s ∷ ss) = let rest = any_slack_bot ss in if is_slack_bot s then true else rest

unfoldable pub new : List Sink → Map String Sink → List String → Duration → Notifier
new sinks routes events timeout = record {
  default_sinks = sinks;
  routes = routes;
  has_slack_bot = any_slack_bot sinks;
  enabled = enable_all events [];
  timeout = if timeout == pos 0 then pos (5 * second) else timeout;
}

unfoldable pub known_route : Notifier → String → Bool
known_route n name = has name n.routes

abbrev pub add_sink : Option Sink → List Sink → List Sink
add_sink none ss = ss
add_sink (some s) ss = s ∷ ss

unfoldable pub route_sinks : Notifier → List String → List Sink
route_sinks n [] = []
route_sinks n (name ∷ names) = add_sink (lookup name n.routes) (route_sinks n names)

unfoldable pub first_slack_bot : List Sink → Option Sink
first_slack_bot [] = none
first_slack_bot (s ∷ ss) = let rest = first_slack_bot ss in if is_slack_bot s then some s else rest

abbrev pub only : Option Sink → List Sink → List Sink
only none ss = ss
only (some s) ss = s ∷ []

abbrev pub default_targets : Notifier → Event → List Sink
default_targets n e =
    if not (e.slack_channel == "") && n.has_slack_bot
    then only (first_slack_bot n.default_sinks) n.default_sinks
    else n.default_sinks

-- resolveTargets.
abbrev pub targets_for : Notifier → Event → List String → List Sink
targets_for n e [] = default_targets n e
targets_for n e (r ∷ rs) = route_sinks n (r ∷ rs)

unfoldable pub resolve_targets : Notifier → Event → List Sink
resolve_targets n e = targets_for n e e.routes

abbrev pub is_enabled : Option Bool → Bool
is_enabled none = false
is_enabled (some b) = b

-- The sinks that Notify sends to.
unfoldable pub deliveries : Notifier → Event → List Sink
deliveries n e = if is_enabled (lookup e.type n.enabled) then resolve_targets n e else []
