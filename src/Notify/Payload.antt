-- ===== src/Notify/Payload.antt =====
-- The bodies that the sinks of internal/notify/sinks.go post.
use memory_leak_reloader.Base.{
  String, Bool, Option, List, [], ◌∷◌, ◌++◌, ◌==◌, string_eq, if◌then◌else◌,
}
use memory_leak_reloader.Base.Int.{ℤ, pos, leb_ℤ}
use memory_leak_reloader.Base.Text.{concat}
use memory_leak_reloader.Notify.{Event, event_circuit_breaker_tripped}
use memory_leak_reloader.Notify.Format.{
  Format, humanize_bytes, threshold_text, time_text, title, body,
}
use memory_leak_reloader.Notify.Slack.{Block}

-- webhookPayload.
pub record WebhookPayload : Type 0 where
  pub type : String
  pub workload_kind : String
  pub workload : String
  pub namespace : String
  pub container : String
  pub mode : String
  pub observed_bytes : ℤ
  pub threshold_bytes : ℤ
  pub observed : String
  pub threshold : String
  pub window : String
  pub reason : String
  pub dry_run : Bool
  pub time : String
  pub cluster_name : String

-- The payload of the Datadog Events API.
pub record DatadogEvent : Type 0 where
  pub title : String
  pub text : String
  pub alert_type : String
  pub tags : List String

-- A Slack message has a channel if it is the bot's.
pub data Payload : Type 0 where
  slack_payload : Option String → List Block × String → Payload
  webhook_payload : WebhookPayload → Payload
  datadog_payload : DatadogEvent → Payload

abbrev pub kind_tag : String → String → List String
kind_tag kind workload =
    if kind == "Deployment"
    then concat ("kube_deployment:" ∷ workload ∷ []) ∷ []
    else if kind == "StatefulSet"
    then concat ("kube_stateful_set:" ∷ workload ∷ []) ∷ []
    else []

abbrev pub cluster_tag : String → List String
cluster_tag name = if name == "" then [] else concat ("kube_cluster_name:" ∷ name ∷ []) ∷ []

module _ (f : Format) where
  unfoldable pub webhook_payload_for : Event → WebhookPayload
  unfolding humanize_bytes threshold_text
  webhook_payload_for e = record {
    type = e.type;
    workload_kind = e.kind;
    workload = e.workload;
    namespace = e.namespace;
    container = e.container;
    mode = e.mode;
    observed_bytes = e.observed;
    threshold_bytes = e.threshold;
    observed = humanize_bytes f e.observed;
    threshold = threshold_text f e.threshold;
    window = if leb_ℤ e.window (pos 0) then "" else f.duration e.window;
    reason = e.reason;
    dry_run = e.dry_run;
    time = time_text f e.time;
    cluster_name = e.cluster_name;
  }

  -- datadogEventPayloadFor.
  unfoldable pub datadog_event : Event → DatadogEvent
  unfolding title body
  datadog_event e = record {
    title = title f e;
    text = body f e;
    alert_type = if e.type == event_circuit_breaker_tripped then "error" else "warning";
    tags =
        (concat ("kube_namespace:" ∷ e.namespace ∷ [])
          ∷ concat ("workload:" ∷ e.workload ∷ [])
          ∷ concat ("kind:" ∷ e.kind ∷ [])
          ∷ concat ("kube_container_name:" ∷ e.container ∷ [])
          ∷ "source:memory-leak-reloader"
          ∷ [])
        ++ kind_tag e.kind e.workload
        ++ cluster_tag e.cluster_name;
  }
