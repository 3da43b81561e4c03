-- ===== src/Tests/Configs.antt =====
-- Configuration, selection and notifications.
use memory_leak_reloader.Base.{
  String, true, false, none, some, List, [], ◌∷◌, ◌≡◌, ◌≢◌, refl, All, string_eq, apart_of_beq,
}
use memory_leak_reloader.Base.Int.{pos, pos_part, neg_part}
use memory_leak_reloader.Base.Map.{Map, lookup}
use memory_leak_reloader.Restart.Workload.{value_of}
use memory_leak_reloader.Api.{ContainerOverride}
use memory_leak_reloader.Config.{PodConfig, resolve_policy}
use memory_leak_reloader.Controller.Selection.{
  annotation_default_container, Candidate, select_targets, selected, sort, default_container,
}
use memory_leak_reloader.Controller.Selection.Laws.{Splits, select_targets-Splits}
use memory_leak_reloader.Notify.{Event, Sink, slack_bot, webhook, any_slack_bot}
use memory_leak_reloader.Tests.Values.{defaults, spec, no_detection, web_pod}

abbrev override : String → ContainerOverride
override name = record {
  name = name;
  detection = record no_detection { threshold_percent = pos 95 };
}

others : All (λ (o : ContainerOverride). o.name ≢ "app") (override "proxy" ∷ [])
others = (apart_of_beq "proxy" "app" refl, tt)

abbrev cfg : PodConfig
cfg = resolve_policy defaults (spec none)

select_targets-Splits_example :
    Splits cfg
      (selected web_pod cfg.containers)
      (select_targets web_pod cfg).0
      (select_targets web_pod cfg).1
select_targets-Splits_example = select_targets-Splits web_pod cfg

abbrev small : Candidate
small = record { name = "proxy"; limit = pos 10 }

abbrev large : Candidate
large = record { name = "app"; limit = pos 100 }

no_annotation : value_of annotation_default_container web_pod.annotations ≡ ""
unfolding value_of lookup
no_annotation = refl

is_default : default_container web_pod (small ∷ large ∷ []) ≡ some large
unfolding default_container value_of sort pos_part neg_part
is_default = refl

abbrev sinks : List Sink
sinks = webhook "https://hooks" "" ∷ slack_bot "token" "ops" ∷ []

abbrev routes : Map String Sink
routes = ("pager", webhook "https://pager" "") ∷ []

abbrev pub leak : List String → String → Event
leak names channel = record {
  type = "RestartTriggered";
  kind = "Deployment";
  workload = "web";
  namespace = "shop";
  container = "app";
  mode = "sustained";
  observed = pos 95;
  threshold = pos 80;
  window = pos 10;
  reason = "";
  dry_run = false;
  time = pos 30;
  samples = [];
  cluster_name = "";
  routes = names;
  slack_channel = channel;
}

abbrev routed : List String
routed = "pager" ∷ []

has_bot : any_slack_bot sinks ≡ true
unfolding any_slack_bot
has_bot = refl
