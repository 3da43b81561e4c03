-- ===== src/Tests/Sources.antt =====
-- Data sources, routes, sinks, printed windows and profiles on concrete data.
use memory_leak_reloader.Base.{
  String, true, none, some, Option, List, [], ◌∷◌, ◌≡◌, refl, subst, arith, All, string_eq,
  apart_of_beq, if◌then◌else◌,
}
use memory_leak_reloader.Base.Int.{ℤ, pos, pos_part, neg_part}
use memory_leak_reloader.Base.Map.{lookup}
use memory_leak_reloader.Restart.Cluster.{other, Result, ok, err}
use memory_leak_reloader.Datasource.{PodMetrics, Web}
use memory_leak_reloader.Datasource.Source.{list_usage, metrics_server}
use memory_leak_reloader.Datasource.Scope.{AllInScope, ListsNamespace, list_usage-InScope}
use memory_leak_reloader.Strings.{to_lower, trim_space, trim_left, trim_right, is_space}
use memory_leak_reloader.Base.Time.{Duration}
use memory_leak_reloader.Notify.{Sink, slack_bot, Notifier, new, is_enabled, resolve_targets}
use memory_leak_reloader.Notify.Format.{Format, scale}
use memory_leak_reloader.Notify.Format.Units.{IsUnit, scale-IsUnit}
use memory_leak_reloader.Notify.Delivery.{Fanout, notify, notify-Fanout}
use memory_leak_reloader.Notify.Routes.{Route, build_routes, route_sink, route_type, detect_type}
use memory_leak_reloader.Notify.Registry.{is_built, is_well_formed, build_routes_iff}
use memory_leak_reloader.Notify.Sinks.{
  post_of, judge_response, Post, PostResponse, send, Delivered, send-Delivered,
}
use memory_leak_reloader.Maintenance.{Window, has_day}
use memory_leak_reloader.Maintenance.Parse.{parse_window}
use memory_leak_reloader.Maintenance.Print.{
  any_day, SameDays, print_days, print_hhmm, parse_window-print,
}
use memory_leak_reloader.Profile.{put, Outside, Capturer, log_sink, capture}
use memory_leak_reloader.Profile.Capture.{Captured, capture-Captured}
use memory_leak_reloader.Controller.State.{CaptureResult}
use memory_leak_reloader.Tests.Values.{calendar}
use memory_leak_reloader.Tests.Configs.{leak}

-- One pod in each namespace.
abbrev pub pod_in : String → PodMetrics
pod_in ns = record {
  namespace = ns;
  name = "web-1";
  containers = record { name = "app"; memory = pos 97 } ∷ [];
}

abbrev pub web : {W : Type 0} → Web W ℤ
web = record {
  get = λ url headers w. (err (other "refused"), w);
  with_query = λ url q. ok url;
  decode_prom = λ s. err (other "no JSON");
  decode_datadog = λ s. err (other "no JSON");
  decode_text = ok;
  parse_float = λ s. ok (pos 1);
  to_int64 = λ f. f;
  now = λ w. pos 30;
  unix = λ t. "30";
  decimal = λ n. "200";
  list_pod_metrics = λ ns limit w. (ok (pod_in ns ∷ []), w);
}

web-ListsNamespace : ListsNamespace (web {W = Unit {0}})
web-ListsNamespace ns w pms h e =
    subst (All (λ (pm : PodMetrics). pm.namespace ≡ ns)) one (refl, tt)
  where
    one : pod_in ns ∷ [] ≡ pms
    one = cc e

abbrev shop : List String
shop = "shop" ∷ []

list_usage-InScope_example :
    AllInScope shop (list_usage (web {W = Unit {0}}) (metrics_server shop) shop tt).0
list_usage-InScope_example =
    list_usage-InScope (web {W = Unit {0}}) web-ListsNamespace (metrics_server shop) shop tt
      (apart_of_beq "shop" "" refl, tt)

abbrev slack_host : String → Option String
slack_host url = some "hooks.slack.com"

abbrev route_list : List Route
route_list =
    record { name = "pager"; type = "Webhook "; url = "https://pager"; auth_header = "key" }
    ∷ record { name = "team"; type = "auto"; url = "https://hooks.slack.com/x"; auth_header = "" }
    ∷ []

fine : is_well_formed slack_host route_list ≡ true
unfolding route_sink route_type detect_type to_lower trim_space trim_left trim_right is_space
fine = refl

build_routes_iff_example :
    is_built (build_routes slack_host route_list) ≡ is_well_formed slack_host route_list
build_routes_iff_example = build_routes_iff slack_host route_list

-- Texts that tell little.
abbrev plain : Format
plain = record {
  decimal = λ n. "1";
  quoted = λ s. s;
  ratio = λ a b. "1.5";
  duration = λ d. "1m0s";
  to_second = λ d. d;
  rfc3339 = λ t. "2024-01-01T00:00:00Z";
  plot = λ p. "";
}

scale-IsUnit_example : IsUnit 3000000 (scale 3000000)
scale-IsUnit_example = scale-IsUnit 3000000 (omega arith) (omega arith)

abbrev answer : Post → Unit {0} → Result PostResponse × Unit {0}
answer p w = (ok (record { status = 200; reply = ok (record { is_ok = true; error = "" }) }), w)

abbrev bot : Sink
bot = slack_bot "token" "ops"

is_sent : (send plain answer bot (leak [] "dev") tt).0 ≡ none
unfolding send post_of judge_response
is_sent = refl

send-Delivered_example : Delivered plain answer bot (leak [] "dev") tt
send-Delivered_example = send-Delivered plain answer bot (leak [] "dev") tt is_sent

abbrev notifier : Notifier
notifier = new (bot ∷ slack_bot "token" "" ∷ []) [] ("RestartTriggered" ∷ []) (pos 0)

notify-Fanout_example :
    Fanout plain
      (λ (d : Duration). answer)
      notifier.timeout
      (leak [] "dev")
      (if is_enabled (lookup (leak [] "dev").type notifier.enabled)
        then resolve_targets notifier (leak [] "dev")
        else [])
      tt
      (notify plain (λ (d : Duration). answer) notifier (leak [] "dev") tt).0
      (notify plain (λ (d : Duration). answer) notifier (leak [] "dev") tt).1
notify-Fanout_example = notify-Fanout plain (λ (d : Duration). answer) notifier (leak [] "dev") tt

-- Weekdays from nine to five.
abbrev office : Window (Unit {0})
office = record {
  days = (1, true) ∷ (2, true) ∷ (3, true) ∷ (4, true) ∷ (5, true) ∷ [];
  start = 540;
  end = 1020;
  loc = tt;
}

some_day : any_day office.days ≡ true
unfolding has_day lookup
some_day = refl

parse_window-print_example :
    (v : Window (Unit {0})) × (parse_window calendar
        (print_days office.days)
        (print_hhmm 540)
        (print_hhmm 1020)
        "UTC"
      ≡ some v)
    × SameDays v.days office.days
    × (v.start ≡ 540)
    × (v.end ≡ 1020)
    × (v.loc ≡ tt)
parse_window-print_example =
    parse_window-print calendar office "UTC" some_day (omega arith) (omega arith) refl

abbrev pub outside : {W : Type 0} → Outside (Unit {0}) W
outside = record {
  decimal = λ n. "6060";
  get =
      λ t url w. (ok (record { status_code = pos 200; body = 1 ∷ 2 ∷ 3 ∷ []; failure = none }), w);
  base64 = λ bs. "AQID";
  join = λ d k. k;
  dir = λ p. p;
  mkdir_all = λ d w. (none, w);
  write_file = λ p bs w. (none, w);
  load_config = λ r w. (ok tt, w);
  put_object = λ u b k bs w. (none, w);
}

abbrev capturer : Capturer (Unit {0})
capturer = record { port = pos 6060; timeout = pos 10; sink = log_sink }

abbrev result : CaptureResult
result = record { uri = "data:application/octet-stream;base64,AQID"; size = 3 }

is_captured : (capture outside capturer "10.0.0.1" "/debug/pprof/heap" "k" tt).0 ≡ ok result
unfolding capture put pos_part neg_part
is_captured = refl

capture-Captured_example : Captured outside capturer "10.0.0.1" "/debug/pprof/heap" "k" tt result
capture-Captured_example =
    capture-Captured outside capturer "10.0.0.1" "/debug/pprof/heap" "k" tt result is_captured
