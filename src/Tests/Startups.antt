-- ===== src/Tests/Startups.antt =====
-- A start with the default flags, a Slack bot and a metrics server.
use memory_leak_reloader.Base.{
  String, Option, Bool-cases, inl, inr, ap, sym, ◌∙◌, ℕ, ◌*◌, true, none, some, List, [], ◌∷◌, ◌≡◌,
  refl, arith, ◌==◌, string_eq, if◌then◌else◌, apart_of_beq,
}
use memory_leak_reloader.Base.Int.{ℤ, pos, ◌+ℤ◌, pos_part, neg_part, int_eq}
use memory_leak_reloader.Base.Text.{join_with}
use memory_leak_reloader.Base.Word.{add64, mul64, quot64, wrap64, residue, of_residue}
use memory_leak_reloader.Api.{MemoryLeakPolicy}
use memory_leak_reloader.Config.{parse_mode}
use memory_leak_reloader.Datasource.{is_in}
use memory_leak_reloader.Datasource.Source.{metrics_server, probe}
use memory_leak_reloader.Datasource.Source
use memory_leak_reloader.Maintenance.Parse.{parse_string}
use memory_leak_reloader.Notify.{Notifier, new, slack_bot, deliveries}
use memory_leak_reloader.Notify.Routes.{missing, load_routes}
use memory_leak_reloader.Restart.Cluster.{other, ok, err}
use memory_leak_reloader.Sampling.Buffer.{Sample, Key, Store, new_store, window_covered}
use memory_leak_reloader.Startup.{default_flags, Platform}
use memory_leak_reloader.Startup.Stages.{done}
use memory_leak_reloader.Startup.Launch.{
  Launched, launched, assemble, defaults_of, cache_scope, ready_source, metrics_client, capturer,
  notifications, retention, sized_store, register_all, run,
}
use memory_leak_reloader.Startup.Laws.{Started, run-Started}
use memory_leak_reloader.Startup.Channels.{build_notifier-deliveries}
use memory_leak_reloader.Startup.Notifications.{
  default_sinks, parse_events, event_types, build_notifier,
}
use memory_leak_reloader.Startup.Sizing.{sampled-covered}
use memory_leak_reloader.Startup.Sizing.Kept.{sampled}
use memory_leak_reloader.Strings.{split_string, trim_string, trim_start, trim_end, is_space}
use memory_leak_reloader.Metrics.{
  Collector, RegisterError, already_registered, register, register_from,
}
use memory_leak_reloader.Metrics.Laws.{IsRegistry, register-again}
use memory_leak_reloader.System.{Action, reconciles, samples, ticks}
use memory_leak_reloader.Tests.Configs.{leak}
use memory_leak_reloader.Tests.Samplers.{world}
use memory_leak_reloader.Tests.Sources.{web, outside}
use memory_leak_reloader.Tests.Values.{client, library, whole, calendar, web_ref, no_quantity}

abbrev platform : Platform (Unit {0}) ℤ (Unit {0}) MemoryLeakPolicy
platform = record {
  lib = library;
  cal = calendar;
  fl = whole;
  clock = λ w. pos 30;
  stamp = λ t. "30";
  web = web;
  profile = outside;
  env = λ key. if key == "SLACK_BOT_TOKEN" then "token" else "";
  parse_quantity = λ s. ok no_quantity;
  new_manager = λ o w. (ok client, w);
  metrics_client = λ w. (none, w);
  register = λ r w. (none, w);
  read_file = λ f w. missing;
  hostname = λ url. none;
  unmarshal = λ s. err (other "no JSON");
}

abbrev notifier : Notifier
notifier =
    new (slack_bot "token" "" ∷ []) [] ("RestartTriggered" ∷ "CircuitBreakerTripped" ∷ [])
      (pos 5000000000)

abbrev store : Store
store = new_store (pos 1230000000000) (pos 28)

abbrev running : Launched (Unit {0}) ℤ MemoryLeakPolicy
running =
    launched platform default_flags
      (assemble platform default_flags client (metrics_server []) []
        (defaults_of default_flags "sustained" no_quantity) none (some notifier))
      store

sized : sized_store default_flags ≡ done store
unfolding sized_store retention add64 mul64 quot64 wrap64 residue of_residue pos_part neg_part
sized = refl

notified : notifications platform default_flags world ≡ (done (some notifier), world)
unfolding notifications build_notifier default_sinks parse_events event_types load_routes
    split_string trim_string trim_start trim_end is_space
notified = refl

parsed : parse_string calendar "" ≡ some []
unfolding parse_string trim_string trim_start trim_end
parsed = refl

runs : run platform default_flags world ≡ (done running, world)
unfolding run parse_mode cache_scope ready_source metrics_client Source.new probe parse_string
    join_with trim_string trim_start trim_end capturer notifications build_notifier default_sinks
    parse_events event_types load_routes split_string is_space sized_store retention add64 mul64
    quot64 wrap64 residue of_residue pos_part neg_part register_all
runs = refl

abbrev acts : List (Action MemoryLeakPolicy)
acts = samples ∷ reconciles web_ref ∷ ticks (pos 60) ∷ []

run-Started_example : Started platform default_flags running acts world
run-Started_example = run-Started platform default_flags world world running acts runs

builds :
    build_notifier platform default_flags.notify_events "datadoghq.com" "" "" world
    ≡ ok (some notifier)
unfolding build_notifier default_sinks parse_events event_types load_routes split_string trim_string
    trim_start trim_end is_space
builds = refl

listed : is_in "RestartTriggered" (parse_events default_flags.notify_events) ≡ true
unfolding parse_events event_types split_string trim_string trim_start trim_end is_space
listed = refl

build_notifier-deliveries_example : deliveries notifier (leak [] "dev") ≡ slack_bot "token" "" ∷ []
build_notifier-deliveries_example =
    build_notifier-deliveries platform default_flags.notify_events "datadoghq.com" "" "" world
      notifier (leak [] "dev") builds (apart_of_beq "token" "" refl) refl
      (apart_of_beq "dev" "" refl) listed

abbrev at_tick : ℕ → Sample
at_tick i = record {
  time = pos 100 +ℤ pos (i * 30000000000);
  working_set = pos 90;
  limit = pos 100;
}

abbrev app : Key
app = record { namespace = "shop"; pod = "web-1"; container = "app" }

sampled-covered_example :
    window_covered (sampled store app (pos 0) at_tick 21) app default_flags.window (at_tick 21).time
    ≡ true
sampled-covered_example =
    sampled-covered default_flags 600000000000 30000000000 store at_tick (pos 100) app (pos 0) 21
      refl refl (omega arith) (omega arith) sized (λ i. refl) (omega arith)

-- A registry of names.
abbrev add_name : Collector → List String → Option RegisterError × List String
add_name c r = if is_in c.name r then (some already_registered, r) else (none, c.name ∷ r)

abbrev HasName : Collector → List String → Type 0
HasName c r = is_in c.name r ≡ true

in_after : (n : String) (r s : List String) → n ∷ r ≡ s → is_in n s ≡ true
in_after n r s e =
    let here : is_in n (n ∷ r) ≡ true = ground (arith, string_eq.beq_iff n n) in
    sym (ap (is_in n) e) ∙ here

names-IsRegistry : IsRegistry add_name HasName
names-IsRegistry = record {
  repeated = λ c r h. rw h refl;
  kept = λ c d r h. ground (arith, h);
  added = λ c r s e. elim (Bool-cases (is_in c.name r)) [
    | inl old ↦ absurd (cc (rw old at e))
    | inr new ↦ in_after c.name r s (cc (rw new at e))
  ];
  there = λ c r s e. elim (Bool-cases (is_in c.name r)) [
    | inl old ↦ let same : r ≡ s = cc (rw old at e) in rw same at old
    | inr new ↦ absurd (cc (rw new at e))
  ];
}

registered : (register add_name []).0 ≡ true
unfolding register register_from
registered = refl

register-again_example :
    register add_name (register add_name []).1 ≡ (true, (register add_name []).1)
register-again_example = register-again add_name HasName names-IsRegistry [] registered
