-- ===== src/Startup/Launch.antt =====
-- run in cmd/main.go, up to the start of the manager. The logger, the metrics and the timeout of the
-- probe are left out. An error's text is cut short where it quotes a flag.
use memory_leak_reloader.Base.{
  String, Bool, true, false, Option, none, some, List, [], ◌∷◌, ◌==◌, string_eq, if◌then◌else◌,
}
use memory_leak_reloader.Base.Int.{pos, int_eq}
use memory_leak_reloader.Base.Map.{Map, insert}
use memory_leak_reloader.Base.Text.{join_with}
use memory_leak_reloader.Base.Time.{Duration}
use memory_leak_reloader.Base.Word.{add64, mul64, quot64}
use memory_leak_reloader.Api.{Quantity}
use memory_leak_reloader.Config.{Defaults, parse_mode}
use memory_leak_reloader.Controller.State.{Reconciler, State}
use memory_leak_reloader.Datasource.Source.{Options, Source, type_metrics_server, list_usage, probe}
use memory_leak_reloader.Datasource.Source
use memory_leak_reloader.Expirer.{new_expirer}
use memory_leak_reloader.Gate
use memory_leak_reloader.Maintenance.{Window}
use memory_leak_reloader.Maintenance.Parse.{parse_string}
use memory_leak_reloader.Notify.{Notifier}
use memory_leak_reloader.Profile.{SinkConfig, new_sink, new_capturer, capture}
use memory_leak_reloader.Controller.State
use memory_leak_reloader.Restart.Cluster.{other, Client}
use memory_leak_reloader.Restart.Workload.{Kinds}
use memory_leak_reloader.Sampling.Buffer.{Store, new_store}
use memory_leak_reloader.System.{System}
use memory_leak_reloader.Startup.{
  Flags, ProfileFlags, ManagerOptions, Platform, Registration, controller_setup, sampler_added,
  expirer_added, healthz, readyz,
}
use memory_leak_reloader.Startup.Stages.{
  Stage, done, failed, panicked, of_result, of_option, Run, ◌>>=◌, ◌>>◌, lift, fails, yields,
}
use memory_leak_reloader.Startup.Notifications.{build_notifier}

-- The cache's namespaces: the controller's own one, and those of the flags.
unfoldable pub cache_map : List String → Map String (Unit {0}) → Map String (Unit {0})
unfolding insert
cache_map [] m = m
cache_map (n ∷ ns) m = cache_map ns (insert n tt m)

abbrev pub scoped : String → List String → Stage (Option (Map String (Unit {0})))
scoped own [] = failed (other "--namespace is required")
scoped own (n ∷ ns) = done (some (cache_map (n ∷ ns) ((own, tt) ∷ [])))

unfoldable pub cache_scope : Flags → String → Stage (Option (Map String (Unit {0})))
unfolding cache_map
cache_scope f own = if f.scope_mode == "cluster" then done none else scoped own f.namespaces

-- The size of the store of series; an interval of 0 is a division by zero.
unfoldable pub retention : Flags → Duration
unfolding add64 mul64
retention f = add64 (mul64 f.window (pos 2)) f.sample_every

unfoldable pub sized_store : Flags → Stage Store
unfolding retention quot64 add64 new_store
sized_store f =
    if f.sample_every == pos 0
    then panicked
    else done (new_store (retention f) (add64 (quot64 f.window f.sample_every) (pos 8)))

abbrev pub defaults_of : Flags → String → Quantity → Defaults
defaults_of f mode growth = record {
  detection = record {
    mode = mode;
    threshold_percent = f.threshold_percent;
    threshold_absolute = none;
    window = f.window;
    trend_min_growth = growth;
  };
  sample_interval = f.sample_every;
  startup_grace = f.startup_grace;
  cooldown = f.cooldown;
  restart_window = f.restart_window;
  max_restarts_per_window = f.max_per_window;
}

abbrev pub kinds_of : Flags → Kinds
kinds_of f = record {
  deployments = f.enable_deployments;
  stateful_sets = f.enable_stateful_sets;
  rollouts = f.enable_rollouts;
}

abbrev pub sink_config : ProfileFlags → SinkConfig
sink_config f = record {
  type = f.sink;
  volume_dir = f.volume;
  object_store = record {
    provider = f.provider;
    bucket = f.bucket;
    prefix = f.prefix;
    region = f.region;
  };
}

abbrev pub env_or : (String → String) → String → String → String
env_or env key def = if env key == "" then def else env key

-- What run puts together.
pub record Launched (L F W : Type 0) : Type 0 where
  pub system : System L F W
  pub gate : Gate.Gate
  pub store : Store

-- The state that the manager starts with.
abbrev pub initial : {L F W : Type 0} → Launched L F W → W → State W
initial l w = record {
  world = w;
  gate = l.gate;
  store = l.store;
  warned = [];
  last_would_restart = [];
  log = [];
}

module _ {L F U W : Type 0} (p : Platform L F U W) (f : Flags) where
  abbrev pub source_options : Options
  source_options = record {
    type = f.ds_type;
    namespaces = f.namespaces;
    prometheus = record {
      url = f.prom_url;
      query = f.prom_query;
      bearer_token = p.env "PROM_BEARER_TOKEN";
    };
    datadog = record {
      site = f.datadog_site;
      api_key = p.env "DD_API_KEY";
      app_key = p.env "DD_APP_KEY";
      metric = f.datadog_metric;
    };
  }

  abbrev pub manager_options : Option (Map String (Unit {0})) → String → ManagerOptions
  manager_options namespaces own = record {
    cache_namespaces = namespaces;
    metrics_addr = f.metrics_addr;
    probe_addr = f.probe_addr;
    leader_election = f.leader_elect;
    leader_election_id = f.leader_id;
    leader_election_namespace = own;
  }

  -- Whether there is a metrics client: only the metrics server has one.
  unfoldable pub metrics_client : Run W Bool
  metrics_client =
      if f.ds_type == type_metrics_server
      then (λ w. fails (p.metrics_client w)) >> lift (done true)
      else lift (done false)

  -- The source, after its probe.
  unfoldable pub ready_source : Run W Source
  unfolding metrics_client
  ready_source = do
    has_client ← metrics_client
    src ← lift (of_result (Source.new source_options has_client))
    (λ w. fails (probe p.web src w))
    lift (done src)

  unfoldable pub capturer : Run W (Option (State.Capturer W))
  unfolding new_capturer
  capturer =
      if f.profile.enabled
      then (do
        sink ← λ w. yields (new_sink p.profile (sink_config f.profile) w)
        lift (done (some (capture p.profile (new_capturer sink f.profile.port f.profile.timeout)))))
      else lift (done none)

  abbrev pub assemble :
      Client W
      → Source
      → List (Window L)
      → Defaults
      → Option (State.Capturer W)
      → Option Notifier
      → System L F W
  assemble client src windows defaults capturer notifier = record {
    reconciler = record {
      client = client;
      lib = p.lib;
      cal = p.cal;
      fl = p.fl;
      clock = p.clock;
      stamp = p.stamp;
      defaults = defaults;
      kinds = kinds_of f;
      windows = windows;
      capturer = capturer;
      profile_enabled = f.profile.enabled;
      notifier = notifier;
      cluster_name = f.cluster_name;
      requeue_after = f.requeue_after;
    };
    sampler = record {
      client = client;
      lib = p.lib;
      list_usage = list_usage p.web src;
      clock = p.clock;
      defaults = defaults;
      namespaces = f.namespaces;
      has_events = true;
    };
    expirer = new_expirer true f.inflight_timeout f.requeue_after;
  }

  -- SetupWithManager, Add, AddHealthzCheck and AddReadyzCheck.
  unfoldable pub register_all : List Registration → Run W (Unit {0})
  register_all [] = lift (done tt)
  register_all (r ∷ rs) = (λ w. fails (p.register r w)) >> register_all rs

  abbrev pub registrations : List Registration
  registrations = controller_setup ∷ sampler_added ∷ expirer_added ∷ healthz ∷ readyz ∷ []

  abbrev pub manager : ManagerOptions → Run W (Client W)
  manager o w = yields (p.new_manager o w)

  unfoldable pub notifications : Run W (Option Notifier)
  unfolding build_notifier
  notifications w = (
    of_result (
        build_notifier p f.notify_events f.datadog_site f.slack_default_channel f.notify_routes_file
          w),
    w,
  )

  -- What is left once everything is built.
  abbrev pub launched : System L F W → Store → Launched L F W
  launched sys store = record { system = sys; gate = Gate.new f.global_max; store = store }

  unfoldable pub run : Run W (Launched L F W)
  unfolding cache_scope ready_source parse_string capturer notifications sized_store new_expirer
      register_all Gate.new
  run = do
    growth ← lift (of_result (p.parse_quantity f.trend_growth))
    mode ← lift (of_option (other "unknown mode") (parse_mode f.mode))
    let own = env_or p.env "POD_NAMESPACE" "default"
    namespaces ← lift (cache_scope f own)
    client ← manager (manager_options namespaces own)
    src ← ready_source
    windows ← lift (
        of_option (other "invalid --maintenance-window")
          (parse_string p.cal (join_with ";" f.window_specs)))
    cap ← capturer
    notifier ← notifications
    store ← lift (sized_store f)
    register_all registrations
    lift (
        done
          (launched (assemble client src windows (defaults_of f mode growth) cap notifier) store))
