-- ===== src/Startup.antt =====
-- cmd/main.go: the flags, and how the controller is put together from them. The flag package, the
-- environment, the manager, the clients and the parser of quantities are parameters.
pub mod Stages
pub mod Notifications
pub mod Launch
pub mod Sizing
pub mod Laws
pub mod Channels
use memory_leak_reloader.Base.{ℕ, ◌*◌, String, Bool, true, false, Option, List, []}
use memory_leak_reloader.Base.Int.{ℤ, pos}
use memory_leak_reloader.Base.Map.{Map}
use memory_leak_reloader.Base.Time.{Time, Duration, second}
use memory_leak_reloader.Api.{Quantity}
use memory_leak_reloader.Datasource.{Web}
use memory_leak_reloader.Maintenance.{Calendar}
use memory_leak_reloader.Notify.Routes.{File, Route}
use memory_leak_reloader.Profile.{Outside}
use memory_leak_reloader.Restart.Cluster.{Error, Result, Client, Library}
use memory_leak_reloader.Sampling.Detect.{Float64}

pub record ProfileFlags : Type 0 where
  pub enabled : Bool
  pub port : ℤ
  pub timeout : Duration
  pub sink : String
  pub bucket : String
  pub prefix : String
  pub region : String
  pub provider : String
  pub volume : String

pub record Flags : Type 0 where
  pub metrics_addr : String
  pub probe_addr : String
  pub leader_elect : Bool
  pub leader_id : String
  pub scope_mode : String
  pub ds_type : String
  pub mode : String
  pub threshold_percent : ℤ
  pub window : Duration
  pub sample_every : Duration
  pub trend_growth : String
  pub startup_grace : Duration
  pub cooldown : Duration
  pub global_max : ℤ
  pub max_per_window : ℤ
  pub restart_window : Duration
  pub inflight_timeout : Duration
  pub requeue_after : Duration
  pub enable_deployments : Bool
  pub enable_stateful_sets : Bool
  pub enable_rollouts : Bool
  pub prom_url : String
  pub prom_query : String
  pub datadog_site : String
  pub datadog_metric : String
  pub profile : ProfileFlags
  pub notify_events : String
  pub cluster_name : String
  pub slack_default_channel : String
  pub notify_routes_file : String
  pub namespaces : List String
  pub window_specs : List String

abbrev pub minutes : ℕ → Duration
minutes n = pos (n * 60 * second)

-- What the flags are when none is given.
abbrev pub default_flags : Flags
default_flags = record {
  metrics_addr = ":8080";
  probe_addr = ":8081";
  leader_elect = true;
  leader_id = "memory-leak-reloader";
  scope_mode = "cluster";
  ds_type = "metrics-server";
  mode = "sustained";
  threshold_percent = pos 85;
  window = minutes 10;
  sample_every = pos (30 * second);
  trend_growth = "100Mi";
  startup_grace = minutes 5;
  cooldown = minutes 30;
  global_max = pos 1;
  max_per_window = pos 3;
  restart_window = minutes 1440;
  inflight_timeout = minutes 15;
  requeue_after = pos (30 * second);
  enable_deployments = true;
  enable_stateful_sets = true;
  enable_rollouts = true;
  prom_url = "";
  prom_query = "container_memory_working_set_bytes";
  datadog_site = "datadoghq.com";
  datadog_metric = "kubernetes.memory.working_set";
  profile = record {
    enabled = false;
    port = pos 6060;
    timeout = pos (10 * second);
    sink = "objectstore";
    bucket = "";
    prefix = "memreload-profiles/";
    region = "";
    provider = "s3";
    volume = "/var/run/memreload/profiles";
  };
  notify_events = "RestartTriggered,CircuitBreakerTripped";
  cluster_name = "";
  slack_default_channel = "";
  notify_routes_file = "/etc/memreload/routes/routes.json";
  namespaces = [];
  window_specs = [];
}

-- ctrl.Options. No cache namespaces stand for all.
pub record ManagerOptions : Type 0 where
  pub cache_namespaces : Option (Map String (Unit {0}))
  pub metrics_addr : String
  pub probe_addr : String
  pub leader_election : Bool
  pub leader_election_id : String
  pub leader_election_namespace : String

-- What is added to the manager, in the order of the constructors.
pub data Registration : Type 0 where
  controller_setup sampler_added expirer_added healthz readyz : Registration

pub record Platform (L F U W : Type 0) : Type 0 where
  pub lib : Library
  pub cal : Calendar L
  pub fl : Float64 F
  pub clock : W → Time
  pub stamp : Time → String
  pub web : Web W F
  pub profile : Outside U W
  pub env : String → String  -- os.Getenv
  pub parse_quantity : String → Result Quantity
  pub new_manager : ManagerOptions → W → Result (Client W) × W  -- with GetConfigOrDie before it
  pub metrics_client : W → Option Error × W  -- metricsv.NewForConfig
  pub register : Registration → W → Option Error × W
  pub read_file : String → W → File
  pub hostname : String → Option String
  pub unmarshal : String → Result (List Route)
