-- ===== src/Tests/Values.antt =====
-- The data that the runs use.
use memory_leak_reloader.Base.{Bool, true, false, Option, none, some, List, [], ◌∷◌}
use memory_leak_reloader.Base.Int.{ℤ, pos, ◌+ℤ◌, ◌-ℤ◌, ◌*ℤ◌, int_beq, leb_ℤ, ltb_ℤ}
use memory_leak_reloader.Api.{
  MemoryLeakPolicy, MemoryLeakPolicySpec, MemoryLeakPolicyStatus, DetectionSpec, Quantity,
}
use memory_leak_reloader.Config.{Detection, Defaults, mode_sustained}
use memory_leak_reloader.Restart.Objects.{
  NamespacedName, OwnerReference, PodTemplate, Deployment, ReplicaSet, Pod,
}
use memory_leak_reloader.Restart.Cluster.{not_found, ok, err, Client, Library}
use memory_leak_reloader.Sampling.Detect.{Float64}
use memory_leak_reloader.Maintenance.{Calendar}
use memory_leak_reloader.Controller.State.{Reconciler, State}

abbrev pub no_quantity : Quantity
no_quantity = record { value = pos 0; text = "0" }

abbrev pub detection : Detection
detection = record {
  mode = mode_sustained;
  threshold_percent = pos 80;
  threshold_absolute = none;
  window = pos 10;
  trend_min_growth = no_quantity;
}

abbrev pub no_detection : DetectionSpec
no_detection = record {
  mode = "";
  threshold_percent = pos 0;
  threshold_absolute = none;
  window = none;
  trend_min_growth = none;
}

abbrev pub defaults : Defaults
defaults = record {
  detection = detection;
  sample_interval = pos 5;
  startup_grace = pos 0;
  cooldown = pos 20;
  restart_window = pos 100;
  max_restarts_per_window = pos 2;
}

-- A spec for the Deployment "web", which says nothing else than whether it is a dry run.
abbrev pub spec : Option Bool → MemoryLeakPolicySpec
spec dry = record {
  workload_ref = record { kind = "Deployment"; name = "web" };
  detection = no_detection;
  cooldown = none;
  startup_grace = none;
  restart_window = none;
  max_restarts_per_window = none;
  dry_run = dry;
  containers = [];
  container_overrides = [];
  profile_capture = none;
  pprof_path = "";
  maintenance_windows = [];
  notify_routes = [];
  slack_channel = "";
}

abbrev pub fresh : MemoryLeakPolicyStatus
fresh = record {
  workload_uid = "u1";
  last_restart_at = none;
  restart_count = pos 0;
  window_start = none;
  version = "";
  in_flight = none;
  breaker_tripped = false;
  dry_run = false;
  next_eligible_restart = none;
  restarts_remaining = pos 0;
  last_profile = none;
  last_notification = none;
  history = [];
  conditions = [];
  observed_generation = pos 0;
}

abbrev pub policy : Option Bool → MemoryLeakPolicyStatus → MemoryLeakPolicy
policy dry st = record {
  namespace = "shop";
  name = "web-policy";
  resource_version = "1";
  deletion_timestamp = none;
  finalizers = "memreload.io/finalizer" ∷ [];
  spec = spec dry;
  status = st;
}

abbrev pub web_ref : NamespacedName
web_ref = record { namespace = "shop"; name = "web" }

abbrev pub template : PodTemplate
template = record { annotations = []; rest = "image: web:1" }

abbrev pub web : Deployment
web = record {
  ref = web_ref;
  uid = "u1";
  annotations = ("deployment.kubernetes.io/revision", "3") ∷ [];
  generation = pos 1;
  replicas = some (pos 1);
  selector = "app=web";
  template = template;
  observed_generation = pos 1;
  status_replicas = pos 1;
  updated_replicas = pos 1;
  available_replicas = pos 1;
  unavailable_replicas = pos 0;
}

abbrev pub web_pod : Pod
web_pod = record {
  namespace = "shop";
  name = "web-1";
  uid = "p1";
  annotations = [];
  labels = [];
  owners = record { kind = "ReplicaSet"; name = "web-rs"; controller = some true } ∷ [];
  creation_timestamp = pos 1;
  containers = record { name = "app"; memory_limit = some (pos 100); restart_policy = none } ∷ [];
  init_containers = [];
  start_time = none;
  pod_ip = "10.0.0.1";
  conditions = record { type = "Ready"; status = "True" } ∷ [];
  container_statuses = [];
  init_container_statuses = [];
}

abbrev pub web_rs : ReplicaSet
web_rs = record {
  annotations = ("deployment.kubernetes.io/revision", "3") ∷ [];
  labels = [];
  owners = record { kind = "Deployment"; name = "web"; controller = some true } ∷ [];
}

abbrev pub first_owner : List OwnerReference → Option OwnerReference
first_owner [] = none
first_owner (o ∷ os) = some o

abbrev pub library : Library
library = record {
  controller_of = first_owner;
  set_status_condition = λ cs c. c ∷ cs;
  contains_finalizer = λ p f. true;
  add_finalizer = λ p f. (false, p);
  remove_finalizer = λ p f. record p { finalizers = [] };
  label_selector_as_selector = ok;
  label_selector_from_unstructured = ok;
  set_restart_at = λ r stamp. ok (record r { restart_at = stamp });
  template_digest = λ t. t.rest;
  rfc3339 = λ t. "now";
}

-- An API server that holds one policy and the Deployment "web" with its pod.
abbrev pub client : Client MemoryLeakPolicy
client = record {
  get_policy = λ n w. (ok w, w);
  list_policies = λ n w. (ok (w ∷ []), w);
  update_policy = λ p w. (ok p, p);
  update_status = λ p w. (ok p, p);
  get_deployment = λ n w. (ok web, w);
  get_stateful_set = λ n w. (err not_found, w);
  get_rollout = λ n w. (err not_found, w);
  get_replica_set = λ n w. (ok web_rs, w);
  list_pods = λ n s w. (ok (web_pod ∷ []), w);
  patch = λ old new w. (none, w);
}

-- Whole numbers in the place of Go's float64.
abbrev pub whole : Float64 ℤ
whole = record {
  of_int = λ n. n;
  plus = λ a b. a +ℤ b;
  minus = λ a b. a -ℤ b;
  times = λ a b. a *ℤ b;
  divide = λ a b. a;
  equals = int_beq;
  at_most = leb_ℤ;
  less = ltb_ℤ;
  to_int64 = λ n. n;
  duration_seconds = λ d. d;
}

abbrev pub calendar : Calendar (Unit {0})
calendar = record {
  utc = tt;
  load_location = λ name. some tt;
  offset = λ l t. pos 0;
  date = λ l s. s *ℤ pos 1000000000;
}

abbrev pub reconciler : Reconciler (Unit {0}) ℤ MemoryLeakPolicy
reconciler = record {
  client = client;
  lib = library;
  cal = calendar;
  fl = whole;
  clock = λ w. pos 30;
  stamp = λ t. "now";
  defaults = defaults;
  kinds = record { deployments = true; stateful_sets = true; rollouts = true };
  windows = [];
  capturer = none;
  profile_enabled = false;
  notifier = none;
  cluster_name = "";
  requeue_after = pos 7;
}

-- Three samples of the container "app" at 95 of its 100 bytes.
abbrev pub state : MemoryLeakPolicy → State MemoryLeakPolicy
state p = record {
  world = p;
  gate = record { cap = pos 2; inflight = ("Deployment/shop/api", pos 25) ∷ [] };
  store = record {
    contents =
        (
          record { namespace = "shop"; pod = "web-1"; container = "app" },
          record {
            samples =
                record { time = pos 15; working_set = pos 95; limit = pos 100 }
                ∷ record { time = pos 22; working_set = pos 95; limit = pos 100 }
                ∷ record { time = pos 28; working_set = pos 95; limit = pos 100 }
                ∷ [];
            last_restarts = pos 0;
          },
        )
        ∷ [];
    retention = pos 100;
    max_len = 20;
  };
  warned = [];
  last_would_restart = [];
  log = [];
}
