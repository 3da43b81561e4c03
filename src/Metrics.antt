-- ===== src/Metrics.antt =====
-- internal/metrics/metrics.go, internal/logging/logging.go and internal/clock/clock.go: the collectors and
-- their registration, the levels and keys of the log, and the clock of the tests. Prometheus' registry is
-- a parameter; the help texts are left out.
pub mod Laws
use memory_leak_reloader.Base.{
  String, Bool, true, false, Option, none, some, List, [], ◌∷◌, ◌==◌, string_eq, if◌then◌else◌,
  ◌||◌,
}
use memory_leak_reloader.Base.Time.{Time, Duration, add}
use memory_leak_reloader.Restart.Cluster.{Error}
use memory_leak_reloader.Strings.{Text, codes, text_beq, to_lower}

pub data Kind : Type 0 where
  gauge gauge_vec counter_vec : Kind

pub record Collector : Type 0 where
  pub kind : Kind
  pub name : String
  pub labels : List String

abbrev pub by_workload : List String → List String
by_workload more = "workload_namespace" ∷ "workload_kind" ∷ "workload_name" ∷ more

abbrev pub collector : Kind → String → List String → Collector
collector kind name labels = record { kind = kind; name = name; labels = labels }

abbrev pub pods_monitored : Collector
pods_monitored = collector gauge_vec "memreload_pods_monitored" (by_workload [])

abbrev pub threshold_breaches : Collector
threshold_breaches =
    collector counter_vec "memreload_threshold_breaches_total" (by_workload ("mode" ∷ []))

abbrev pub rollouts_triggered : Collector
rollouts_triggered =
    collector counter_vec "memreload_rollouts_triggered_total" (by_workload ("result" ∷ []))

abbrev pub rollouts_skipped : Collector
rollouts_skipped =
    collector counter_vec "memreload_rollouts_skipped_total" (by_workload ("reason" ∷ []))

abbrev pub rollouts_deferred : Collector
rollouts_deferred = collector counter_vec "memreload_rollouts_deferred_total" (by_workload [])

abbrev pub profile_captures : Collector
profile_captures =
    collector counter_vec "memreload_profile_captures_total" (by_workload ("result" ∷ []))

abbrev pub notifications : Collector
notifications =
    collector counter_vec "memreload_notifications_total" (by_workload ("sink" ∷ "result" ∷ []))

abbrev pub containers_ignored : Collector
containers_ignored =
    collector gauge_vec "memreload_containers_ignored" (by_workload ("reason" ∷ []))

abbrev pub inflight_rollouts : Collector
inflight_rollouts = collector gauge "memreload_inflight_rollouts" []

abbrev pub global_cap : Collector
global_cap = collector gauge "memreload_global_cap" []

abbrev pub sample_buffer_series : Collector
sample_buffer_series = collector gauge "memreload_sample_buffer_series" []

abbrev pub datasource_errors : Collector
datasource_errors = collector counter_vec "memreload_datasource_errors_total" ("source" ∷ [])

abbrev pub policies : Collector
policies = collector gauge_vec "memreload_policies" ("workload_namespace" ∷ "dry_run" ∷ [])

abbrev pub collectors : List Collector
collectors =
    pods_monitored ∷ threshold_breaches ∷ rollouts_triggered ∷ rollouts_skipped ∷ rollouts_deferred
    ∷ profile_captures ∷ notifications ∷ containers_ignored ∷ inflight_rollouts ∷ global_cap
    ∷ sample_buffer_series ∷ datasource_errors ∷ policies ∷ []

pub data RegisterError : Type 0 where
  already_registered : RegisterError
  refused : Error → RegisterError

-- The loop of Register, which panics at an error of another kind.
module _ {R : Type 0} (add_to : Collector → R → Option RegisterError × R) where
  abbrev pub after_register : Option RegisterError × R → (R → Bool × R) → Bool × R
  after_register (none, r) next = next r
  after_register (some already_registered, r) next = next r
  after_register (some (refused e), r) next = (false, r)

  -- Whether it ends without a panic, and the registry.
  unfoldable pub register_from : List Collector → R → Bool × R
  register_from [] r = (true, r)
  register_from (c ∷ cs) r = after_register (add_to c r) (λ r'. register_from cs r')

  unfoldable pub register : R → Bool × R
  unfolding register_from
  register r = register_from collectors r

-- parseLevel.
pub data Level : Type 0 where
  debug info warn error : Level

unfoldable pub parse_level : String → Level
unfolding to_lower
parse_level s =
    let t = to_lower (codes s) in
    if text_beq t (codes "debug")
    then debug
    else if text_beq t (codes "warn") || text_beq t (codes "warning")
    then warn
    else if text_beq t (codes "error")
    then error
    else info

-- New's handler: JSON with Datadog's keys, or logfmt.
pub data Handler : Type 0 where
  json_handler text_handler : Level → Handler

unfoldable pub new_logger : String → String → Handler
unfolding parse_level to_lower
new_logger format level =
    if text_beq (to_lower (codes format)) (codes "json")
    then json_handler (parse_level level)
    else text_handler (parse_level level)

unfoldable pub datadog_replace : String → String
datadog_replace key =
    if key == "msg"
    then "message"
    else if key == "level"
    then "status"
    else if key == "time"
    then "timestamp"
    else key

-- The Fake clock, whose state is its time.
abbrev pub fake_now : Time → Time
fake_now t = t

unfoldable pub advance : Duration → Time → Time
unfolding add
advance d t = add t d

abbrev pub set : Time → Time → Time
set to t = to
