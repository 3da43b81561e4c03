-- ===== src/Config.antt =====
-- internal/config/config.go and keys.go: the effective configuration of a policy's workload and of
-- each of its containers.
pub mod Laws
use memory_leak_reloader.Base.{
  String, Bool, true, Option, none, some, List, [], ◌∷◌, ◌==◌, if◌then◌else◌, string_eq, ◌||◌,
}
use memory_leak_reloader.Base.Int.{ℤ, int_eq, pos}
use memory_leak_reloader.Base.Time.{Duration}
use memory_leak_reloader.Api.{
  Quantity, DetectionSpec, ContainerOverride, MaintenanceWindow, MemoryLeakPolicySpec,
}

abbrev pub mode_sustained : String
mode_sustained = "sustained"

abbrev pub mode_trend : String
mode_trend = "trend"

abbrev pub mode_combined : String
mode_combined = "combined"

-- The selection of every eligible container.
abbrev pub containers_all : String
containers_all = "*"

-- ParseMode; `none` is its error.
unfoldable pub parse_mode : String → Option String
parse_mode s =
    if (s == mode_sustained) || (s == mode_trend) || (s == mode_combined) then some s else none

pub record Detection : Type 0 where
  pub mode : String
  pub threshold_percent : ℤ
  pub threshold_absolute : Option Quantity
  pub window : Duration
  pub trend_min_growth : Quantity

pub record Defaults : Type 0 where
  pub detection : Detection
  pub sample_interval : Duration
  pub startup_grace : Duration
  pub cooldown : Duration
  pub restart_window : Duration
  pub max_restarts_per_window : ℤ

pub record PodConfig : Type 0 where
  pub base : Detection
  pub startup_grace : Duration
  pub cooldown : Duration
  pub restart_window : Duration
  pub max_restarts_per_window : ℤ
  pub dry_run : Bool
  pub containers : List String
  pub overrides : List ContainerOverride
  pub profile_capture : Option Bool
  pub pprof_path : String
  pub maintenance_windows : List MaintenanceWindow
  pub notify_routes : List String
  pub slack_channel : String

-- A pointer that is set, or what an unset one inherits.
abbrev pub or_else {ℓ} : {A : Type ℓ} → Option A → A → A
or_else none d = d
or_else (some a) d = a

abbrev pub or_inherit {ℓ} : {A : Type ℓ} → Option A → Option A → Option A
or_inherit none d = d
or_inherit (some a) d = some a

unfoldable pub resolve_detection : Detection → DetectionSpec → Detection
resolve_detection base s = record {
  mode = if s.mode == "" then base.mode else s.mode;
  threshold_percent =
      if s.threshold_percent == pos 0 then base.threshold_percent else s.threshold_percent;
  threshold_absolute = or_inherit s.threshold_absolute base.threshold_absolute;
  window = or_else s.window base.window;
  trend_min_growth = or_else s.trend_min_growth base.trend_min_growth;
}

unfoldable pub resolve_policy : Defaults → MemoryLeakPolicySpec → PodConfig
resolve_policy d spec = record {
  base = resolve_detection d.detection spec.detection;
  startup_grace = or_else spec.startup_grace d.startup_grace;
  cooldown = or_else spec.cooldown d.cooldown;
  restart_window = or_else spec.restart_window d.restart_window;
  max_restarts_per_window = or_else spec.max_restarts_per_window d.max_restarts_per_window;
  dry_run = or_else spec.dry_run true;
  containers = spec.containers;
  overrides = spec.container_overrides;
  profile_capture = spec.profile_capture;
  pprof_path = spec.pprof_path;
  maintenance_windows = spec.maintenance_windows;
  notify_routes = spec.notify_routes;
  slack_channel = spec.slack_channel;
}

-- The loop of ForContainer over the overrides that are left.
unfoldable pub find_override : Detection → String → List ContainerOverride → Detection
find_override base name [] = base
find_override base name (o ∷ os) =
    if o.name == name then resolve_detection base o.detection else find_override base name os

unfoldable pub for_container : PodConfig → String → Detection
unfolding find_override
for_container p name = find_override p.base name p.overrides
