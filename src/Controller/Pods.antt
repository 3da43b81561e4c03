-- ===== src/Controller/Pods.antt =====
-- internal/controller/helpers.go, and restartCount of sampler.go.
use memory_leak_reloader.Base.{
  String, Bool, false, Option, none, some, List, [], ◌∷◌, ◌==◌, string_eq, if◌then◌else◌,
}
use memory_leak_reloader.Base.Int.{ℤ, pos}
use memory_leak_reloader.Base.Time.{Time, Duration, is_zero, since}
use memory_leak_reloader.Restart.Objects.{Pod, PodCondition, ContainerStatus}
use memory_leak_reloader.Restart.Cluster.{Result, ok, err, Client, Library}
use memory_leak_reloader.Restart.Workload.{Workload, pod_selector}

abbrev pub pod_ready_type : String
pod_ready_type = "Ready"

-- podReady: the first condition of that type decides.
unfoldable pub ready_of : List PodCondition → Bool
ready_of [] = false
ready_of (c ∷ cs) = if c.type == pod_ready_type then c.status == "True" else ready_of cs

unfoldable pub pod_ready : Pod → Bool
unfolding ready_of
pod_ready pod = ready_of pod.conditions

abbrev pub start_of : Option Time → Time → Time
start_of none created = created
start_of (some t) created = t

-- podAge at the time `now` of the clock.
unfoldable pub pod_age : Pod → Time → Duration
unfolding since
pod_age pod now =
    let start = start_of pod.start_time pod.creation_timestamp in
    if is_zero start then pos 0 else since now start

unfoldable pub find_status : String → List ContainerStatus → Option ℤ
find_status name [] = none
find_status name (s ∷ ss) = if s.name == name then some s.restart_count else find_status name ss

abbrev pub first_count : Option ℤ → Option ℤ → ℤ
first_count (some n) o = n
first_count none (some n) = n
first_count none none = pos 0

-- restartCount.
unfoldable pub restart_count : Pod → String → ℤ
unfolding find_status
restart_count pod name =
    first_count (find_status name pod.container_statuses)
      (find_status name pod.init_container_statuses)

module _ {W : Type 0} (c : Client W) (lib : Library) where
  -- listWorkloadPods.
  unfoldable pub list_workload_pods : Workload → W → Result (List Pod) × W
  unfolding pod_selector
  list_workload_pods wl w = elim (pod_selector lib wl.object) [
    | err e ↦ (err e, w)
    | ok sel ↦ c.list_pods wl.ref.namespace sel w
  ]
