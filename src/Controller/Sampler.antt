-- ===== src/Controller/Sampler.antt =====
-- internal/controller/sampler.go: one pass over the policies. The pass has the store to itself; what
-- it writes to metrics and to the channel of events is its report.
pub mod Loop
pub mod Replay
pub mod Laws
pub mod Invariant
use memory_leak_reloader.Base.{
  ℕ, ◌+◌, ◌*◌, String, Bool, true, false, Option, none, some, List, [], ◌∷◌, ◌++◌, ◌≡◌, ◌↔◌, arith,
  ◌==◌, string_eq, bool_eq, if◌then◌else◌, ◌&&◌, ◌||◌, Eq,
}
use memory_leak_reloader.Base.Int.{ℤ, pos, leb_ℤ}
use memory_leak_reloader.Base.Map.{Map, lookup, insert}
use memory_leak_reloader.Base.Time.{Time, Duration, second}
use memory_leak_reloader.Api.{MemoryLeakPolicy}
use memory_leak_reloader.Config.{Defaults, PodConfig, resolve_policy}
use memory_leak_reloader.Datasource.{Usage}
use memory_leak_reloader.Restart.Objects.{NamespacedName, Pod}
use memory_leak_reloader.Restart.Cluster.{Error, Result, ok, err, Client, Library}
use memory_leak_reloader.Restart.Workload.{Workload}
use memory_leak_reloader.Restart.Resolve.{get_workload}
use memory_leak_reloader.Sampling.Buffer.{
  Sample, Key, key_eq, Store, observe, prune, window_covered,
}
use memory_leak_reloader.Controller.Selection.{Target, select_targets}
use memory_leak_reloader.Controller.Pods.{restart_count, list_workload_pods}

pub record Sampler (W : Type 0) : Type 0 where
  pub client : Client W
  pub lib : Library
  pub list_usage : List String → W → Result (List Usage) × W  -- Source.ListUsage
  pub clock : W → Time
  pub defaults : Defaults
  pub namespaces : List String
  pub has_events : Bool

-- wlKey and policyKey.
pub record WorkloadId : Type 0 where
  pub namespace : String
  pub kind : String
  pub name : String

pub record PolicyId : Type 0 where
  pub namespace : String
  pub dry_run : Bool

abbrev pub workload_beq : WorkloadId → WorkloadId → Bool
workload_beq a b = (a.namespace == b.namespace) && (a.kind == b.kind) && (a.name == b.name)

pub workload_beq_iff : (a b : WorkloadId) → (workload_beq a b ≡ true) ↔ (a ≡ b)
workload_beq_iff a b = (
  λ h. ground (
    arith,
    string_eq.beq_iff a.namespace b.namespace,
    string_eq.beq_iff a.kind b.kind,
    string_eq.beq_iff a.name b.name,
  ),
  λ h. ground (
    arith,
    string_eq.beq_iff a.namespace b.namespace,
    string_eq.beq_iff a.kind b.kind,
    string_eq.beq_iff a.name b.name,
  ),
)

instance abbrev pub workload_eq : Eq WorkloadId
workload_eq = record { beq = workload_beq; beq_iff = workload_beq_iff }

abbrev pub policy_beq : PolicyId → PolicyId → Bool
policy_beq a b = (a.namespace == b.namespace) && (a.dry_run == b.dry_run)

pub policy_beq_iff : (a b : PolicyId) → (policy_beq a b ≡ true) ↔ (a ≡ b)
policy_beq_iff a b = (
  λ h.
      ground
        (arith, string_eq.beq_iff a.namespace b.namespace, bool_eq.beq_iff a.dry_run b.dry_run),
  λ h.
      ground
        (arith, string_eq.beq_iff a.namespace b.namespace, bool_eq.beq_iff a.dry_run b.dry_run),
)

instance abbrev pub policy_eq : Eq PolicyId
policy_eq = record { beq = policy_beq; beq_iff = policy_beq_iff }

abbrev pub count_of : Option ℕ → ℕ
count_of none = 0
count_of (some n) = n

-- m[k] += n
unfoldable pub bump : {K : Type 0} ⦃e : Eq K⦄ → K → ℕ → Map K ℕ → Map K ℕ
unfolding insert lookup
bump k n m = insert k (count_of (lookup k m) + n) m

-- The series and the set `live` while a policy's pods are observed.
pub record Observed : Type 0 where
  pub store : Store
  pub live : Map Key (Unit {0})
  pub enqueue : Bool

-- What the pass over the policies fills.
pub record Pass : Type 0 where
  pub store : Store
  pub live : Map Key (Unit {0})
  pub monitored : Map WorkloadId ℕ
  pub ignored : Map WorkloadId ℕ
  pub counts : Map PolicyId ℕ
  pub enqueued : List NamespacedName  -- in the order of the events

-- byKey.
unfoldable pub by_key : List Usage → Map Key ℤ → Map Key ℤ
unfolding insert
by_key [] m = m
by_key (u ∷ us) m = by_key us (
    insert (record { namespace = u.namespace; pod = u.pod; container = u.container }) u.working_set
      m)

abbrev pub target_key : Pod → Target → Key
target_key pod t = record { namespace = pod.namespace; pod = pod.name; container = t.name }

-- One target: nothing without a usage.
abbrev pub observe_used : Option ℤ → Time → Pod → Target → Observed → Observed
observe_used none now pod t o = o
observe_used (some ws) now pod t o =
    let key = target_key pod t in
    let store =
      observe o.store key (record { time = now; working_set = ws; limit = t.limit_bytes })
        (restart_count pod t.name) in
    record {
      store = store;
      live = insert key tt o.live;
      enqueue = window_covered store key t.det.window now || o.enqueue;
    }

unfoldable pub observe_targets : Map Key ℤ → Time → Pod → List Target → Observed → Observed
unfolding lookup insert
observe_targets usage now pod [] o = o
observe_targets usage now pod (t ∷ ts) o =
    observe_targets usage now pod ts (observe_used (lookup (target_key pod t) usage) now pod t o)

abbrev pub observed_of : Pass → Bool → Observed
observed_of p b = record { store = p.store; live = p.live; enqueue = b }

-- The loop over a policy's pods, with the flag `enqueue`.
unfoldable pub observe_pods :
    Map Key ℤ → Time → PodConfig → WorkloadId → List Pod → Pass × Bool → Pass × Bool
unfolding observe_targets bump
observe_pods usage now cfg wl [] s = s
observe_pods usage now cfg wl (pod ∷ pods) (p, flag) =
    let (targets, dropped) = select_targets pod cfg in
    let o = observe_targets usage now pod targets (observed_of p flag) in
    observe_pods usage now cfg wl pods (
      record p {
        store = o.store;
        live = o.live;
        monitored = bump wl 1 p.monitored;
        ignored = bump wl dropped p.ignored;
      },
      o.enqueue,
    )

module _ {W : Type 0} (s : Sampler W) where
  -- policyRef, sent to the channel.
  abbrev pub enqueue : MemoryLeakPolicy → Pass × Bool → Pass
  enqueue p (pass, flag) =
      if flag && s.has_events
      then record pass {
        enqueued = pass.enqueued ++ record { namespace = p.namespace; name = p.name } ∷ [];
      }
      else pass

  abbrev pub workload_id : MemoryLeakPolicy → WorkloadId
  workload_id p = record {
    namespace = p.namespace;
    kind = p.spec.workload_ref.kind;
    name = p.spec.workload_ref.name;
  }

  abbrev pub on_pods :
      Map Key ℤ → Time → MemoryLeakPolicy → PodConfig → Result (List Pod) × W → Pass → Pass × W
  on_pods usage now p cfg (err e, w) pass = (pass, w)
  on_pods usage now p cfg (ok pods, w) pass =
      (enqueue p (observe_pods usage now cfg (workload_id p) pods (pass, false)), w)

  abbrev pub on_workload :
      Map Key ℤ → Time → MemoryLeakPolicy → PodConfig → Result Workload × W → Pass → Pass × W
  on_workload usage now p cfg (err e, w) pass = (pass, w)
  on_workload usage now p cfg (ok wl, w) pass =
      on_pods usage now p cfg (list_workload_pods s.client s.lib wl w) pass

  -- The body of the loop over the policies. A workload or pods that cannot be read skip the policy.
  unfoldable pub sample_policy : Map Key ℤ → Time → MemoryLeakPolicy → Pass → W → Pass × W
  unfolding bump
  sample_policy usage now p pass w =
      let cfg = resolve_policy s.defaults p.spec in
      on_workload usage now p cfg
        (get_workload s.client s.lib p.spec.workload_ref.kind p.namespace p.spec.workload_ref.name
          w)
        (record pass {
          counts = bump (record { namespace = p.namespace; dry_run = cfg.dry_run }) 1 pass.counts;
        })

  unfoldable pub sample_policies : Map Key ℤ → Time → List MemoryLeakPolicy → Pass → W → Pass × W
  sample_policies usage now [] pass w = (pass, w)
  sample_policies usage now (p ∷ ps) pass w =
      let (pass', w') = sample_policy usage now p pass w in sample_policies usage now ps pass' w'

  abbrev pub prepend :
      List MemoryLeakPolicy
      → Result (List MemoryLeakPolicy) × W
      → Result (List MemoryLeakPolicy) × W
  prepend ps (err e, w) = (err e, w)
  prepend ps (ok qs, w) = (ok (ps ++ qs), w)

  abbrev pub append_listed :
      Result (List MemoryLeakPolicy) × W
      → (W → Result (List MemoryLeakPolicy) × W)
      → Result (List MemoryLeakPolicy) × W
  append_listed (err e, w) next = (err e, w)
  append_listed (ok ps, w) next = prepend ps (next w)

  -- The loop of listPolicies.
  unfoldable pub list_namespaces : List String → W → Result (List MemoryLeakPolicy) × W
  list_namespaces [] w = (ok [], w)
  list_namespaces (ns ∷ nss) w =
      append_listed (s.client.list_policies ns w) (λ w'. list_namespaces nss w')

  abbrev pub or_all : List String → List String
  or_all [] = "" ∷ []
  or_all (n ∷ ns) = n ∷ ns

  unfoldable pub list_policies : W → Result (List MemoryLeakPolicy) × W
  unfolding list_namespaces
  list_policies w = list_namespaces (or_all s.namespaces) w

-- The gauges that a pass sets, all of them or none.
pub record Gauges : Type 0 where
  pub pods_monitored : Map WorkloadId ℕ
  pub containers_ignored : Map WorkloadId ℕ
  pub policies : Map PolicyId ℕ
  pub buffer_series : ℕ

pub data Report : Type 0 where
  -- The policies, or their usage, cannot be listed; the second one counts in DatasourceErrors.
  no_policies no_usage : Error → Report
  sampled : List NamespacedName → Gauges → Report

abbrev pub start_pass : Store → Pass
start_pass store = record {
  store = store;
  live = [];
  monitored = [];
  ignored = [];
  counts = [];
  enqueued = [];
}

-- The end of a pass: Prune.
abbrev pub finish : {W : Type 0} → Pass × W → Report × Store × W
finish (p, w) =
    let (store, kept) = prune p.store p.live in
    (
      sampled p.enqueued (record {
        pods_monitored = p.monitored;
        containers_ignored = p.ignored;
        policies = p.counts;
        buffer_series = kept;
      }),
      store,
      w,
    )

module _ {W : Type 0} (s : Sampler W) where
  abbrev pub with_usage :
      List MemoryLeakPolicy → Result (List Usage) × W → Store → Report × Store × W
  with_usage ps (err e, w) store = (no_usage e, store, w)
  with_usage ps (ok us, w) store =
      finish (sample_policies s (by_key us []) (s.clock w) ps (start_pass store) w)

  abbrev pub with_policies : Result (List MemoryLeakPolicy) × W → Store → Report × Store × W
  with_policies (err e, w) store = (no_policies e, store, w)
  with_policies (ok ps, w) store = with_usage ps (s.list_usage s.namespaces w) store

  -- sampleOnce.
  unfoldable pub sample_once : Store → W → Report × Store × W
  unfolding by_key
  sample_once store w = with_policies (list_policies s w) store
