-- ===== src/Controller/Sampler/Replay.antt =====
-- What a pass of the sampler does to the store (internal/controller/sampler.go), told without the
-- store: the usages joined with the targets are a list of observations, and each series takes its own.
use memory_leak_reloader.Base.{
  ℕ, Bool, true, false, Option, none, some, List, [], ◌∷◌, ◌++◌, ◌≡◌, refl, sym, ap, ◌∙◌, arith,
  if◌then◌else◌, ◌==◌, Bool-cases, inl, inr,
}
use memory_leak_reloader.Base.Int.{ℤ}
use memory_leak_reloader.Base.Map.{Map, lookup, insert, has, lookup-insert, has-insert}
use memory_leak_reloader.Base.Time.{Time, Duration}
use memory_leak_reloader.Api.{MemoryLeakPolicy}
use memory_leak_reloader.Config.{PodConfig, resolve_policy}
use memory_leak_reloader.Restart.Objects.{Pod}
use memory_leak_reloader.Restart.Cluster.{Result, ok, err}
use memory_leak_reloader.Restart.Workload.{Workload}
use memory_leak_reloader.Restart.Resolve.{get_workload}
use memory_leak_reloader.Sampling.Buffer.{
  Sample, Key, key_eq, Series, Store, series_or_new, observe_series, observe,
}
use memory_leak_reloader.Controller.Selection.{Target, select_targets}
use memory_leak_reloader.Controller.Pods.{restart_count, list_workload_pods}
use memory_leak_reloader.Controller.Sampler.{
  Sampler, Observed, Pass, WorkloadId, target_key, observe_used, observe_targets, observed_of,
  observe_pods,
}

pub record Observation : Type 0 where
  pub key : Key
  pub sample : Sample
  pub restarts : ℤ

abbrev pub join_used : Option ℤ → Time → Pod → Target → List Observation
join_used none now pod t = []
join_used (some ws) now pod t =
    record {
      key = target_key pod t;
      sample = record { time = now; working_set = ws; limit = t.limit_bytes };
      restarts = restart_count pod t.name;
    }
    ∷ []

-- The targets that have a usage.
unfoldable pub join_targets : Map Key ℤ → Time → Pod → List Target → List Observation
unfolding lookup
join_targets usage now pod [] = []
join_targets usage now pod (t ∷ ts) =
    join_used (lookup (target_key pod t) usage) now pod t ++ join_targets usage now pod ts

unfoldable pub join_pods : Map Key ℤ → Time → PodConfig → List Pod → List Observation
unfolding join_targets
join_pods usage now cfg [] = []
join_pods usage now cfg (pod ∷ pods) =
    join_targets usage now pod (select_targets pod cfg).0 ++ join_pods usage now cfg pods

module _ {W : Type 0} (s : Sampler W) where
  abbrev pub joined_pods :
      Map Key ℤ → Time → PodConfig → Result (List Pod) × W → List Observation × W
  joined_pods usage now cfg (err e, w) = ([], w)
  joined_pods usage now cfg (ok pods, w) = (join_pods usage now cfg pods, w)

  abbrev pub joined_workload :
      Map Key ℤ → Time → PodConfig → Result Workload × W → List Observation × W
  joined_workload usage now cfg (err e, w) = ([], w)
  joined_workload usage now cfg (ok wl, w) =
      joined_pods usage now cfg (list_workload_pods s.client s.lib wl w)

  unfoldable pub join_policy : Map Key ℤ → Time → MemoryLeakPolicy → W → List Observation × W
  unfolding join_pods
  join_policy usage now p w =
      joined_workload usage now (resolve_policy s.defaults p.spec) (
        get_workload s.client s.lib p.spec.workload_ref.kind p.namespace p.spec.workload_ref.name w)

  -- All observations of a pass, in order.
  unfoldable pub join_policies : Map Key ℤ → Time → List MemoryLeakPolicy → W → List Observation × W
  unfolding join_policy
  join_policies usage now [] w = ([], w)
  join_policies usage now (p ∷ ps) w =
      let (os, w') = join_policy usage now p w in
      let (rest, w'') = join_policies usage now ps w' in (os ++ rest, w'')

-- One series under a list of observations.
unfoldable pub replay : Duration → ℕ → Key → List Observation → Option Series → Option Series
unfolding observe_series
replay d n k [] ser = ser
replay d n k (o ∷ os) ser = replay d n k os (
    if o.key == k
    then some (observe_series d n (series_or_new ser o.restarts) o.sample o.restarts)
    else ser)

unfoldable pub is_observed : Key → List Observation → Bool
is_observed k [] = false
is_observed k (o ∷ os) = let rest = is_observed k os in if o.key == k then true else rest

-- The store and the live keys under a list of observations.
abbrev pub observe_all : List Observation → Store → Store
observe_all [] st = st
observe_all (o ∷ os) st = observe_all os (observe st o.key o.sample o.restarts)

abbrev pub live_all : List Observation → Map Key (Unit {0}) → Map Key (Unit {0})
live_all [] live = live
live_all (o ∷ os) live = live_all os (insert o.key tt live)

observe_all-append :
    (xs ys : List Observation) (st : Store)
    → observe_all (xs ++ ys) st ≡ observe_all ys (observe_all xs st)
observe_all-append [] ys st = refl
observe_all-append (x ∷ xs) ys st = observe_all-append xs ys _

live_all-append :
    (xs ys : List Observation) (live : Map Key (Unit {0}))
    → live_all (xs ++ ys) live ≡ live_all ys (live_all xs live)
live_all-append [] ys live = refl
live_all-append (x ∷ xs) ys live = live_all-append xs ys _

lookup-observe :
    (k : Key) (o : Observation) (st : Store)
    → lookup k (observe st o.key o.sample o.restarts).contents ≡ (
        if o.key == k
        then some (
            observe_series st.retention st.max_len
              (series_or_new (lookup k st.contents) o.restarts)
              o.sample
              o.restarts)
        else lookup k st.contents)
unfolding observe
lookup-observe k o st = elim (Bool-cases (o.key == k)) [
  | inl same ↦ rw (lookup-insert o.key k, same, (key_eq.beq_iff o.key k).0 same) refl
  | inr other ↦ rw (lookup-insert o.key k, other) refl
]

pub lookup-observe_all :
    (k : Key) (os : List Observation) (st : Store)
    → lookup k (observe_all os st).contents
      ≡ replay st.retention st.max_len k os (lookup k st.contents)
unfolding replay observe
lookup-observe_all k [] st = refl
lookup-observe_all k (o ∷ os) st =
    lookup-observe_all k os (observe st o.key o.sample o.restarts) ∙ rw (lookup-observe k o st) refl

pub has-live_all :
    (k : Key) (os : List Observation) (live : Map Key (Unit {0}))
    → has k (live_all os live) ≡ (if is_observed k os then true else has k live)
unfolding is_observed
has-live_all k [] live = refl
has-live_all k (o ∷ os) live =
    ground (arith, has-live_all k os (insert o.key tt live), has-insert o.key k tt live)

-- A store and its live keys after some observations.
pub record Follows (os : List Observation) (st : Store) (live : Map Key (Unit {0})) (st' : Store)
    (live' : Map Key (Unit {0})) : Type 0 where
  pub contents : st' ≡ observe_all os st
  pub keys : live' ≡ live_all os live

pub Follows-trans :
    (xs ys : List Observation) (a b c : Store) (la lb lc : Map Key (Unit {0}))
    → Follows xs a la b lb
    → Follows ys b lb c lc
    → Follows (xs ++ ys) a la c lc
Follows-trans xs ys a b c la lb lc h k = record {
  contents = k.contents ∙ ap (observe_all ys) h.contents ∙ sym (observe_all-append xs ys a);
  keys = k.keys ∙ ap (live_all ys) h.keys ∙ sym (live_all-append xs ys la);
}

observe_used-Follows :
    (u : Option ℤ) (now : Time) (pod : Pod) (t : Target) (o : Observed)
    → Follows
        (join_used u now pod t)
        o.store
        o.live
        (observe_used u now pod t o).store
        (observe_used u now pod t o).live
observe_used-Follows none now pod t o = record { contents = refl; keys = refl }
observe_used-Follows (some ws) now pod t o = record { contents = refl; keys = refl }

observe_targets-Follows :
    (usage : Map Key ℤ) (now : Time) (pod : Pod) (ts : List Target) (o : Observed)
    → Follows
        (join_targets usage now pod ts)
        o.store
        o.live
        (observe_targets usage now pod ts o).store
        (observe_targets usage now pod ts o).live
unfolding join_targets observe_targets
observe_targets-Follows usage now pod [] o = record { contents = refl; keys = refl }
observe_targets-Follows usage now pod (t ∷ ts) o =
    let u = lookup (target_key pod t) usage in
    Follows-trans (join_used u now pod t) (join_targets usage now pod ts) _ _ _ _ _ _
      (observe_used-Follows u now pod t o)
      (observe_targets-Follows usage now pod ts (observe_used u now pod t o))

pub observe_pods-Follows :
    (usage : Map Key ℤ) (now : Time) (cfg : PodConfig) (wl : WorkloadId) (pods : List Pod)
    (p : Pass) (flag : Bool)
    → let q = (observe_pods usage now cfg wl pods (p, flag)).0 in
      Follows (join_pods usage now cfg pods) p.store p.live q.store q.live
unfolding observe_pods join_pods
observe_pods-Follows usage now cfg wl [] p flag = record { contents = refl; keys = refl }
observe_pods-Follows usage now cfg wl (pod ∷ pods) p flag =
    let ts = (select_targets pod cfg).0 in
    Follows-trans (join_targets usage now pod ts) (join_pods usage now cfg pods) _ _ _ _ _ _
      (observe_targets-Follows usage now pod ts (observed_of p flag))
      (observe_pods-Follows usage now cfg wl pods _ _)
