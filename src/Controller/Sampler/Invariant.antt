-- ===== src/Controller/Sampler/Invariant.antt =====
-- The store of series stays well formed under the sampler (internal/controller/sampler.go), and a
-- pass that cannot list what it needs leaves it alone.
use memory_leak_reloader.Base.{
  false, Option, none, some, List, [], ◌∷◌, ◌≡◌, refl, subst, arith, All, All-append, Bool-cases,
  inl, inr,
}
use memory_leak_reloader.Base.Int.{ℤ, ◌≤ℤ◌}
use memory_leak_reloader.Base.Map.{Map, IsMap, lookup, has, distinct}
use memory_leak_reloader.Base.Time.{Time}
use memory_leak_reloader.Api.{MemoryLeakPolicy}
use memory_leak_reloader.Config.{PodConfig, resolve_policy}
use memory_leak_reloader.Datasource.{Usage}
use memory_leak_reloader.Restart.Objects.{Pod}
use memory_leak_reloader.Restart.Cluster.{Result, ok, err}
use memory_leak_reloader.Restart.Workload.{Workload}
use memory_leak_reloader.Restart.Resolve.{get_workload}
use memory_leak_reloader.Sampling.Buffer.{Key, key_eq, Series, Store, prune, keep_live, observe}
use memory_leak_reloader.Sampling.Buffer.Invariant.{
  IsSeries, IsValid, IsValid-later, observe-IsValid,
}
use memory_leak_reloader.Controller.Pods.{list_workload_pods}
use memory_leak_reloader.Controller.Selection.{Target, select_targets}
use memory_leak_reloader.Controller.Sampler.{
  Sampler, target_key, by_key, list_policies, start_pass, sample_once,
}
use memory_leak_reloader.Controller.Sampler.Replay.{
  Observation, join_used, join_targets, join_pods, joined_pods, joined_workload, join_policy,
  join_policies, observe_all,
}
use memory_leak_reloader.Controller.Sampler.Laws.{sample_policies-Matches}

-- An observation of this moment.
abbrev IsAt : Time → Observation → Type 0
IsAt now o = o.sample.time ≡ now

join_used-IsAt :
    (u : Option ℤ) (now : Time) (pod : Pod) (t : Target) → All (IsAt now) (join_used u now pod t)
join_used-IsAt none now pod t = tt
join_used-IsAt (some ws) now pod t = (refl, tt)

join_targets-IsAt :
    (usage : Map Key ℤ) (now : Time) (pod : Pod) (ts : List Target)
    → All (IsAt now) (join_targets usage now pod ts)
unfolding join_targets
join_targets-IsAt usage now pod [] = tt
join_targets-IsAt usage now pod (t ∷ ts) =
    All-append (IsAt now) (join_used (lookup (target_key pod t) usage) now pod t) _
      (join_used-IsAt _ now pod t) (join_targets-IsAt usage now pod ts)

join_pods-IsAt :
    (usage : Map Key ℤ) (now : Time) (cfg : PodConfig) (pods : List Pod)
    → All (IsAt now) (join_pods usage now cfg pods)
unfolding join_pods
join_pods-IsAt usage now cfg [] = tt
join_pods-IsAt usage now cfg (pod ∷ pods) =
    All-append (IsAt now) (join_targets usage now pod (select_targets pod cfg).0) _
      (join_targets-IsAt usage now pod _) (join_pods-IsAt usage now cfg pods)

observe_all-IsValid :
    (now : Time) (os : List Observation) (st : Store)
    → now ≤ℤ now
    → All (IsAt now) os
    → IsValid now st
    → IsValid now (observe_all os st)
observe_all-IsValid now [] st h a v = v
observe_all-IsValid now (o ∷ os) st h a v = observe_all-IsValid now os _ h a.1 (
    subst (λ t. IsValid t (observe st o.key o.sample o.restarts)) a.0
      (observe-IsValid st o.key o.sample o.restarts now (rw a.0 h) v))

has-keep_live :
    (k : Key) (live : Map Key (Unit {0})) (m : Map Key Series)
    → has k m ≡ false
    → has k (keep_live live m) ≡ false
unfolding has keep_live
has-keep_live k live [] h = refl
has-keep_live k live ((j, ser) ∷ m) h = ground (arith, has-keep_live k live m)

keep_live-IsMap :
    (live : Map Key (Unit {0})) (m : Map Key Series) → IsMap m → IsMap (keep_live live m)
unfolding keep_live distinct
keep_live-IsMap live [] h = refl
keep_live-IsMap live ((k, ser) ∷ m) h =
    ground (arith, keep_live-IsMap live m, has-keep_live k live m)

All-keep_live :
    (P : Series → Type 0) (live : Map Key (Unit {0})) (m : Map Key Series)
    → All (λ e. P e.1) m
    → All (λ e. P e.1) (keep_live live m)
unfolding keep_live
All-keep_live P live [] a = tt
All-keep_live P live ((k, ser) ∷ m) a = elim (Bool-cases (has k live)) [
  | inl lives ↦ rw lives (a.0, All-keep_live P live m a.1)
  | inr dead ↦ rw dead (All-keep_live P live m a.1)
]

prune-IsValid :
    (now : Time) (st : Store) (live : Map Key (Unit {0}))
    → IsValid now st
    → IsValid now (prune st live).0
unfolding prune
prune-IsValid now st live v = record {
  one_each = keep_live-IsMap live st.contents v.one_each;
  series = All-keep_live (IsSeries st.max_len now) live st.contents v.series;
}

module _ {W : Type 0} (s : Sampler W) where
  joined_pods-IsAt :
      (usage : Map Key ℤ) (now : Time) (cfg : PodConfig) (r : Result (List Pod) × W)
      → All (IsAt now) (joined_pods s usage now cfg r).0
  joined_pods-IsAt usage now cfg (err e, w) = tt
  joined_pods-IsAt usage now cfg (ok pods, w) = join_pods-IsAt usage now cfg pods

  joined_workload-IsAt :
      (usage : Map Key ℤ) (now : Time) (cfg : PodConfig) (r : Result Workload × W)
      → All (IsAt now) (joined_workload s usage now cfg r).0
  joined_workload-IsAt usage now cfg (err e, w) = tt
  joined_workload-IsAt usage now cfg (ok wl, w) =
      joined_pods-IsAt usage now cfg (list_workload_pods s.client s.lib wl w)

  join_policy-IsAt :
      (usage : Map Key ℤ) (now : Time) (p : MemoryLeakPolicy) (w : W)
      → All (IsAt now) (join_policy s usage now p w).0
  unfolding join_policy
  join_policy-IsAt usage now p w =
      joined_workload-IsAt usage now (resolve_policy s.defaults p.spec) (
        get_workload s.client s.lib p.spec.workload_ref.kind p.namespace p.spec.workload_ref.name w)

  join_policies-IsAt :
      (usage : Map Key ℤ) (now : Time) (ps : List MemoryLeakPolicy) (w : W)
      → All (IsAt now) (join_policies s usage now ps w).0
  unfolding join_policies
  join_policies-IsAt usage now [] w = tt
  join_policies-IsAt usage now (p ∷ ps) w =
      All-append (IsAt now) (join_policy s usage now p w).0 _ (join_policy-IsAt usage now p w)
        (join_policies-IsAt usage now ps _)

  -- A pass that lists its policies and their usage, at a time that is not before the samples of a
  -- well-formed store, leaves the store well formed.
  pub sample_once-IsValid :
      (st : Store) (w w1 w2 : W) (ps : List MemoryLeakPolicy) (us : List Usage) (t : Time)
      → list_policies s w ≡ (ok ps, w1)
      → s.list_usage s.namespaces w1 ≡ (ok us, w2)
      → t ≤ℤ s.clock w2
      → IsValid t st
      → IsValid (s.clock w2) (sample_once s st w).1
  unfolding sample_once
  sample_once-IsValid st w w1 w2 ps us t hp hu h v =
      let m = sample_policies-Matches s (by_key us []) (s.clock w2) ps (start_pass st) w2 in
      let now = s.clock w2 in
      rw (hp, hu)
        (prune-IsValid now _ _ (
          rw (m.state.contents) (
            observe_all-IsValid now _ st (omega arith) (join_policies-IsAt (by_key us []) now ps w2)
              (IsValid-later t now st h v))))
