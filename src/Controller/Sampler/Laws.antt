-- ===== src/Controller/Sampler/Laws.antt =====
-- What a pass of the sampler leaves in the store (internal/controller/sampler.go).
use memory_leak_reloader.Base.{
  Bool, false, none, List, [], ◌∷◌, ◌≡◌, refl, ◌∙◌, arith, if◌then◌else◌, ◌&&◌, Bool-cases, inl,
  inr,
}
use memory_leak_reloader.Base.Int.{ℤ}
use memory_leak_reloader.Base.Map.{Map, lookup, has}
use memory_leak_reloader.Base.Time.{Time}
use memory_leak_reloader.Api.{MemoryLeakPolicy}
use memory_leak_reloader.Config.{PodConfig, resolve_policy}
use memory_leak_reloader.Datasource.{Usage}
use memory_leak_reloader.Restart.Objects.{Pod}
use memory_leak_reloader.Restart.Cluster.{Result, ok, err}
use memory_leak_reloader.Restart.Workload.{Workload}
use memory_leak_reloader.Restart.Resolve.{get_workload}
use memory_leak_reloader.Sampling.Buffer.{Key, key_eq, Store}
use memory_leak_reloader.Sampling.Buffer.Laws.{lookup-prune}
use memory_leak_reloader.Controller.Pods.{list_workload_pods}
use memory_leak_reloader.Controller.Sampler.{
  policy_eq, Sampler, Pass, bump, by_key, enqueue, workload_id, on_pods, on_workload, sample_policy,
  sample_policies, list_policies, start_pass, sample_once,
}
use memory_leak_reloader.Controller.Sampler.Replay.{
  Observation, join_pods, joined_pods, joined_workload, join_policy, join_policies, replay,
  is_observed, lookup-observe_all, has-live_all, Follows, Follows-trans, observe_pods-Follows,
}

module _ {W : Type 0} (s : Sampler W) where
  -- A step of the pass that does what its observations say.
  pub record Matches (j : List Observation × W) (p : Pass) (r : Pass × W) : Type 0 where
    pub state : Follows j.0 p.store p.live r.0.store r.0.live
    pub world : j.1 ≡ r.1

  enqueue-Follows :
      (os : List Observation) (p : MemoryLeakPolicy) (st : Pass) (r : Pass) (flag : Bool)
      → Follows os st.store st.live r.store r.live
      → Follows os st.store st.live (enqueue s p (r, flag)).store (enqueue s p (r, flag)).live
  enqueue-Follows os p st r flag h = elim (Bool-cases (flag && s.has_events)) [
    | inl sent ↦ rw sent h
    | inr silent ↦ rw silent h
  ]

  on_pods-Matches :
      (usage : Map Key ℤ) (now : Time) (p : MemoryLeakPolicy) (cfg : PodConfig)
      (r : Result (List Pod) × W) (pass : Pass)
      → Matches (joined_pods s usage now cfg r) pass (on_pods s usage now p cfg r pass)
  on_pods-Matches usage now p cfg (err e, w) pass = record {
    state = record { contents = refl; keys = refl };
    world = refl;
  }
  on_pods-Matches usage now p cfg (ok pods, w) pass = record {
    state =
        enqueue-Follows (join_pods usage now cfg pods) p pass _ _
          (observe_pods-Follows usage now cfg (workload_id s p) pods pass false);
    world = refl;
  }

  on_workload-Matches :
      (usage : Map Key ℤ) (now : Time) (p : MemoryLeakPolicy) (cfg : PodConfig)
      (r : Result Workload × W) (pass : Pass)
      → Matches (joined_workload s usage now cfg r) pass (on_workload s usage now p cfg r pass)
  on_workload-Matches usage now p cfg (err e, w) pass = record {
    state = record { contents = refl; keys = refl };
    world = refl;
  }
  on_workload-Matches usage now p cfg (ok wl, w) pass =
      on_pods-Matches usage now p cfg (list_workload_pods s.client s.lib wl w) pass

  sample_policy-Matches :
      (usage : Map Key ℤ) (now : Time) (p : MemoryLeakPolicy) (pass : Pass) (w : W)
      → Matches (join_policy s usage now p w) pass (sample_policy s usage now p pass w)
  unfolding join_policy sample_policy
  sample_policy-Matches usage now p pass w =
      let cfg = resolve_policy s.defaults p.spec in
      let m =
        on_workload-Matches usage now p cfg
          (get_workload s.client s.lib p.spec.workload_ref.kind p.namespace p.spec.workload_ref.name
            w)
          (record pass {
            counts = bump (record { namespace = p.namespace; dry_run = cfg.dry_run }) 1 pass.counts;
          }) in
      record { state = m.state; world = m.world }

  pub sample_policies-Matches :
      (usage : Map Key ℤ) (now : Time) (ps : List MemoryLeakPolicy) (pass : Pass) (w : W)
      → Matches (join_policies s usage now ps w) pass (sample_policies s usage now ps pass w)
  unfolding join_policies sample_policies
  sample_policies-Matches usage now [] pass w = record {
    state = record { contents = refl; keys = refl };
    world = refl;
  }
  sample_policies-Matches usage now (p ∷ ps) pass w =
      let one = sample_policy-Matches usage now p pass w in
      let r = sample_policy s usage now p pass w in
      let later = sample_policies-Matches usage now ps r.0 r.1 in
      record {
        state =
            Follows-trans (join_policy s usage now p w).0 _ _ _ _ _ _ _ one.state
              (rw one.world later.state);
        world = rw one.world later.world;
      }

  -- A pass that lists its policies and their usage does to the store what the observations that
  -- usage and targets give do to each series on its own: a container that is observed has its series
  -- with those observations added in order, a container that is not has none.
  pub sample_once-replay :
      (st : Store) (w w1 w2 : W) (ps : List MemoryLeakPolicy) (us : List Usage) (k : Key)
      → list_policies s w ≡ (ok ps, w1)
      → s.list_usage s.namespaces w1 ≡ (ok us, w2)
      → let os = (join_policies s (by_key us []) (s.clock w2) ps w2).0 in
        lookup k (sample_once s st w).1.contents ≡ (
          if is_observed k os
          then replay st.retention st.max_len k os (lookup k st.contents)
          else none)
  unfolding sample_once has
  sample_once-replay st w w1 w2 ps us k hp hu =
      let m = sample_policies-Matches (by_key us []) (s.clock w2) ps (start_pass st) w2 in
      let os = (join_policies s (by_key us []) (s.clock w2) ps w2).0 in
      rw (hp, hu)
        (lookup-prune _ _ k
          ∙ rw (m.state.contents, m.state.keys, has-live_all k os [], lookup-observe_all k os st)
              (ground arith))
