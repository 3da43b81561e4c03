-- ===== src/Startup/Laws.antt =====
-- What a start that succeeds has checked, and what its system then guarantees (cmd/main.go).
use memory_leak_reloader.Base.{
  String, Option, none, some, List, [], ◌≡◌, ◌≢◌, ◌⊎◌, inl, inr, refl, subst, ◌==◌, string_eq,
  Bool-cases,
}
use memory_leak_reloader.Base.Int.{pos, int_eq}
use memory_leak_reloader.Base.Map.{Map}
use memory_leak_reloader.Base.Text.{join_with}
use memory_leak_reloader.Config.{parse_mode}
use memory_leak_reloader.Datasource.Source.{Source, list_usage, probe}
use memory_leak_reloader.Datasource.Source
use memory_leak_reloader.Gate
use memory_leak_reloader.Maintenance.Parse.{parse_string}
use memory_leak_reloader.Sampling.Buffer.{Store}
use memory_leak_reloader.System.{Action}
use memory_leak_reloader.System
use memory_leak_reloader.System.Safety.{Safe, run-Safe}
use memory_leak_reloader.Startup.{Flags, Platform}
use memory_leak_reloader.Startup.Stages.{
  done, panicked, of_result, of_option, fails, bind-done, lift-done, lift_injective, fails-done,
  of_option-done,
}
use memory_leak_reloader.Startup.Launch.{
  Launched, initial, cache_scope, sized_store, metrics_client, source_options, ready_source,
  register_all, capturer, manager, manager_options, notifications, registrations, launched,
  assemble, defaults_of, run,
}

cache_scope-done :
    (f : Flags) (own : String) (m : Option (Map String (Unit {0})))
    → cache_scope f own ≡ done m
    → (f.scope_mode ≡ "cluster") ⊎ (f.namespaces ≢ [])
unfolding cache_scope
cache_scope-done f own m h = elim (Bool-cases (f.scope_mode == "cluster")) [
  | inl all ↦ inl ((string_eq.beq_iff f.scope_mode "cluster").0 all)
  | inr some_of ↦ inr (λ e. absurd (cc (rw (some_of, e) at h)))
]

sized_store-done : (f : Flags) (s : Store) → sized_store f ≡ done s → f.sample_every ≢ pos 0
unfolding sized_store
sized_store-done f s h e = let zero_interval : sized_store f ≡ panicked = rw e refl in absurd (cc)

module _ {L F U W : Type 0} (p : Platform L F U W) (f : Flags) where
  pub record Probed (src : Source) : Type 0 where
    pub before : W
    pub after : W
    pub answered : probe p.web src before ≡ (none, after)

  ready_source-Probed : (v w : W) (src : Source) → ready_source p f v ≡ (done src, w) → Probed src
  unfolding ready_source
  ready_source-Probed v w src h =
      let a = bind-done (metrics_client p f) _ v w src h in
      let b = lift-done (of_result (Source.new (source_options p f) a.0)) _ a.1 w src a.3 in
      let c = bind-done (λ u. fails (probe p.web b.0 u)) _ a.1 w src b.2 in
      let same : b.0 ≡ src = lift_injective b.0 src c.1 w c.3 in
      subst Probed (same)
        (record { before = a.1; after = c.1; answered = fails-done (probe p.web b.0 a.1) c.1 c.2 })

  -- A start that succeeded.
  pub record Ready (l : Launched L F W) (w : W) : Type 0 where
    pub mode : parse_mode f.mode ≡ some l.system.reconciler.defaults.detection.mode
    pub scope : (f.scope_mode ≡ "cluster") ⊎ (f.namespaces ≢ [])
    pub interval : f.sample_every ≢ pos 0
    pub windows :
        parse_string p.cal (join_with ";" f.window_specs) ≡ some l.system.reconciler.windows
    pub source : Source
    pub probed : Probed source
    pub usage : l.system.sampler.list_usage ≡ list_usage p.web source
    pub gate : l.gate ≡ Gate.new f.global_max

  run-Ready : (v w : W) (l : Launched L F W) → run p f v ≡ (done l, w) → Ready l w
  unfolding run
  run-Ready v w l h =
      let growth = lift-done (of_result (p.parse_quantity f.trend_growth)) _ v w l h in
      let mode = lift-done (of_option _ (parse_mode f.mode)) _ v w l growth.2 in
      let scope = lift-done (cache_scope f _) _ v w l mode.2 in
      let client = bind-done (manager p f (manager_options p f scope.0 _)) _ v w l scope.2 in
      let src = bind-done (ready_source p f) _ client.1 w l client.3 in
      let windows =
        lift-done (of_option _ (parse_string p.cal (join_with ";" f.window_specs))) _ src.1 w l
          src.3 in
      let cap = bind-done (capturer p f) _ src.1 w l windows.2 in
      let notifier = bind-done (notifications p f) _ cap.1 w l cap.3 in
      let store = lift-done (sized_store f) _ notifier.1 w l notifier.3 in
      let added = bind-done (register_all p f (registrations p f)) _ notifier.1 w l store.2 in
      let built =
        launched p f
          (assemble p f client.0 src.0 windows.0 (defaults_of f mode.0 growth.0) cap.0 notifier.0)
          store.0 in
      let same : built ≡ l = lift_injective built l added.1 w added.3 in
      subst (λ (x : Launched L F W). Ready x w) same
        (record {
          mode = of_option-done _ (parse_mode f.mode) mode.0 mode.1;
          scope = cache_scope-done f _ scope.0 scope.1;
          interval = sized_store-done f store.0 store.1;
          windows =
              of_option-done _ (parse_string p.cal (join_with ";" f.window_specs)) windows.0
                windows.1;
          source = src.0;
          probed = ready_source-Probed _ _ src.0 src.2;
          usage = refl;
          gate = refl;
        })

  -- A start that succeeded and what came of it.
  pub record Started (l : Launched L F W) (acts : List (Action W)) (w : W) : Type 0 where
    pub ready : Ready l w
    pub safe : Safe l.system (System.run l.system acts (initial l w))

  -- If run comes to the start of the manager, then the mode is a known one, namespaces are given unless the
  -- scope is the cluster, the sampling interval is not 0, the windows of the reconciler are those of
  -- the flags, the source that the sampler reads has answered its probe, and the gate is empty with
  -- the cap of the flags. And after whatever runs of the reconciler, the sampler and the expirer follow
  -- one another from there, with any changes of the cluster between them, no workload has two slots,
  -- with a positive cap there are at most that many slots, and every restart that was dispatched
  -- comes right after a Persist, which returned no error, of a status that has a rollout in flight.
  pub run-Started :
      (v w : W) (l : Launched L F W) (acts : List (Action W))
      → run p f v ≡ (done l, w)
      → Started l acts w
  run-Started v w l acts h =
      let ready = run-Ready v w l h in
      record {
        ready = ready;
        safe = run-Safe l.system f.global_max acts (initial l w) ready.gate refl;
      }
