-- ===== src/System.antt =====
-- The reconciler, the sampler and the expirer on the state that cmd/main.go gives them to share: the
-- gate, the store of series and the API server. A history is a list of their runs, in any order, with
-- changes of the cluster by others between them; the runs are taken one after another.
pub mod Safety
use memory_leak_reloader.Base.{List, [], ◌∷◌}
use memory_leak_reloader.Base.Time.{Time}
use memory_leak_reloader.Restart.Objects.{NamespacedName}
use memory_leak_reloader.Sampling.Buffer.{Store}
use memory_leak_reloader.Gate.{new}
use memory_leak_reloader.Sampling.Buffer.{new_store}
use memory_leak_reloader.Controller.State.{Reconciler, State}
use memory_leak_reloader.Controller.Sampler.{Sampler, Report, sample_once}
use memory_leak_reloader.Controller.Reconcile.{reconcile}
use memory_leak_reloader.Expirer.{Expirer, tick}

pub record System (L F W : Type 0) : Type 0 where
  pub reconciler : Reconciler L F W
  pub sampler : Sampler W
  pub expirer : Expirer

pub data Action (W : Type 0) : Type 0 where
  reconciles : NamespacedName → Action W
  samples : Action W
  ticks : Time → Action W
  changes : (W → W) → Action W  -- what others do in the cluster

module _ {W : Type 0} where
  abbrev pub after_pass : Report × Store × W → State W → State W
  after_pass (report, store, w) s = record s { store = store; world = w }

module _ {L F W : Type 0} (sys : System L F W) where
  unfoldable pub step : Action W → State W → State W
  step (reconciles req) s = (reconcile sys.reconciler req s).1
  step samples s = after_pass (sample_once sys.sampler s.store s.world) s
  step (ticks now) s = tick sys.reconciler.client sys.reconciler.lib sys.expirer now s
  step (changes f) s = record s { world = f s.world }

  unfoldable pub run : List (Action W) → State W → State W
  unfolding step
  run [] s = s
  run (a ∷ acts) s = run acts (step a s)
