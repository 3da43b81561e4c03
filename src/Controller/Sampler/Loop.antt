-- ===== src/Controller/Sampler/Loop.antt =====
-- Sampler.Start (internal/controller/sampler.go): a pass at once and one at each tick.
use memory_leak_reloader.Base.{◌*◌, List, [], ◌∷◌, if◌then◌else◌}
use memory_leak_reloader.Base.Int.{pos, leb_ℤ}
use memory_leak_reloader.Base.Time.{Duration, second}
use memory_leak_reloader.Sampling.Buffer.{Store}
use memory_leak_reloader.Controller.Sampler.{Sampler, Report, sample_once}

abbrev pub then_pass : {W : Type 0} → Report → List Report × Store × W → List Report × Store × W
then_pass report (reports, store, w) = (report ∷ reports, store, w)

-- The interval of the ticker.
unfoldable pub start_interval : Duration → Duration
start_interval d = if leb_ℤ d (pos 0) then pos (30 * second) else d

module _ {W : Type 0} (s : Sampler W) where
  -- Start until its context is cancelled: a pass at once, and one at each tick, with what changes in the
  -- cluster before it.
  unfoldable pub start : List (W → W) → Store → W → List Report × Store × W
  unfolding sample_once
  start [] store w = let (report, store', w') = sample_once s store w in (report ∷ [], store', w')
  start (f ∷ fs) store w =
      let (report, store', w') = sample_once s store w in then_pass report (start fs store' (f w'))
