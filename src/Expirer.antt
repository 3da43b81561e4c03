-- ===== src/Expirer.antt =====
-- cmd/expirer.go: the periodic release of the slots that should no longer be held. A tick is one
-- step on the state that the expirer shares with the reconciler.
pub mod Laws
use memory_leak_reloader.Base.{◌*◌, String, Bool, List, [], ◌∷◌, Option, if◌then◌else◌}
use memory_leak_reloader.Base.Int.{pos, leb_ℤ}
use memory_leak_reloader.Base.Time.{Time, Duration, second}
use memory_leak_reloader.Gate.{Gate, release, expire_older_than, inflight_count}
use memory_leak_reloader.Restart.Cluster.{Error, Client, Library}
use memory_leak_reloader.Restart.Store.{sweep_in_flight}
use memory_leak_reloader.Controller.State.{State, inflight_gauge, note}

pub record Expirer : Type 0 where
  pub has_state : Bool
  pub timeout : Duration
  pub interval : Duration

abbrev pub thirty_seconds : Duration
thirty_seconds = pos (30 * second)

unfoldable pub new_expirer : Bool → Duration → Duration → Expirer
new_expirer has_state timeout interval = record {
  has_state = has_state;
  timeout = timeout;
  interval = if leb_ℤ interval (pos 0) then thirty_seconds else interval;
}

-- The loop over the keys of the sweep.
unfoldable pub release_all : List String → Gate → Gate
unfolding release
release_all [] g = g
release_all (k ∷ ks) g = release_all ks (release g k)

module _ {W : Type 0} where
  -- The gauge, set if there are keys.
  abbrev pub gauge_if : List String → State W → State W
  gauge_if [] s = s
  gauge_if (k ∷ ks) s = note (inflight_gauge (inflight_count s.gate)) s

  unfoldable pub release_expired : Expirer → Time → State W → State W
  unfolding expire_older_than inflight_count
  release_expired e now s =
      let (g, released) = expire_older_than s.gate now e.timeout in
      gauge_if released (record s { gate = g })

  -- After the sweep, whether it ended with an error or not.
  abbrev pub release_swept : (List String × Option Error) × W → State W → State W
  release_swept ((keys, e), w) s =
      gauge_if keys (record s { world = w; gate = release_all keys s.gate })

  unfoldable pub sweep_stage : Client W → Library → Expirer → Time → State W → State W
  unfolding release_all inflight_count
  sweep_stage c lib e now s =
      if e.has_state then release_swept (sweep_in_flight c lib now e.timeout s.world) s else s

  -- One tick of Start.
  unfoldable pub tick : Client W → Library → Expirer → Time → State W → State W
  unfolding release_expired sweep_stage
  tick c lib e now s = sweep_stage c lib e now (release_expired e now s)
