-- ===== src/Gate.antt =====
-- internal/gate/gate.go: the in-memory slots of the restarts that are in flight. Each method runs
-- under the mutex, so it is one atomic step.
pub mod Laws
pub mod Steps
use memory_leak_reloader.Base.{
  ℕ, String, Bool, true, false, List, [], ◌∷◌, if◌then◌else◌, ◌&&◌, length, string_eq,
}
use memory_leak_reloader.Base.Int.{ℤ, pos, pos_part, neg_part, ltb_ℤ, leb_ℤ}
use memory_leak_reloader.Base.Time.{Time, Duration, since}
use memory_leak_reloader.Base.Map.{Map, has, insert, delete}

pub data Outcome : Type 0 where
  acquired already_in_f cap_reached : Outcome

pub record Gate : Type 0 where
  pub cap : ℤ
  pub inflight : Map String Time

unfoldable pub new : ℤ → Gate
new capacity = record { cap = capacity; inflight = [] }

-- g.cap > 0 && len(g.inflight) >= g.cap
unfoldable pub is_full : Gate → Bool
is_full g = ltb_ℤ (pos 0) g.cap && leb_ℤ g.cap (pos (length g.inflight))

unfoldable pub try_acquire : Gate → String → Time → Outcome × Gate
unfolding is_full has insert
try_acquire g key now =
    if has key g.inflight
    then (already_in_f, g)
    else if is_full g
    then (cap_reached, g)
    else (acquired, record g { inflight = insert key now g.inflight })

unfoldable pub release : Gate → String → Gate
unfolding delete
release g key = record g { inflight = delete key g.inflight }

unfoldable pub holds : Gate → String → Bool
unfolding has
holds g key = has key g.inflight

unfoldable pub inflight_count : Gate → ℕ
inflight_count g = length g.inflight

-- The loop of ExpireOlderThan: the slots that stay, and the keys of those that go.
unfoldable pub expire : Time → Duration → Map String Time → Map String Time × List String
expire now timeout [] = ([], [])
expire now timeout ((k, t) ∷ m) =
    let (kept, released) = expire now timeout m in
    if leb_ℤ timeout (since now t) then (kept, k ∷ released) else ((k, t) ∷ kept, released)

unfoldable pub expire_older_than : Gate → Time → Duration → Gate × List String
unfolding expire
expire_older_than g now timeout =
    let (kept, released) = expire now timeout g.inflight in (record g { inflight = kept }, released)

-- The loop of Reconcile, which fills a new map.
unfoldable pub copy_active : Map String Time → Map String Time → Map String Time
unfolding insert
copy_active acc [] = acc
copy_active acc ((k, t) ∷ m) = copy_active (insert k t acc) m

unfoldable pub reconcile : Gate → Map String Time → Gate
unfolding copy_active
reconcile g active = record g { inflight = copy_active [] active }
