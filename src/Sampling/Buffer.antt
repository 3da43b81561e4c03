-- ===== src/Sampling/Buffer.antt =====
-- internal/sampling/buffer.go: the store of the per-container series. The mutex makes each method one
-- atomic step; a method that changes the store returns the new one.
pub mod Trim
pub mod Invariant
pub mod Laws
pub mod Horizon
use memory_leak_reloader.Base.{
  ℕ, suc, ◌-◌, String, Bool, true, false, Option, none, some, List, [], ◌∷◌, ◌++◌, ◌≡◌, refl, ◌↔◌,
  arith, ◌==◌, string_eq, if◌then◌else◌, ◌&&◌, not, Eq, length, drop, ltb, arith,
}
use memory_leak_reloader.Base.Int.{ℤ, pos, pos_part, neg_part, ltb_ℤ}
use memory_leak_reloader.Base.Time.{Time, Duration, before, after, back}
use memory_leak_reloader.Base.Map.{Map, lookup, insert, delete, has}

pub record Sample : Type 0 where
  pub time : Time
  pub working_set : ℤ
  pub limit : ℤ

pub record Key : Type 0 where
  pub namespace : String
  pub pod : String
  pub container : String

abbrev pub key_beq : Key → Key → Bool
key_beq a b = (a.namespace == b.namespace) && (a.pod == b.pod) && (a.container == b.container)

pub key_beq_iff : (a b : Key) → (key_beq a b ≡ true) ↔ (a ≡ b)
key_beq_iff a b = (
  λ h. ground (
    arith,
    string_eq.beq_iff a.namespace b.namespace,
    string_eq.beq_iff a.pod b.pod,
    string_eq.beq_iff a.container b.container,
  ),
  λ h. ground (
    arith,
    string_eq.beq_iff a.namespace b.namespace,
    string_eq.beq_iff a.pod b.pod,
    string_eq.beq_iff a.container b.container,
  ),
)

instance abbrev pub key_eq : Eq Key
key_eq = record { beq = key_beq; beq_iff = key_beq_iff }

pub record Series : Type 0 where
  pub samples : List Sample
  pub last_restarts : ℤ

-- `max_len` is at least 2 by the constructor, so a natural number holds it.
pub record Store : Type 0 where
  pub contents : Map Key Series
  pub retention : Duration
  pub max_len : ℕ

unfoldable pub new_store : Duration → ℤ → Store
unfolding pos_part neg_part
new_store retention max_len = record {
  contents = [];
  retention = retention;
  max_len = if ltb_ℤ max_len (pos 2) then 2 else pos_part max_len;
}

-- The loop over `drop`: the samples at the front that are older than the cutoff.
unfoldable pub stale : Time → List Sample → ℕ
stale cutoff [] = 0
stale cutoff (x ∷ xs) = let rest = suc (stale cutoff xs) in if before x.time cutoff then rest else 0

-- The shift of the series: the larger of the stale samples and the overflow. `len - maxLen` that is
-- negative is above no drop, and 0 here.
unfoldable pub trim : Time → ℕ → List Sample → List Sample
unfolding stale
trim cutoff max_len xs =
    let old = stale cutoff xs in
    let over = length xs - max_len in drop (if ltb old over then over else old) xs

abbrev pub series_or_new : Option Series → ℤ → Series
series_or_new none restarts = record { samples = []; last_restarts = restarts }
series_or_new (some ser) restarts = ser

-- The series after one observation.
unfoldable pub observe_series : Duration → ℕ → Series → Sample → ℤ → Series
unfolding trim back
observe_series retention max_len ser sample restarts =
    let kept = if ltb_ℤ ser.last_restarts restarts then [] else ser.samples in
    record {
      samples = trim (back sample.time retention) max_len (kept ++ sample ∷ []);
      last_restarts = restarts;
    }

unfoldable pub observe : Store → Key → Sample → ℤ → Store
unfolding observe_series lookup insert
observe s key sample restarts =
    let ser = series_or_new (lookup key s.contents) restarts in
    record s {
      contents = insert key (observe_series s.retention s.max_len ser sample restarts) s.contents;
    }

abbrev pub spans : List Sample → Time → Bool
spans [] t = false
spans (x ∷ []) t = false
spans (x ∷ y ∷ xs) t = not (after x.time t)

abbrev pub series_spans : Option Series → Time → Bool
series_spans none t = false
series_spans (some ser) t = spans ser.samples t

-- Store.WindowCovered.
unfoldable pub window_covered : Store → Key → Duration → Time → Bool
unfolding lookup back
window_covered s key window now = series_spans (lookup key s.contents) (back now window)

abbrev pub samples_of : Option Series → List Sample
samples_of none = []
samples_of (some ser) = ser.samples

-- Store.Samples; a nil slice and an empty one are the same list.
unfoldable pub samples : Store → Key → List Sample
unfolding lookup
samples s key = samples_of (lookup key s.contents)

unfoldable pub reset : Store → Key → Store
unfolding delete
reset s key = record s { contents = delete key s.contents }

-- The loop of Prune over the entries.
unfoldable pub keep_live : Map Key (Unit {0}) → Map Key Series → Map Key Series
unfolding has
keep_live live [] = []
keep_live live ((k, ser) ∷ m) =
    let rest = keep_live live m in if has k live then (k, ser) ∷ rest else rest

unfoldable pub prune : Store → Map Key (Unit {0}) → Store × ℕ
unfolding keep_live
prune s live = let kept = keep_live live s.contents in (record s { contents = kept }, length kept)

unfoldable pub len : Store → ℕ
len s = length s.contents
