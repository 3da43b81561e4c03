-- ===== src/Config/Laws.antt =====
-- What internal/config/config.go guarantees of the resolved configuration.
use memory_leak_reloader.Base.{
  String, false, some, List, [], ◌∷◌, ◌++◌, ◌≡◌, ◌≢◌, ◌↔◌, refl, arith, All, beq_refl, string_eq,
}
use memory_leak_reloader.Api.{DetectionSpec, ContainerOverride, MemoryLeakPolicySpec}
use memory_leak_reloader.Config.{
  Detection, Defaults, resolve_detection, resolve_policy, find_override,
}

-- Overlaying the same spec twice changes no more than overlaying it once.
pub resolve_detection_idem :
    (b : Detection) (s : DetectionSpec)
    → resolve_detection (resolve_detection b s) s ≡ resolve_detection b s
unfolding resolve_detection
resolve_detection_idem b s = ground arith

-- A workload is enforced exactly if its spec says `dryRun: false`; unset stays dry-run, whatever the
-- controller defaults are.
pub resolve_policy-enforced_iff :
    (d : Defaults) (spec : MemoryLeakPolicySpec)
    → ((resolve_policy d spec).dry_run ≡ false) ↔ (spec.dry_run ≡ some false)
unfolding resolve_policy
resolve_policy-enforced_iff d spec = (λ h. ground arith, λ h. ground arith)

abbrev NotNamed : String → ContainerOverride → Type 0
NotNamed n o = o.name ≢ n

find_override_missing :
    (b : Detection) (n : String) (os : List ContainerOverride)
    → All (NotNamed n) os
    → find_override b n os ≡ b
unfolding find_override
find_override_missing b n [] h = refl
find_override_missing b n (o ∷ os) h =
    ground (arith, string_eq.beq_iff o.name n, find_override_missing b n os)

-- Where the names of the overrides before it differ, an override decides for its container; the ones
-- behind it and those of other containers do not matter.
pub find_override_first :
    (b : Detection) (o : ContainerOverride) (os rest : List ContainerOverride)
    → All (NotNamed o.name) os
    → find_override b o.name (os ++ o ∷ rest) ≡ resolve_detection b o.detection
unfolding find_override
find_override_first b o [] rest h = ground (arith, beq_refl o.name)
find_override_first b o (x ∷ os) rest h =
    ground (arith, string_eq.beq_iff x.name o.name, find_override_first b o os rest)
