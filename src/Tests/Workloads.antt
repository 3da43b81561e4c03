-- ===== src/Tests/Workloads.antt =====
-- Workloads and the store of statuses.
use memory_leak_reloader.Base.{String, false, none, some, [], ◌∷◌, ◌≡◌, refl, arith}
use memory_leak_reloader.Base.Int.{pos, ◌≤ℤ◌, ◌<ℤ◌, int_laws}
use memory_leak_reloader.Base.Time.{since}
use memory_leak_reloader.Base.Map.{insert}
use memory_leak_reloader.Api.{MemoryLeakPolicy, InFlightRollout}
use memory_leak_reloader.Restart.Objects.{Object, deployment}
use memory_leak_reloader.Restart.Cluster.{not_found, ok, err}
use memory_leak_reloader.Restart.Workload.{uid, template_version, set_template_restarted_at}
use memory_leak_reloader.Restart.Workload.Keys.{NoSlash}
use memory_leak_reloader.Restart.Workload.Version.{KeepsStatus, template_version-stamped}
use memory_leak_reloader.Restart.Resolve.{stamped, get_workload}
use memory_leak_reloader.Restart.Store.{classify, persist, sweep, sweep_one, classify_in_flight}
use memory_leak_reloader.Restart.Store.Laws.{Verdict, classify_young, Accepted, persist-Accepted}
use memory_leak_reloader.Tests.Values.{library, client, policy, fresh, web, template}

library-KeepsStatus : KeepsStatus library
library-KeepsStatus r r' stamp e = cc e

abbrev restarted : Object
restarted = deployment (record web {
  template = record template { annotations = ("kubectl.kubernetes.io/restartedAt", "now") ∷ [] };
})

is_stamped : stamped library (deployment web) "now" ≡ ok restarted
unfolding stamped set_template_restarted_at insert
is_stamped = refl

template_version-stamped_example :
    template_version library restarted ≡ template_version library (deployment web)
template_version-stamped_example =
    template_version-stamped library library-KeepsStatus (deployment web) restarted "now" is_stamped

abbrev kind : String
kind = "Web"

abbrev namespace : String
namespace = "dev"

abbrev name : String
name = "a/b"

kind-NoSlash : NoSlash kind
kind-NoSlash = ((λ e. omega (arith, e)), ((λ e. omega (arith, e)), ((λ e. omega (arith, e)), tt)))

namespace-NoSlash : NoSlash namespace
namespace-NoSlash =
    ((λ e. omega (arith, e)), ((λ e. omega (arith, e)), ((λ e. omega (arith, e)), tt)))

abbrev flight : InFlightRollout
flight = record { dispatched_at = pos 10; dispatched_version = "v1"; phase = "Dispatched" }

abbrev stuck : MemoryLeakPolicy
stuck = policy (some false) (record fresh { in_flight = some flight })

young : since (pos 20) (pos 10) <ℤ pos 60
unfolding since
young = omega int_laws

classify_young_example :
    Verdict client library stuck flight
      (err not_found)
      (classify client library stuck flight (pos 20) (pos 60) (err not_found))
classify_young_example =
    classify_young client library stuck flight (pos 20) (pos 60) (err not_found) young

is_persisted : (persist client library stuck stuck).0.0 ≡ none
unfolding persist
is_persisted = refl

persist-Accepted_example : Accepted client library stuck stuck
persist-Accepted_example = persist-Accepted client library stuck stuck is_persisted

is_swept : (sweep client library (stuck ∷ []) (pos 90) (pos 60) stuck).0.1 ≡ none
unfolding sweep sweep_one classify_in_flight get_workload uid template_version persist
is_swept = refl

aged : pos 60 ≤ℤ since (pos 90) (pos 10)
unfolding since
aged = omega int_laws
