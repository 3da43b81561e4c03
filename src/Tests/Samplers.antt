-- ===== src/Tests/Samplers.antt =====
-- A pass of the sampler, a tick of the expirer and a history of the three.
use memory_leak_reloader.Base.{
  true, false, none, some, List, [], ◌∷◌, ◌≡◌, refl, if◌then◌else◌, string_eq,
}
use memory_leak_reloader.Base.Int.{pos, int_laws}
use memory_leak_reloader.Base.Map.{lookup, distinct, has}
use memory_leak_reloader.Base.Word.{IsDuration}
use memory_leak_reloader.Api.{MemoryLeakPolicy}
use memory_leak_reloader.Datasource.{Usage}
use memory_leak_reloader.Restart.Cluster.{Result, ok}
use memory_leak_reloader.Sampling.Buffer.{Key, key_eq, Store, window_covered, observe}
use memory_leak_reloader.Sampling.Buffer.Invariant.{IsValid}
use memory_leak_reloader.Sampling.Buffer.Horizon.{observe_long_window}
use memory_leak_reloader.Controller.Sampler.{
  Sampler, by_key, list_policies, list_namespaces, sample_once,
}
use memory_leak_reloader.Controller.Sampler.Replay.{join_policies, replay, is_observed}
use memory_leak_reloader.Controller.Sampler.Laws.{sample_once-replay}
use memory_leak_reloader.Controller.Sampler.Invariant.{sample_once-IsValid}
use memory_leak_reloader.Tests.Values.{client, library, defaults, policy, fresh, state}

abbrev usage : List Usage
usage = record { namespace = "shop"; pod = "web-1"; container = "app"; working_set = pos 97 } ∷ []

abbrev sampler_of : Result (List Usage) → Sampler MemoryLeakPolicy
sampler_of us = record {
  client = client;
  lib = library;
  list_usage = λ nss w. (us, w);
  clock = λ w. pos 30;
  defaults = defaults;
  namespaces = [];
  has_events = true;
}

abbrev pub sampler : Sampler MemoryLeakPolicy
sampler = sampler_of (ok usage)

abbrev pub world : MemoryLeakPolicy
world = policy (some false) fresh

abbrev app : Key
app = record { namespace = "shop"; pod = "web-1"; container = "app" }

abbrev store : Store
store = (state world).store

listed : list_policies sampler world ≡ (ok (world ∷ []), world)
unfolding list_policies list_namespaces
listed = refl

sample_once-replay_example : lookup app (sample_once sampler store world).1.contents ≡ (
    if is_observed app (join_policies sampler (by_key usage []) (pos 30) (world ∷ []) world).0
    then replay
        (pos 100)
        20
        app
        (join_policies sampler (by_key usage []) (pos 30) (world ∷ []) world).0
        (lookup app store.contents)
    else none)
sample_once-replay_example =
    sample_once-replay sampler store world world world (world ∷ []) usage app listed refl

store-IsValid : IsValid (pos 28) store
unfolding distinct has
store-IsValid = record {
  one_each = refl;
  series = (
    record {
      bounded = omega int_laws;
      sorted = (((omega int_laws), ((omega int_laws), tt)), (((omega int_laws), tt), (tt, tt)));
      past = ((omega int_laws), ((omega int_laws), ((omega int_laws), tt)));
    },
    tt,
  );
}

sample_once-IsValid_example : IsValid (pos 30) (sample_once sampler store world).1
sample_once-IsValid_example =
    sample_once-IsValid sampler store world world world (world ∷ []) usage (pos 28) listed refl
      (omega int_laws) store-IsValid

duration : IsDuration (pos 100)
duration = record { not_over = omega int_laws; not_under = omega int_laws }

-- A window of 110 with a retention of 100, five after the sample.
observe_long_window_example :
    window_covered
      (observe store app (record { time = pos 30; working_set = pos 97; limit = pos 100 }) (pos 0))
      app
      (pos 110)
      (pos 35)
    ≡ false
observe_long_window_example =
    observe_long_window store app (record { time = pos 30; working_set = pos 97; limit = pos 100 })
      (pos 0) (pos 28) (pos 35) (pos 110) store-IsValid (omega int_laws) duration
      (record { not_over = omega int_laws; not_under = omega int_laws }) (omega int_laws)
