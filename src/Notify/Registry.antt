-- ===== src/Notify/Registry.antt =====
-- What the registry of routes holds (internal/notify/routes.go, BuildRoutes and LoadRoutes).
use memory_leak_reloader.Base.{
  String, Bool, true, false, Option, none, some, List, [], ◌∷◌, ◌≡◌, ◌==◌, string_eq, if◌then◌else◌,
  ◌&&◌, not, refl, ◌∙◌, arith, Bool-cases, inl, inr,
}
use memory_leak_reloader.Base.Map.{Map, lookup, has, insert, has-insert, lookup-insert}
use memory_leak_reloader.Notify.{Sink}
use memory_leak_reloader.Notify.Routes.{
  Route, Built, built, refused, route_sink, add_route, build_from, build_routes, empty_name,
  duplicate_name,
}

abbrev pub is_built : Built → Bool
is_built (built m) = true
is_built (refused e) = false

abbrev pub registry : Built → Map String Sink
registry (built m) = m
registry (refused e) = []

abbrev pub is_some : Option Sink → Bool
is_some none = false
is_some (some s) = true

abbrev pub is_route : String → List Route → Bool
is_route k [] = false
is_route k (r ∷ rs) = let rest = is_route k rs in if r.name == k then true else rest

-- No key of the map is the name of a route.
abbrev avoids : Map String Sink → List Route → Bool
avoids m [] = true
avoids m (r ∷ rs) = not (has r.name m) && avoids m rs

module _ (hostname : String → Option String) where
  -- The sink of the first route of a name.
  abbrev pub find_sink : String → List Route → Option Sink
  find_sink k [] = none
  find_sink k (r ∷ rs) =
      let rest = find_sink k rs in if r.name == k then route_sink hostname r else rest

  -- Names that are not empty and that differ, and known types.
  abbrev pub is_well_formed : List Route → Bool
  is_well_formed [] = true
  is_well_formed (r ∷ rs) =
      not (r.name == "")
      && is_some (route_sink hostname r)
      && not (is_route r.name rs)
      && is_well_formed rs

  avoids-insert :
      (n : String) (s : Sink) (m : Map String Sink) (rs : List Route)
      → avoids (insert n s m) rs ≡ (not (is_route n rs) && avoids m rs)
  avoids-insert n s m [] = refl
  avoids-insert n s m (r ∷ rs) = ground (
    arith,
    avoids-insert n s m rs,
    has-insert n r.name s m,
    string_eq.beq_iff n r.name,
    string_eq.beq_iff r.name n,
  )

  build_from_iff :
      (rs : List Route) (m : Map String Sink)
      → is_built (build_from hostname rs m) ≡ (is_well_formed rs && avoids m rs)
  unfolding build_from
  build_from_iff [] m = refl
  build_from_iff (r ∷ rs) m =
      one (route_sink hostname r) (λ s. build_from_iff rs (insert r.name s m))
    where
      added :
          (o : Option Sink)
          → ((s : Sink)
              → is_built (build_from hostname rs (insert r.name s m))
                ≡ (is_well_formed rs && avoids (insert r.name s m) rs))
          → is_built (add_route hostname o r m (build_from hostname rs))
            ≡ ((is_some o && not (is_route r.name rs) && is_well_formed rs) && avoids m rs)
      added none h = refl
      added (some s) h = h s ∙ ground (arith, avoids-insert r.name s m rs)

      one :
          (o : Option Sink)
          → ((s : Sink)
              → is_built (build_from hostname rs (insert r.name s m))
                ≡ (is_well_formed rs && avoids (insert r.name s m) rs))
          → is_built (
              if r.name == ""
              then refused empty_name
              else if has r.name m
              then refused (duplicate_name r.name)
              else add_route hostname o r m (build_from hostname rs))
            ≡ ((not (r.name == "") && is_some o && not (is_route r.name rs) && is_well_formed rs)
                && (not (has r.name m) && avoids m rs))
      one o h = elim (Bool-cases (r.name == "")) [
        | inl unnamed ↦ rw unnamed refl
        | inr named ↦ elim (Bool-cases (has r.name m)) [
          | inl taken ↦ rw (named, taken) (ground arith)
          | inr free ↦ rw (named, free) (added o h)
        ]
      ]

  avoids_none : (qs : List Route) → avoids [] qs ≡ true
  unfolding has
  avoids_none [] = refl
  avoids_none (q ∷ qs) = avoids_none qs

  -- The registry of routes is built exactly if no route has an empty name, no two have the same name
  -- and each has a known type.
  pub build_routes_iff : (rs : List Route) → is_built (build_routes hostname rs) ≡ is_well_formed rs
  unfolding build_routes has
  build_routes_iff rs = build_from_iff rs [] ∙ ground (arith, avoids_none rs)

  lookup-build_from :
      (k : String) (rs : List Route) (m : Map String Sink)
      → (is_well_formed rs && avoids m rs) ≡ true
      → lookup k (registry (build_from hostname rs m))
        ≡ (if is_route k rs then find_sink k rs else lookup k m)
  unfolding build_from
  lookup-build_from k [] m h = refl
  lookup-build_from k (r ∷ rs) m h =
      let named : (r.name == "") ≡ false = ground arith in
      let free : has r.name m ≡ false = ground arith in
      rw (named, free)
        (added (route_sink hostname r) (ground arith)
          (λ s e. lookup-build_from k rs (insert r.name s m) e))
    where
      added :
          (o : Option Sink)
          → (is_some o && not (is_route r.name rs) && is_well_formed rs && avoids m rs) ≡ true
          → ((s : Sink)
              → (is_well_formed rs && avoids (insert r.name s m) rs) ≡ true
              → lookup k (registry (build_from hostname rs (insert r.name s m)))
                ≡ (if is_route k rs then find_sink k rs else lookup k (insert r.name s m)))
          → lookup k (registry (add_route hostname o r m (build_from hostname rs))) ≡ (
              if (if r.name == k then true else is_route k rs)
              then (if r.name == k then o else find_sink k rs)
              else lookup k m)
      added none e ih = absurd (cc e)
      added (some s) e ih =
          ih s (ground (arith, avoids-insert r.name s m rs))
          ∙ rw (lookup-insert r.name k s m) (ground (arith, string_eq.beq_iff r.name k))

  find_sink-none : (k : String) (rs : List Route) → is_route k rs ≡ false → find_sink k rs ≡ none
  find_sink-none k [] h = refl
  find_sink-none k (r ∷ rs) h = ground (arith, find_sink-none k rs)

  -- For such routes the registry has under each name the sink of the route of that name, and nothing
  -- under another name.
  pub lookup-build_routes :
      (rs : List Route) (k : String)
      → is_well_formed rs ≡ true
      → lookup k (registry (build_routes hostname rs)) ≡ find_sink k rs
  unfolding build_routes has lookup
  lookup-build_routes rs k h =
      lookup-build_from k rs [] (ground (arith, avoids_none rs))
      ∙ ground (arith, find_sink-none k rs)
