-- ===== src/Metrics/Laws.antt =====
-- Registering the collectors more than once (internal/metrics/metrics.go, Register).
use memory_leak_reloader.Base.{Bool, true, Option, none, some, List, [], ◌∷◌, ◌≡◌, refl, All}
use memory_leak_reloader.Metrics.{
  Collector, collectors, RegisterError, already_registered, refused, after_register, register_from,
  register,
}

-- Prometheus' registry: it refuses what it holds as already registered, and keeps what it holds; what it
-- takes without another error it then holds.
pub record IsRegistry {R : Type 0} (add_to : Collector → R → Option RegisterError × R)
    (holds : Collector → R → Type 0) : Type 0 where
  pub repeated : (c : Collector) (r : R) → holds c r → add_to c r ≡ (some already_registered, r)
  pub kept : (c d : Collector) (r : R) → holds c r → holds c (add_to d r).1
  pub added : (c : Collector) (r s : R) → add_to c r ≡ (none, s) → holds c s
  pub there : (c : Collector) (r s : R) → add_to c r ≡ (some already_registered, s) → holds c s

module _ {R : Type 0} (add_to : Collector → R → Option RegisterError × R)
    (holds : Collector → R → Type 0) (reg : IsRegistry add_to holds) where
  -- The collectors that come after one: what it leaves is what they leave.
  after-keeps :
      (c : Collector) (x : Option RegisterError × R) (next : R → Bool × R)
      → ((s : R) → holds c s → holds c (next s).1)
      → holds c x.1
      → holds c (after_register add_to x next).1
  after-keeps c (none, s) next f k = f s k
  after-keeps c (some already_registered, s) next f k = f s k
  after-keeps c (some (refused e), s) next f k = k

  keeps-register_from :
      (c : Collector) (cs : List Collector) (r : R)
      → holds c r
      → holds c (register_from add_to cs r).1
  unfolding register_from
  keeps-register_from c [] r h = h
  keeps-register_from c (d ∷ cs) r h =
      after-keeps c (add_to d r) _ (λ s k. keeps-register_from c cs s k) (reg.kept c d r h)

  after-held :
      (c : Collector) (cs : List Collector) (r : R) (x : Option RegisterError × R)
      → add_to c r ≡ x
      → ((s : R)
          → (register_from add_to cs s).0 ≡ true
          → All (λ d. holds d (register_from add_to cs s).1) cs)
      → (after_register add_to x (λ s. register_from add_to cs s)).0 ≡ true
      → All (λ d. holds d (after_register add_to x (λ s. register_from add_to cs s)).1) (c ∷ cs)
  after-held c cs r (none, s) e f k = (keeps-register_from c cs s (reg.added c r s e), f s k)
  after-held c cs r (some already_registered, s) e f k =
      (keeps-register_from c cs s (reg.there c r s e), f s k)
  after-held c cs r (some (refused x), s) e f k = absurd (cc k)

  all_held :
      (cs : List Collector) (r : R)
      → (register_from add_to cs r).0 ≡ true
      → All (λ c. holds c (register_from add_to cs r).1) cs
  unfolding register_from
  all_held [] r h = tt
  all_held (c ∷ cs) r h = after-held c cs r (add_to c r) refl (λ s. all_held cs s) h

  held_again :
      (cs : List Collector) (r : R)
      → All (λ c. holds c r) cs
      → register_from add_to cs r ≡ (true, r)
  unfolding register_from
  held_again [] r h = refl
  held_again (c ∷ cs) r h = rw (reg.repeated c r h.0) (held_again cs r h.1)

  -- With a registry that behaves as Prometheus' does: after a registration of the collectors that did
  -- not panic, a second one does not panic either, and changes nothing.
  pub register-again :
      (r : R)
      → (register add_to r).0 ≡ true
      → register add_to (register add_to r).1 ≡ (true, (register add_to r).1)
  unfolding register
  register-again r h = held_again collectors _ (all_held collectors r h)
