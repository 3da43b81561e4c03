-- ===== src/Startup/Stages.antt =====
-- The early returns of run in cmd/main.go: a stage changes the world, and gives a value, an error or a
-- panic.
use memory_leak_reloader.Base.{Option, none, some, ◌≡◌, refl}
use memory_leak_reloader.Restart.Cluster.{Error, Result, ok, err}

pub data Stage (A : Type 0) : Type 0 where
  done : A → Stage A
  failed : Error → Stage A
  panicked : Stage A

abbrev pub of_result : {A : Type 0} → Result A → Stage A
of_result (ok a) = done a
of_result (err e) = failed e

abbrev pub of_error : Option Error → Stage (Unit {0})
of_error none = done tt
of_error (some e) = failed e

abbrev pub of_option : {A : Type 0} → Error → Option A → Stage A
of_option e none = failed e
of_option e (some a) = done a

abbrev pub Run : Type 0 → Type 0 → Type 0
Run W A = W → Stage A × W

module _ {W : Type 0} where
  infixl 5 ◌>>=◌ ◌>>◌
  abbrev pub continue_with : {A B : Type 0} → Stage A × W → (A → Run W B) → Stage B × W
  continue_with (done a, w) f = f a w
  continue_with (failed e, w) f = (failed e, w)
  continue_with (panicked, w) f = (panicked, w)

  abbrev pub ◌>>=◌ : {A B : Type 0} → Run W A → (A → Run W B) → Run W B
  ◌>>=◌ m f w = continue_with (m w) f

  abbrev pub ◌>>◌ : {A B : Type 0} → Run W A → Run W B → Run W B
  m >> n = m >>= λ _. n

  abbrev pub lift : {A : Type 0} → Stage A → Run W A
  lift s w = (s, w)

  abbrev pub fails : Option Error × W → Stage (Unit {0}) × W
  fails (e, w) = (of_error e, w)

  abbrev pub yields : {A : Type 0} → Result A × W → Stage A × W
  yields (r, w) = (of_result r, w)

  -- Only a value of the first stage leads to the second.
  continue-done :
      {A B : Type 0} (m : Stage A × W) (f : A → Run W B) (b : B) (w : W)
      → continue_with m f ≡ (done b, w)
      → (a : A) × (v : W) × (m ≡ (done a, v)) × (f a v ≡ (done b, w))
  continue-done (done a, v) f b w h = (a, v, refl, h)
  continue-done (failed e, v) f b w h = absurd (cc h)
  continue-done (panicked, v) f b w h = absurd (cc h)

  pub bind-done :
      {A B : Type 0} (m : Run W A) (f : A → Run W B) (v w : W) (b : B)
      → (m >>= f) v ≡ (done b, w)
      → (a : A) × (u : W) × (m v ≡ (done a, u)) × (f a u ≡ (done b, w))
  bind-done m f v w b h = continue-done (m v) f b w h

  pub lift-done :
      {A B : Type 0} (s : Stage A) (f : A → Run W B) (v w : W) (b : B)
      → (lift s >>= f) v ≡ (done b, w)
      → (a : A) × (s ≡ done a) × (f a v ≡ (done b, w))
  lift-done (done a) f v w b h = (a, refl, h)
  lift-done (failed e) f v w b h = absurd (cc h)
  lift-done panicked f v w b h = absurd (cc h)

  pub lift_injective : {A : Type 0} (a b : A) (v w : W) → lift (done a) v ≡ (done b, w) → a ≡ b
  lift_injective a b v w h = cc h

  pub fails-done : (r : Option Error × W) (u : W) → fails r ≡ (done tt, u) → r ≡ (none, u)
  fails-done (none, w) u h = cc h
  fails-done (some e, w) u h = absurd (cc h)

pub of_option-done :
    {A : Type 0} (e : Error) (o : Option A) (a : A) → of_option e o ≡ done a → o ≡ some a
of_option-done e none a h = absurd (cc h)
of_option-done e (some b) a h = cc h
