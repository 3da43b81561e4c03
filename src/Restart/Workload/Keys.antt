-- ===== src/Restart/Workload/Keys.antt =====
-- The keys of the slots tell the workloads apart (internal/restart/restart.go, WorkloadKey).
use Prim.Native.Char.{Char, code}
use text.Mathlib.TextLemmas.{
  nil-append, cons-append, cons-eq-cons, append_cancel_left, head-eq_of_cons-eq,
}
use mathlib.Core.Path.{ap₂}
use Prim.Native.String.{◌++◌}
use memory_leak_reloader.Base.{String, ◌≡◌, ◌≢◌, refl, ap, sym, ◌∙◌}
use memory_leak_reloader.Restart.Workload.{workload_key}

abbrev pub NoSlash : String → Type 0
NoSlash String.[] = Unit
NoSlash (String.◌∷◌ c s) = (code c ≢ b'/') × NoSlash s

-- A text that starts with the slash starts with its code.
slash_head :
    (d : Char) (b s t : String)
    → String.[] ++ ("/" ++ s) ≡ (String.◌∷◌ d b) ++ ("/" ++ t)
    → code d ≡ b'/'
slash_head d b s t e = sym (
    ap code (
      head-eq_of_cons-eq
        (sym (cons-append _ String.[] s) ∙ sym (nil-append _) ∙ e ∙ cons-append d b _)))

split_unique :
    (a b s t : String)
    → NoSlash a
    → NoSlash b
    → a ++ ("/" ++ s) ≡ b ++ ("/" ++ t)
    → (a ≡ b) × (s ≡ t)
split_unique String.[] String.[] s t na nb e =
    (refl, append_cancel_left "/" s t (sym (nil-append _) ∙ e ∙ nil-append _))
split_unique String.[] (String.◌∷◌ d b) s t na nb e = absurd (nb.0 (slash_head d b s t e))
split_unique (String.◌∷◌ c a) String.[] s t na nb e = absurd (na.0 (slash_head c a t s (sym e)))
split_unique (String.◌∷◌ c a) (String.◌∷◌ d b) s t na nb e =
    let parts =
      cons-eq-cons.0 (sym (cons-append c a ("/" ++ s)) ∙ e ∙ cons-append d b ("/" ++ t)) in
    let rest = split_unique a b s t na.1 nb.1 parts.1 in (ap₂ String.◌∷◌ parts.0 rest.0, rest.1)

-- For kinds and namespaces without a slash, two references with the same key are the same
-- reference.
pub workload_key-injective :
    (k k' n n' m m' : String)
    → NoSlash k
    → NoSlash k'
    → NoSlash n
    → NoSlash n'
    → workload_key k n m ≡ workload_key k' n' m'
    → (k ≡ k') × (n ≡ n') × (m ≡ m')
unfolding workload_key
workload_key-injective k k' n n' m m' hk hk' hn hn' e =
    let outer = split_unique k k' (n ++ ("/" ++ m)) (n' ++ ("/" ++ m')) hk hk' e in
    let inner = split_unique n n' m m' hn hn' outer.1 in (outer.0, inner.0, inner.1)
