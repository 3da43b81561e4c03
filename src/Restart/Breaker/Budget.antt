-- ===== src/Restart/Breaker/Budget.antt =====
-- The circuit breaker bounds the restarts within a window (internal/restart/breaker.go).
use memory_leak_reloader.Base.{
  ℕ, ◌+◌, String, true, false, Option, none, some, List, [], ◌∷◌, ◌≡◌, refl, arith, ◌∙◌, string_eq,
  if◌then◌else◌, not, length, filterb, All, Bool-cases, inl, inr, sym, subst,
}
use memory_leak_reloader.Base.Int.{ℤ, pos, ◌≤ℤ◌, ◌<ℤ◌, int_laws, ◌+ℤ◌, parts_apart}
use memory_leak_reloader.Base.Word.{IsInt64, add64-eq, add64}
use memory_leak_reloader.Base.Time.{Time, Duration, before}
use memory_leak_reloader.Api.{MemoryLeakPolicyStatus}
use memory_leak_reloader.Restart.Cluster.{Library}
use memory_leak_reloader.Restart.Breaker.{
  Cause, same_since, same_window, breaker_tripped, apply_restart, set_condition,
}

-- The restarts of the log that are not before the window's start.
abbrev pub counted : Option Time → List Time → ℕ
counted none log = 0
counted (some start) log = length (filterb (λ t. not (before t start)) log)

-- One evaluation that would restart: the breaker decides. The log holds the times of the restarts.
unfoldable pub attempt :
    Library
    → Duration
    → ℤ
    → MemoryLeakPolicyStatus × List Time
    → String × Cause × Time
    → MemoryLeakPolicyStatus × List Time
attempt lib window m (st, log) (ver, cause, now) =
    if breaker_tripped st ver now window m
    then (st, log)
    else (apply_restart lib st ver cause now window, now ∷ log)

pub attempts :
    Library
    → Duration
    → ℤ
    → MemoryLeakPolicyStatus × List Time
    → List (String × Cause × Time)
    → MemoryLeakPolicyStatus × List Time
attempts lib window m s [] = s
attempts lib window m s (a ∷ as') = attempts lib window m (attempt lib window m s a) as'

abbrev Earlier : Time → Time → Type 0
Earlier now t = t <ℤ now

-- The stored count is the number of restarts since the window's start, and it is within the budget.
pub record IsWithin (m : ℤ) (now : Time) (s : MemoryLeakPolicyStatus × List Time) : Type 0 where
  pub exact : s.0.restart_count ≡ pos (counted s.0.window_start s.1)
  pub within : pos (counted s.0.window_start s.1) ≤ℤ m
  pub past : All (λ t. t ≤ℤ now) s.1
  pub started : (start : Time) → s.0.window_start ≡ some start → start ≤ℤ now

same_since_facts :
    (st : MemoryLeakPolicyStatus) (ver : String) (now : Time) (window : Duration) (start : Time)
    → ((same_since st ver now window start).count ≡ st.restart_count)
      × ((same_since st ver now window start).start ≡ start)
same_since_facts st ver now window start = (ground arith, ground arith)

same_window_facts :
    (st : MemoryLeakPolicyStatus) (ver : String) (now : Time) (window : Duration)
    → ((same_window st ver now window).count ≡ st.restart_count)
      × ((same_window st ver now window).same ≡ true
          → st.window_start ≡ some (same_window st ver now window).start)
unfolding same_window
same_window_facts st ver now window = (ground arith, λ h. ground arith)

none_counted :
    (now later : Time) (log : List Time)
    → All (λ t. t ≤ℤ now) log
    → now <ℤ later
    → length (filterb (λ t. not (before t later)) log) ≡ 0
none_counted now later [] h k = refl
none_counted now later (t ∷ log) h k = ground (arith, none_counted now later log)

All-mono :
    (now later : Time) (log : List Time)
    → now ≤ℤ later
    → All (λ t. t ≤ℤ now) log
    → All (λ t. t ≤ℤ later) log
All-mono now later [] h k = tt
All-mono now later (t ∷ log) h k = (omega arith, All-mono now later log h k.1)

add64_one : (n : ℕ) (m : ℤ) → IsInt64 m → pos n <ℤ m → add64 (pos n) (pos 1) ≡ pos (n + 1)
add64_one n m h k = add64-eq (pos n) (pos 1) (one_more n m h k) ∙ one_more_eq n
  where
    one_more_eq : (n : ℕ) → pos n +ℤ pos 1 ≡ pos (n + 1)
    one_more_eq n = omega int_laws

    one_more : (n : ℕ) (m : ℤ) → IsInt64 m → pos n <ℤ m → IsInt64 (pos n +ℤ pos 1)
    one_more n m h k = record {
      not_over = omega (int_laws, parts_apart (pos n +ℤ pos 1), parts_apart m, one_more_eq n);
      not_under = omega (int_laws, parts_apart (pos n +ℤ pos 1), parts_apart m);
    }

-- A restart in the current window, and one that starts a window.
applied_same :
    (lib : Library) (st : MemoryLeakPolicyStatus) (ver : String) (c : Cause) (now : Time)
    (window : Duration)
    → (same_window st ver now window).same ≡ true
    → let st' = apply_restart lib st ver c now window in
      (st'.restart_count ≡ add64 st.restart_count (pos 1)) × (st'.window_start ≡ st.window_start)
unfolding apply_restart set_condition
applied_same lib st ver c now window h =
    let facts = same_window_facts st ver now window in
    (ground (arith, facts), ground (arith, facts))

applied_rolled :
    (lib : Library) (st : MemoryLeakPolicyStatus) (ver : String) (c : Cause) (now : Time)
    (window : Duration)
    → (same_window st ver now window).same ≡ false
    → let st' = apply_restart lib st ver c now window in
      (st'.restart_count ≡ pos 1) × (st'.window_start ≡ some now)
unfolding apply_restart set_condition
applied_rolled lib st ver c now window h = (ground arith, ground arith)

calm_room :
    (st : MemoryLeakPolicyStatus) (ver : String) (now : Time) (window : Duration) (m : ℤ)
    → pos 0 <ℤ m
    → breaker_tripped st ver now window m ≡ false
    → (same_window st ver now window).same ≡ true
    → st.restart_count <ℤ m
unfolding breaker_tripped
calm_room st ver now window m positive calm same =
    ground (arith, same_window_facts st ver now window)

counted_next :
    (o : Option Time) (start later : Time) (log : List Time)
    → o ≡ some start
    → start ≤ℤ later
    → counted o (later ∷ log) ≡ counted o log + 1
counted_next o start later log e h = ground arith

-- The three facts of a restart, from its count and its window start.
recorded :
    (m : ℤ) (now later : Time) (st : MemoryLeakPolicyStatus) (log : List Time)
    → now ≤ℤ later
    → All (λ t. t ≤ℤ now) log
    → st.restart_count ≡ pos (counted st.window_start (later ∷ log))
    → pos (counted st.window_start (later ∷ log)) ≤ℤ m
    → ((start : Time) → st.window_start ≡ some start → start ≤ℤ later)
    → IsWithin m later (st, later ∷ log)
recorded m now later st log h past exact within started = record {
  exact = exact;
  within = within;
  past = (omega arith, All-mono now later log h past);
  started = started;
}

module _ (lib : Library) (window : Duration) (m : ℤ) (fits : IsInt64 m)
    (positive : pos 0 <ℤ m) where
  same-IsWithin :
      (st : MemoryLeakPolicyStatus) (log : List Time) (now later : Time) (ver : String) (c : Cause)
      → now <ℤ later
      → IsWithin m now (st, log)
      → breaker_tripped st ver later window m ≡ false
      → (same_window st ver later window).same ≡ true
      → IsWithin m later (apply_restart lib st ver c later window, later ∷ log)
  same-IsWithin st log now later ver c h v calm same =
      let start = (same_window st ver later window).start in
      let e : st.window_start ≡ some start = (same_window_facts st ver later window).1 same in
      let (count, kept) = applied_same lib st ver c later window same in
      let room = subst (λ z. z <ℤ m) v.exact (calm_room st ver later window m positive calm same) in
      let next =
        counted_next st.window_start start later log e (omega (arith, v.started start e)) in
      recorded m now later _ log (omega arith) v.past
        (rw (count, kept, v.exact, next) (add64_one _ m fits room))
        (rw (kept, next) (omega (int_laws, room)))
        (λ s k. omega (arith, v.started s (sym kept ∙ k)))

  rolled-IsWithin :
      (st : MemoryLeakPolicyStatus) (log : List Time) (now later : Time) (ver : String) (c : Cause)
      → now <ℤ later
      → IsWithin m now (st, log)
      → (same_window st ver later window).same ≡ false
      → IsWithin m later (apply_restart lib st ver c later window, later ∷ log)
  rolled-IsWithin st log now later ver c h v rolled =
      let (count, start) = applied_rolled lib st ver c later window rolled in
      let one : counted (some later) (later ∷ log) ≡ 1 =
        ground (arith, none_counted now later log v.past h) in
      recorded m now later _ log (omega arith) v.past (rw (count, start, one))
        (rw (start, one) (omega int_laws)) (λ s k. ground arith)

  attempt-IsWithin :
      (st : MemoryLeakPolicyStatus) (log : List Time) (now later : Time) (ver : String) (c : Cause)
      → now <ℤ later
      → IsWithin m now (st, log)
      → IsWithin m later (attempt lib window m (st, log) (ver, c, later))
  unfolding attempt
  attempt-IsWithin st log now later ver c h v =
      elim (Bool-cases (breaker_tripped st ver later window m)) [
        | inl tripped ↦ rw tripped (record {
          exact = v.exact;
          within = v.within;
          past = All-mono now later log (omega arith) v.past;
          started = λ start e. omega (arith, v.started start e);
        })
        | inr calm ↦ rw calm (elim (Bool-cases (same_window st ver later window).same) [
          | inl same ↦ same-IsWithin st log now later ver c h v calm same
          | inr rolled ↦ rolled-IsWithin st log now later ver c h v rolled
        ])
      ]

  abbrev pub Ascending : Time → List (String × Cause × Time) → Type 0
  Ascending now [] = Unit
  Ascending now ((ver, c, later) ∷ as') = (now <ℤ later) × Ascending later as'

  attempts-IsWithin :
      (st : MemoryLeakPolicyStatus) (log : List Time) (now : Time)
      (todo : List (String × Cause × Time))
      → Ascending now todo
      → IsWithin m now (st, log)
      → (end : Time) × IsWithin m end (attempts lib window m (st, log) todo)
  unfolding attempts
  attempts-IsWithin st log now [] h v = (now, v)
  attempts-IsWithin st log now ((ver, c, later) ∷ todo) h v =
      let (st', log') = attempt lib window m (st, log) (ver, c, later) in
      attempts-IsWithin st' log' later todo h.1 (attempt-IsWithin st log now later ver c h.0 v)

  -- With a positive int64 budget, from a status without a window and with the count 0, through
  -- any evaluations at rising times and at any template versions: the stored count is exactly
  -- the number of restarts since the start of the breaker's window, and that is never above the
  -- budget.
  pub attempts_budget :
      (st : MemoryLeakPolicyStatus) (now : Time) (todo : List (String × Cause × Time))
      → st.window_start ≡ none
      → st.restart_count ≡ pos 0
      → Ascending now todo
      → let (st', log) = attempts lib window m (st, []) todo in
        (st'.restart_count ≡ pos (counted st'.window_start log))
        × (pos (counted st'.window_start log) ≤ℤ m)
  attempts_budget st now todo fresh zero h =
      let (end, v) = attempts-IsWithin st [] now todo h (record {
        exact = rw (fresh, zero);
        within = rw fresh (omega (int_laws, positive));
        past = tt;
        started = λ start e. absurd (cc);
      }) in
      (v.exact, v.within)
