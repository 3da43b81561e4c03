-- ===== src/Gate/Laws.antt =====
-- What each method of the gate does (internal/gate/gate.go).
use memory_leak_reloader.Base.{
  suc, ℕ, ◌+◌, ◌<◌, String, true, false, Option, none, some, [], ◌∷◌, ◌≡◌, ◌≢◌, refl, arith,
  Bool-cases, inl, inr, if◌then◌else◌, ◌&&◌, length, string_eq, ◌==◌,
}
use memory_leak_reloader.Base.Int.{ℤ, pos, ◌≤ℤ◌, ◌<ℤ◌, ltb_ℤ, leb_ℤ, int_laws, pos_part, neg_part}
use memory_leak_reloader.Base.Time.{Time, Duration, since}
use memory_leak_reloader.Base.Map.{
  Map, IsMap, lookup, has, delete, has-delete, length-insert, length-delete-le, insert-IsMap,
  delete-IsMap, lookup-insert, distinct, has-lookup,
}
use memory_leak_reloader.Gate.{
  Gate, Outcome, acquired, already_in_f, cap_reached, is_full, try_acquire, release, holds, expire,
  expire_older_than, new,
}

-- A slot that is younger than the timeout.
abbrev pub younger : Time → Duration → Option Time → Option Time
younger now d none = none
younger now d (some t) = if leb_ℤ d (since now t) then none else some t

-- The number of slots respects a positive cap, and no workload has two.
pub record IsValid (g : Gate) : Type 0 where
  pub one_each : IsMap g.inflight
  pub bounded : pos 0 <ℤ g.cap → pos (length g.inflight) ≤ℤ g.cap

-- Below a positive cap there is room for one more.
not_full :
    (c : ℤ) (n : ℕ) → (ltb_ℤ (pos 0) c && leb_ℤ c (pos n)) ≡ false → pos 0 <ℤ c → pos (n + 1) ≤ℤ c
unfolding pos_part neg_part
not_full c n h p = ground arith

is_full_room :
    (g : Gate) → is_full g ≡ false → pos 0 <ℤ g.cap → pos (length g.inflight + 1) ≤ℤ g.cap
unfolding is_full
is_full_room g h p = not_full g.cap (length g.inflight) h p

pub new-IsValid : (c : ℤ) → IsValid (new c)
unfolding new distinct
new-IsValid c = record { one_each = refl; bounded = λ h. omega int_laws }

pub try_acquire-IsValid :
    (g : Gate) (k : String) (now : Time) → IsValid g → IsValid (try_acquire g k now).1
unfolding try_acquire
try_acquire-IsValid g k now v = elim (Bool-cases (has k g.inflight)) [
  | inl held ↦ rw held v
  | inr free ↦ elim (Bool-cases (is_full g)) [
    | inl full ↦ rw (free, full) v
    | inr room ↦
        rw (free, room)
          (record {
            one_each = insert-IsMap k now g.inflight v.one_each;
            bounded = λ h. rw (length-insert k now g.inflight, free) (is_full_room g room h);
          })
  ]
]

pub release-IsValid : (g : Gate) (k : String) → IsValid g → IsValid (release g k)
unfolding release
release-IsValid g k v = record {
  one_each = delete-IsMap k g.inflight v.one_each;
  bounded = λ h. omega (int_laws, v.bounded h, length-delete-le k g.inflight);
}

-- A positive cap, and as many slots.
pub record IsFull (g : Gate) : Type 0 where
  pub capped : pos 0 <ℤ g.cap
  pub filled : g.cap ≤ℤ pos (length g.inflight)

-- The three answers to an acquire, and when each is given.
pub data Answers (g : Gate) (k : String) (now : Time) (r : Outcome × Gate) : Type 0 where
  held : (t : Time) → lookup k g.inflight ≡ some t → r ≡ (already_in_f, g) → Answers g k now r
  full : lookup k g.inflight ≡ none → IsFull g → r ≡ (cap_reached, g) → Answers g k now r
  given :
      lookup k g.inflight ≡ none
      → (IsFull g → ⊥)
      → r.0 ≡ acquired
      → r.1.cap ≡ g.cap
      → length r.1.inflight ≡ suc (length g.inflight)
      → ((j : String) → lookup j r.1.inflight ≡ (if k == j then some now else lookup j g.inflight))
      → Answers g k now r

is_full-IsFull : (g : Gate) → is_full g ≡ true → IsFull g
unfolding is_full pos_part neg_part
is_full-IsFull g h = record { capped = ground arith; filled = ground arith }

IsFull-is_full : (g : Gate) → IsFull g → is_full g ≡ true
unfolding is_full pos_part neg_part
IsFull-is_full g h = ground (arith, h.capped, h.filled)

has-lookup-none : (k : String) (m : Map String Time) → has k m ≡ false → lookup k m ≡ none
unfolding has lookup
has-lookup-none k [] h = refl
has-lookup-none k ((j, t) ∷ m) h = ground (arith, has-lookup-none k m)

has-lookup-some :
    (k : String) (m : Map String Time) → has k m ≡ true → (t : Time) × (lookup k m ≡ some t)
unfolding has lookup
has-lookup-some k [] h = absurd (cc h)
has-lookup-some k ((j, t) ∷ m) h = elim (Bool-cases (j == k)) [
  | inl same ↦ (t, rw same refl)
  | inr other ↦ let rest = has-lookup-some k m (rw other at h) in (rest.0, rw other rest.1)
]

-- An acquire is refused as `in_progress` to a workload that has a slot, and as `cap` to another one
-- while a positive cap is met by the number of slots, and then nothing changes; else the workload,
-- and no other, is given a slot, which dates from `now`, one more than before, under the same cap.
pub try_acquire-Answers :
    (g : Gate) (k : String) (now : Time) → Answers g k now (try_acquire g k now)
unfolding try_acquire
try_acquire-Answers g k now = elim (Bool-cases (has k g.inflight)) [
  | inl used ↦ let slot = has-lookup-some k g.inflight used in held slot.0 slot.1 (rw used)
  | inr free ↦
      let missing = has-lookup-none k g.inflight free in
      elim (Bool-cases (is_full g)) [
        | inl none_left ↦ full missing (is_full-IsFull g none_left) (rw (free, none_left))
        | inr room ↦
            given missing (λ f. absurd (cc (IsFull-is_full g f))) (rw (free, room))
              (rw (free, room)) (rw (free, room) (ground (arith, length-insert k now g.inflight)))
              (λ j. rw (free, room) (lookup-insert k j now g.inflight))
      ]
]

cap_reached-is_full :
    (g : Gate) (k : String) (now : Time) → (try_acquire g k now).0 ≡ cap_reached → is_full g ≡ true
unfolding try_acquire
cap_reached-is_full g k now h = ground arith

pub holds-release :
    (g : Gate) (k j : String) → holds (release g k) j ≡ (if k == j then false else holds g j)
unfolding holds release
holds-release g k j = has-delete k j g.inflight

has-length : (k : String) (m : Map String Time) → has k m ≡ true → length (delete k m) < length m
unfolding has delete
has-length k [] h = cc
has-length k ((j, w) ∷ m) h = ground (arith, has-length k m, length-delete-le k m)

full_after :
    (c : ℤ) (n m : ℕ)
    → (pos 0 <ℤ c → pos n ≤ℤ c)
    → m < n
    → (ltb_ℤ (pos 0) c && leb_ℤ c (pos m)) ≡ false
unfolding pos_part neg_part
full_after c n m h k = ground arith

-- Releasing a slot that is held in a valid gate makes room: the next acquire of that or of any
-- other workload is not refused by the cap.
pub release_makes_room :
    (g : Gate) (k j : String) (now : Time)
    → IsValid g
    → holds g k ≡ true
    → (try_acquire (release g k) j now).0 ≢ cap_reached
unfolding holds release is_full
release_makes_room g k j now v used refused =
    let gap =
      full_after g.cap (length g.inflight) (length (delete k g.inflight)) v.bounded
        (has-length k g.inflight used) in
    ground (arith, gap, cap_reached-is_full (release g k) j now refused)

lookup-expire_entries :
    (now : Time) (d : Duration) (m : Map String Time) (k : String)
    → IsMap m
    → lookup k (expire now d m).0 ≡ younger now d (lookup k m)
unfolding expire lookup distinct
lookup-expire_entries now d [] k v = refl
lookup-expire_entries now d ((j, t) ∷ m) k v =
    ground (arith, string_eq.beq_iff j k, lookup-expire_entries now d m k, has-lookup k m)

-- An expiry of a valid gate takes the slots that are at least the timeout old, and leaves each
-- other one with its time.
pub lookup-expire_older_than :
    (g : Gate) (now : Time) (d : Duration) (k : String)
    → IsValid g
    → lookup k (expire_older_than g now d).0.inflight ≡ younger now d (lookup k g.inflight)
unfolding expire_older_than
lookup-expire_older_than g now d k v = lookup-expire_entries now d g.inflight k v.one_each

has-expire :
    (now : Time) (d : Duration) (m : Map String Time) (k : String)
    → has k m ≡ false
    → has k (expire now d m).0 ≡ false
unfolding expire has
has-expire now d [] k h = refl
has-expire now d ((j, t) ∷ m) k h = ground (arith, has-expire now d m k)

expire-IsMap :
    (now : Time) (d : Duration) (m : Map String Time) → IsMap m → IsMap (expire now d m).0
unfolding expire distinct
expire-IsMap now d [] h = refl
expire-IsMap now d ((j, t) ∷ m) h = ground (arith, expire-IsMap now d m, has-expire now d m j)

-- Each slot is either kept or released.
expire_counts :
    (now : Time) (d : Duration) (m : Map String Time)
    → length (expire now d m).0 + length (expire now d m).1 ≡ length m
unfolding expire
expire_counts now d [] = omega arith
expire_counts now d ((j, t) ∷ m) = ground (arith, expire_counts now d m)

pub expire_older_than-IsValid :
    (g : Gate) (now : Time) (d : Duration) → IsValid g → IsValid (expire_older_than g now d).0
unfolding expire_older_than
expire_older_than-IsValid g now d v = record {
  one_each = expire-IsMap now d g.inflight v.one_each;
  bounded = λ h. omega (int_laws, v.bounded h, expire_counts now d g.inflight);
}
