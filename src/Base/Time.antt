-- ===== src/Base/Time.antt =====
-- Go's time.Time and time.Duration. An instant is its distance in nanoseconds from the zero Time, so
-- that `pos 0` is the zero Time; a Duration is an int64 number of nanoseconds.
use Prim.Native.Nat.{ℕ, ◌*◌}
use mathlib.Core.Path.{◌≡◌}
use mathlib.Core.Bool.{Bool}
use memory_leak_reloader.Base.Int.{ℤ, pos, ◌+ℤ◌, ◌-ℤ◌, ltb_ℤ, leb_ℤ, int_beq, add-neg}
use memory_leak_reloader.Base.Word.{
  saturate64, neg64, IsDuration, neg64-eq, leb-saturate64, ltb-saturate64,
}

abbrev pub Time : Type 0
Time = ℤ

abbrev pub Duration : Type 0
Duration = ℤ

abbrev pub zero_time : Time
zero_time = pos 0

abbrev pub is_zero : Time → Bool
is_zero t = int_beq t zero_time

-- t.Before(u), t.After(u).
abbrev pub before : Time → Time → Bool
before t u = ltb_ℤ t u

abbrev pub after : Time → Time → Bool
after t u = ltb_ℤ u t

-- t.Add(d).
unfoldable pub add : Time → Duration → Time
unfolding ◌+ℤ◌
add t d = t +ℤ d

-- t.Sub(u), which saturates.
unfoldable pub since : Time → Time → Duration
unfolding ◌-ℤ◌ saturate64
since t u = saturate64 (t -ℤ u)

abbrev pub second : ℕ
second = 1000000000

abbrev pub seconds : ℕ → Duration
seconds n = pos (n * second)

-- t.Add(-d).
unfoldable pub back : Time → Duration → Time
unfolding add neg64
back t d = add t (neg64 d)

pub back-eq : (t : Time) (d : Duration) → IsDuration d → back t d ≡ t -ℤ d
unfolding back add
back-eq t d h = rw (neg64-eq d h) (add-neg t d)

-- The comparisons of an age with a duration are those of the exact integers.
pub leb-since : (d : Duration) (t u : Time) → IsDuration d → leb_ℤ d (since t u) ≡ leb_ℤ d (t -ℤ u)
unfolding since
leb-since d t u h = leb-saturate64 d (t -ℤ u) h

pub ltb-since : (d : Duration) (t u : Time) → IsDuration d → ltb_ℤ (since t u) d ≡ ltb_ℤ (t -ℤ u) d
unfolding since
ltb-since d t u h = ltb-saturate64 d (t -ℤ u) h
