-- ===== src/Base/Word.antt =====
-- Go's int64: two's complement, so arithmetic wraps.
use Prim.Native.Nat.{ℕ, suc, ◌-◌, ◌/◌, ◌%◌, ◌≤◌, ◌<◌}
use mathlib.Core.Path.{◌≡◌}
use native.Mathlib.Omega.{arith}
use memory_leak_reloader.Base.Tests.{ltb, if◌then◌else◌}
use memory_leak_reloader.Base.Int.{
  sub_ℕ, ℤ, pos, negsuc, pos_part, neg_part, ◌+ℤ◌, ◌-ℤ◌, ◌*ℤ◌, ltb_ℤ, leb_ℤ, int_laws, parts_apart,
}

-- 2 ^ 63 and 2 ^ 64.
abbrev pub half_word : ℕ
half_word = 9223372036854775808

abbrev pub word : ℕ
word = 18446744073709551616

abbrev pub max_int64 : ℤ
max_int64 = pos 9223372036854775807

abbrev pub min_int64 : ℤ
min_int64 = negsuc 9223372036854775807

pub record IsInt64 (z : ℤ) : Type 0 where
  pub not_over : pos_part z < half_word
  pub not_under : neg_part z ≤ half_word

-- The bit pattern of an integer, and the int64 that has a given bit pattern.
unfoldable pub residue : ℤ → ℕ
residue (pos n) = n % word
residue (negsuc n) = word - 1 - n % word

unfoldable pub of_residue : ℕ → ℤ
of_residue r = if ltb r half_word then pos r else negsuc (word - 1 - r)

unfoldable pub wrap64 : ℤ → ℤ
unfolding residue of_residue
wrap64 z = of_residue (residue z)

-- -x, x + y, x - y and x * y of Go's int64.
unfoldable pub neg64 : ℤ → ℤ
unfolding wrap64 ◌-ℤ◌
neg64 z = wrap64 (pos 0 -ℤ z)

unfoldable pub add64 : ℤ → ℤ → ℤ
unfolding wrap64 ◌+ℤ◌
add64 a b = wrap64 (a +ℤ b)

unfoldable pub sub64 : ℤ → ℤ → ℤ
unfolding wrap64 ◌-ℤ◌
sub64 a b = wrap64 (a -ℤ b)

unfoldable pub mul64 : ℤ → ℤ → ℤ
unfolding wrap64 ◌*ℤ◌
mul64 a b = wrap64 (a *ℤ b)

-- Go's division of int64, which rounds towards zero; a divisor of 0 panics, and here gives what the
-- division of naturals does.
unfoldable pub quot64 : ℤ → ℤ → ℤ
unfolding wrap64 sub_ℕ
quot64 (pos a) (pos b) = pos (a / b)
quot64 (pos a) (negsuc b) = sub_ℕ 0 (a / suc b)
quot64 (negsuc a) (pos b) = sub_ℕ 0 (suc a / b)
quot64 (negsuc a) (negsuc b) = wrap64 (pos (suc a / suc b))

-- The nearest int64, which time.Time.Sub returns.
unfoldable pub saturate64 : ℤ → ℤ
unfolding pos_part neg_part
saturate64 z = if ltb_ℤ max_int64 z then max_int64 else if ltb_ℤ z min_int64 then min_int64 else z

-- An integer in range has itself for its int64.
pub wrap64-eq : (z : ℤ) → IsInt64 z → wrap64 z ≡ z
unfolding wrap64 pos_part neg_part
wrap64-eq (pos n) h = ground (arith, h.not_over)
wrap64-eq (negsuc n) h = ground (arith, h.not_under)

-- An int64 other than the least one: its negation does not wrap.
pub record IsDuration (d : ℤ) : Type 0 where
  pub not_over : pos_part d < half_word
  pub not_under : neg_part d < half_word

neg_IsInt64 : (z : ℤ) → IsDuration z → IsInt64 (pos 0 -ℤ z)
neg_IsInt64 z h = record {
  not_over = omega (int_laws, parts_apart z, parts_apart (pos 0 -ℤ z));
  not_under = omega (int_laws, parts_apart z, parts_apart (pos 0 -ℤ z));
}

pub neg64-eq : (z : ℤ) → IsDuration z → neg64 z ≡ pos 0 -ℤ z
unfolding neg64
neg64-eq z h = wrap64-eq (pos 0 -ℤ z) (neg_IsInt64 z h)

pub add64-eq : (a b : ℤ) → IsInt64 (a +ℤ b) → add64 a b ≡ a +ℤ b
unfolding add64
add64-eq a b h = wrap64-eq (a +ℤ b) h

pub sub64-eq : (a b : ℤ) → IsInt64 (a -ℤ b) → sub64 a b ≡ a -ℤ b
unfolding sub64
sub64-eq a b h = wrap64-eq (a -ℤ b) h

pub mul64-eq : (a b : ℤ) → IsInt64 (a *ℤ b) → mul64 a b ≡ a *ℤ b
unfolding mul64
mul64-eq a b h = wrap64-eq (a *ℤ b) h

-- Saturation keeps the comparisons with such a number.
pub leb-saturate64 : (d z : ℤ) → IsDuration d → leb_ℤ d (saturate64 z) ≡ leb_ℤ d z
unfolding saturate64
leb-saturate64 d z h = ground (arith, parts_apart d, parts_apart z)

pub ltb-saturate64 : (d z : ℤ) → IsDuration d → ltb_ℤ (saturate64 z) d ≡ ltb_ℤ z d
unfolding saturate64
ltb-saturate64 d z h = ground (arith, parts_apart d, parts_apart z)
