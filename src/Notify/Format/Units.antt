-- ===== src/Notify/Format/Units.antt =====
-- The unit that humanizeBytes picks (internal/notify/slack_blocks.go).
use memory_leak_reloader.Base.{
  ℕ, zero, suc, ◌+◌, ◌*◌, ◌/◌, ◌<◌, ◌≤◌, ◌≡◌, refl, arith, leb, Bool-cases, inl, inr,
}
use memory_leak_reloader.Base.Int.{pos, ◌*ℤ◌, sub_ℕ, pos_part, neg_part}
use memory_leak_reloader.Base.Word.{mul64, wrap64, residue, of_residue}
use memory_leak_reloader.Notify.Format.{Scale, scale_from, scale}

-- The unit of an exponent, in bytes.
unfoldable pub unit_size : ℕ → ℕ
unit_size zero = 1024
unit_size (suc e) = 1024 * unit_size e

-- The unit of the largest power that is not above a size.
pub record IsUnit (n : ℕ) (s : Scale) : Type 0 where
  pub in_range : s.exponent < 6
  pub exact : s.divisor ≡ pos (unit_size s.exponent)
  pub at_least : unit_size s.exponent ≤ n
  pub below : n < 1024 * unit_size s.exponent

-- A round that ends the loop, or one that leads to the next unit.
round-IsUnit :
    (n d e r : ℕ)
    → e < 6
    → unit_size e ≡ d
    → d ≤ n
    → (n / d < 1024 → n < 1024 * d)
    → (1024 ≤ n / d → IsUnit n (scale_from r (n / d / 1024) (mul64 (pos d) (pos 1024)) (e + 1)))
    → IsUnit n (scale_from (suc r) (n / d) (pos d) e)
unfolding scale_from
round-IsUnit n d e r small size enough ends goes = elim (Bool-cases (leb 1024 (n / d))) [
  | inl large ↦ rw large (goes (ground arith))
  | inr here ↦ rw here (record {
    in_range = small;
    exact = rw size refl;
    at_least = rw size enough;
    below = rw size (ends (ground arith));
  })
]

level5-IsUnit :
    (n r : ℕ)
    → n < 9223372036854775808
    → 1152921504606846976 ≤ n
    → IsUnit n (scale_from (suc r) (n / 1152921504606846976) (pos 1152921504606846976) 5)
unfolding unit_size mul64 wrap64 residue of_residue ◌*ℤ◌ sub_ℕ pos_part neg_part
level5-IsUnit n r small enough =
    round-IsUnit n 1152921504606846976 5 r (omega arith) refl enough (λ h. omega arith)
      (λ h. absurd (omega arith))

level4-IsUnit :
    (n r : ℕ)
    → n < 9223372036854775808
    → 1125899906842624 ≤ n
    → IsUnit n (scale_from (suc (suc r)) (n / 1125899906842624) (pos 1125899906842624) 4)
unfolding unit_size mul64 wrap64 residue of_residue ◌*ℤ◌ sub_ℕ pos_part neg_part
level4-IsUnit n r small enough =
    let next : mul64 (pos 1125899906842624) (pos 1024) ≡ pos 1152921504606846976 = refl in
    let div : n / 1125899906842624 / 1024 ≡ n / 1152921504606846976 = omega arith in
    round-IsUnit n 1125899906842624 4 (suc r) (omega arith) refl enough (λ h. omega arith)
      (λ h. rw (next, div) (level5-IsUnit n r small (omega arith)))

level3-IsUnit :
    (n r : ℕ)
    → n < 9223372036854775808
    → 1099511627776 ≤ n
    → IsUnit n (scale_from (suc (suc (suc r))) (n / 1099511627776) (pos 1099511627776) 3)
unfolding unit_size mul64 wrap64 residue of_residue ◌*ℤ◌ sub_ℕ pos_part neg_part
level3-IsUnit n r small enough =
    let next : mul64 (pos 1099511627776) (pos 1024) ≡ pos 1125899906842624 = refl in
    let div : n / 1099511627776 / 1024 ≡ n / 1125899906842624 = omega arith in
    round-IsUnit n 1099511627776 3 (suc (suc r)) (omega arith) refl enough (λ h. omega arith)
      (λ h. rw (next, div) (level4-IsUnit n r small (omega arith)))

level2-IsUnit :
    (n r : ℕ)
    → n < 9223372036854775808
    → 1073741824 ≤ n
    → IsUnit n (scale_from (suc (suc (suc (suc r)))) (n / 1073741824) (pos 1073741824) 2)
unfolding unit_size mul64 wrap64 residue of_residue ◌*ℤ◌ sub_ℕ pos_part neg_part
level2-IsUnit n r small enough =
    let next : mul64 (pos 1073741824) (pos 1024) ≡ pos 1099511627776 = refl in
    let div : n / 1073741824 / 1024 ≡ n / 1099511627776 = omega arith in
    round-IsUnit n 1073741824 2 (suc (suc (suc r))) (omega arith) refl enough (λ h. omega arith)
      (λ h. rw (next, div) (level3-IsUnit n r small (omega arith)))

level1-IsUnit :
    (n r : ℕ)
    → n < 9223372036854775808
    → 1048576 ≤ n
    → IsUnit n (scale_from (suc (suc (suc (suc (suc r))))) (n / 1048576) (pos 1048576) 1)
unfolding unit_size mul64 wrap64 residue of_residue ◌*ℤ◌ sub_ℕ pos_part neg_part
level1-IsUnit n r small enough =
    let next : mul64 (pos 1048576) (pos 1024) ≡ pos 1073741824 = refl in
    let div : n / 1048576 / 1024 ≡ n / 1073741824 = omega arith in
    round-IsUnit n 1048576 1 (suc (suc (suc (suc r)))) (omega arith) refl enough (λ h. omega arith)
      (λ h. rw (next, div) (level2-IsUnit n r small (omega arith)))

level0-IsUnit :
    (n r : ℕ)
    → n < 9223372036854775808
    → 1024 ≤ n
    → IsUnit n (scale_from (suc (suc (suc (suc (suc (suc r)))))) (n / 1024) (pos 1024) 0)
unfolding unit_size mul64 wrap64 residue of_residue ◌*ℤ◌ sub_ℕ pos_part neg_part
level0-IsUnit n r small enough =
    let next : mul64 (pos 1024) (pos 1024) ≡ pos 1048576 = refl in
    let div : n / 1024 / 1024 ≡ n / 1048576 = omega arith in
    round-IsUnit n 1024 0 (suc (suc (suc (suc (suc r))))) (omega arith) refl enough
      (λ h. omega arith) (λ h. rw (next, div) (level1-IsUnit n r small (omega arith)))

-- For every int64 size of 1024 bytes or more, the loop ends at a letter of the units, with a divisor
-- that has not overflowed and is the size of that unit; at least one and fewer than 1024 of them make
-- up the size.
pub scale-IsUnit : (n : ℕ) → n < 9223372036854775808 → 1024 ≤ n → IsUnit n (scale n)
unfolding scale
scale-IsUnit n small enough = level0-IsUnit n 57 small enough
