-- ===== src/Examples/Reports.antt =====
-- Reports of the small hub, with numbers that are rounded down.
use native.Mathlib.Nat.{mul-le-mul_right}
use troofai_mvp.Prelude.{ℕ, ◌≤◌, ◌*◌, ◌≡◌, refl, some, arith, ltb, if◌then◌else◌}
use troofai_mvp.Stats.{Doubles, get_stats}
use troofai_mvp.Stats.Rate.{get_stats_unscoped}
use troofai_mvp.Memory.{memory}
use troofai_mvp.Examples.{hub}

whole : Doubles
whole = record {
  Double = ℕ;
  of_ℕ = λ n. n;
  divide = λ a b. if ltb a b then 0 else 1;
  multiply = λ a b. a * b;
  round = λ n. n;
  Le = λ a b. a ≤ b;
  divide-Le = λ a b h k. ground arith;
  divide_self = λ b h. ground arith;
  divide_zero = λ b h. ground arith;
  multiply_mono = λ x y z h. mul-le-mul_right z h;
  multiply_one = λ n. omega arith;
  multiply_zero = λ n. omega arith;
  round_mono = λ x y h. h;
  round-of_ℕ = λ n. refl;
}

get_stats_unscoped_example :
    let r = get_stats memory whole (some "acme") hub in
    let s = get_stats memory whole (some "other") hub in
    (r.participants_total ≡ s.participants_total)
    × (r.participants_verified ≡ s.participants_verified)
    × (r.participants_failed ≡ s.participants_failed)
    × (r.verified_rate ≡ s.verified_rate)
    × (r.threats_detected ≡ s.threats_detected)
get_stats_unscoped_example = get_stats_unscoped memory whole (some "acme") (some "other") hub
