-- ===== src/Platform/Time.antt =====
-- The clock of the platform.
use Prim.Native.Nat.{zero}
use troofai_mvp.Prelude.{ℕ, suc, ◌≤◌, ◌+◌, ◌-◌, ◌≡◌, arith}
use troofai_mvp.Platform.{Platform}

module _ (p : Platform) where
  clock-add : (n k : ℕ) → p.clock n ≤ p.clock (k + n)
  clock-add n zero = let e : zero + n ≡ n = omega arith in rw e (omega arith)
  clock-add n (suc k) =
      let e : suc k + n ≡ suc (k + n) = omega arith in
      rw e (omega (arith, clock-add n k, p.clock_forward (k + n)))

  pub clock_mono : (m n : ℕ) → m ≤ n → p.clock m ≤ p.clock n
  clock_mono m n h = let e : n ≡ n - m + m = omega arith in rw e (clock-add m (n - m))
