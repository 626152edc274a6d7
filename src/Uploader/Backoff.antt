-- ===== src/Uploader/Backoff.antt =====
-- The delay before a retry, in closed form.
use Prim.Native.Nat.{min}
use native.Mathlib.Nat.{pow-suc}
use ppflight_agent.Prelude.{ℕ, zero, suc, ◌-◌, ◌*◌, ◌^◌, ◌≤◌, ◌<◌, ◌≡◌, arith}
use ppflight_agent.Uploader.{backoff_from, backoff}

pow_pos : (r : ℕ) → 0 < 2 ^ r
pow_pos zero = omega arith
pow_pos (suc r) = rw pow-suc (omega (arith, pow_pos r))

doubled : (d r : ℕ) → d * 2 ^ suc r ≡ d * 2 * 2 ^ r
doubled d r = rw pow-suc (grind arith)

at_least : (d r : ℕ) → d * 2 ≤ d * 2 ^ suc r
at_least d r = rw doubled (grind (arith, pow_pos r))

backoff_from_lem :
    (rounds delay maximum : ℕ)
    → backoff_from rounds delay maximum ≡ min (delay * 2 ^ rounds) maximum
unfolding backoff_from
backoff_from_lem zero d m = ground arith
backoff_from_lem (suc r) d m =
    ground (arith, backoff_from_lem r (d * 2) m, doubled d r, at_least d r)

-- The delay before an attempt doubles from the base delay with each attempt after the first, and
-- stops at the maximum.
pub backoff_lem :
    (attempt base maximum : ℕ)
    → backoff attempt base maximum ≡ min (base * 2 ^ (attempt - 1)) maximum
unfolding backoff
backoff_lem attempt base maximum = backoff_from_lem (attempt - 1) base maximum
