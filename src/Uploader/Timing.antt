-- ===== src/Uploader/Timing.antt =====
-- When a failed batch is tried again.
use ppflight_agent.Prelude.{ℕ, ◌+◌, ◌≤◌, ◌≡◌, Bool, true, false, arith}
use ppflight_agent.Store.Types.{Item}
use ppflight_agent.Uploader.Types.{Uploader}
use ppflight_agent.Uploader.Backoff.{backoff_lem}
use ppflight_agent.Uploader.{backoff, next_attempt}

backoff_le : (attempt base maximum : ℕ) → backoff attempt base maximum ≤ maximum
backoff_le attempt base maximum = omega (arith, backoff_lem attempt base maximum)

-- With a jitter that shortens delays, the next attempt is not before now, not before the instant
-- that the server asked for, not before the TLS delay has passed after a TLS failure, and, where the
-- server asked for nothing later and TLS did not fail, not after the maximal delay.
pub next_attempt_bounds :
    (jitter : ℕ → ℕ) (u : Uploader) (now : ℕ) (item : Item) (retry_after : ℕ) (tls_failure : Bool)
    → ((d : ℕ) → jitter d ≤ d)
    → let at = next_attempt jitter u now item retry_after tls_failure in
      (now ≤ at)
      × (retry_after ≤ at)
      × (tls_failure ≡ true → now + u.tls_delay ≤ at)
      × (tls_failure ≡ false → retry_after ≤ now → at ≤ now + u.max_delay)
unfolding next_attempt
next_attempt_bounds jitter u now item retry_after tls_failure short =
    let b : ℕ = backoff (item.attempts + 1) u.base_delay u.max_delay in
    let low : b ≤ u.max_delay = backoff_le (item.attempts + 1) u.base_delay u.max_delay in
    let cut : jitter b ≤ b = short b in
    (ground arith, ground arith, λ t. ground arith, λ t r. ground arith)
