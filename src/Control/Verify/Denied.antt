-- ===== src/Control/Verify/Denied.antt =====
-- What `Verify` of internal/control/types.go has checked before it denies a command by policy.
use ppflight_agent.Control.Verify.Logic.{also-some, refuse-not-none}
use ppflight_agent.Prelude.{◌≡◌, ◌≢◌, Bool, true, false, not, inl, inr, Option, none, some, arith}
use ppflight_agent.Control.Checks.{body_hash_invalid}
use ppflight_agent.Control.Command.{Command}
use ppflight_agent.Control.Verify.{
  verify_ed25519, verify_hmac, verify_signature, policy, denied_policy, hash_matches, verify,
}
use ppflight_agent.Control.Checks.{Reason, denied, VerifyConfig, Primitives, refuse}

module _ (x : Primitives) (c : Command) (cfg : VerifyConfig) where
  refuse-undenied : (b : Bool) (r : Reason) → refuse b body_hash_invalid ≢ some (denied r)
  refuse-undenied true r h = absurd (cc)
  refuse-undenied false r h = absurd (cc)

  denied_policy-some :
      (o : Option Reason) (r : Reason) → denied_policy x c cfg o ≡ some (denied r) → o ≡ some r
  denied_policy-some none r h = absurd (cc)
  denied_policy-some (some q) r h = cc

  signature-undenied :
      (r : Reason) → verify_signature x c cfg ≡ some (denied r) → verify_signature x c cfg ≡ none
  unfolding verify_signature verify_ed25519 verify_hmac
  signature-undenied r h = ground arith

  -- A command that `Verify` refuses with an error of the policy, whose denial may be audited, has the hash
  -- of its parameters and passed the check of its signature.
  pub verify-denied :
      (r : Reason)
      → verify x c cfg ≡ some (denied r)
      → (hash_matches x c cfg ≡ true)
        × (verify_signature x c cfg ≡ none)
        × (policy x c cfg ≡ some r)
  unfolding verify
  verify-denied r h = elim (also-some _ _ _ h) [
    | inl k ↦ absurd (refuse-undenied (not (hash_matches x c cfg)) r k)
    | inr k ↦ elim (also-some _ _ _ k.1) [
      | inl m ↦ absurd (cc (signature-undenied r m))
      | inr m ↦ (refuse-not-none _ _ k.0, m.0, denied_policy-some (policy x c cfg) r m.1)
    ]
  ]
