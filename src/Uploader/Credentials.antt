-- ===== src/Uploader/Credentials.antt =====
-- `RotateCredentials`: the only way out of a blocked authentication.
use ppflight_agent.Prelude.{
  ℕ, ◌<◌, ◌≡◌, ◌≢◌, refl, false, not, ◌||◌, List, arith, leb, ◌==◌, Bool-cases, inl, inr,
  if◌then◌else◌,
}
use ppflight_agent.Prelude.Exec.{Result, ok, err}
use ppflight_agent.Uploader.Types.{AuthMode, hmac, bearer, no_auth, Destination, Uploader}
use ppflight_agent.Uploader.Response.{is_empty, trim}

pub data RotationError : Type 0 where
  not_advanced invalid_hmac invalid_bearer not_rotatable : RotationError

abbrev install : ℕ → Destination → Uploader → Uploader
install epoch d u = record u {
  destination = record d { credential_epoch = epoch };
  auth_blocked = false;
}

rotate_mode :
    AuthMode → ℕ → List ℕ → List ℕ → List ℕ → Uploader → Result RotationError Unit × Uploader
rotate_mode hmac epoch key_id secret bearer_token u =
    if is_empty (trim key_id) || is_empty secret || not (is_empty bearer_token)
    then (err invalid_hmac, u)
    else (ok tt, install epoch (record u.destination { key_id = key_id; secret = secret }) u)
rotate_mode bearer epoch key_id secret bearer_token u =
    if is_empty (trim bearer_token) || not (is_empty key_id) || not (is_empty secret)
    then (err invalid_bearer, u)
    else (ok tt, install epoch (record u.destination { bearer_token = bearer_token }) u)
rotate_mode no_auth epoch key_id secret bearer_token u = (err not_rotatable, u)

-- `RotateCredentials`
unfoldable pub rotate :
    ℕ → List ℕ → List ℕ → List ℕ → Uploader → Result RotationError Unit × Uploader
unfolding rotate_mode
rotate epoch key_id secret bearer_token u =
    if epoch == 0 || leb epoch u.destination.credential_epoch
    then (err not_advanced, u)
    else rotate_mode u.destination.auth_mode epoch key_id secret bearer_token u

-- What a rotation did, by its result.
abbrev pub Rotated : ℕ → Uploader → Result RotationError Unit → Uploader → Type 0
Rotated epoch u (err e) u' = u' ≡ u
Rotated epoch u (ok _) u' =
    (u.destination.credential_epoch < epoch)
    × (u'.destination.credential_epoch ≡ epoch)
    × (u'.auth_blocked ≡ false)
    × (u'.destination.id ≡ u.destination.id)
    × (u'.destination.endpoint ≡ u.destination.endpoint)
    × (u'.destination.auth_mode ≡ u.destination.auth_mode)
    × (u.destination.auth_mode ≢ no_auth)

rotate_mode-Rotated :
    (m : AuthMode) (epoch : ℕ) (k s b : List ℕ) (u : Uploader)
    → u.destination.auth_mode ≡ m
    → u.destination.credential_epoch < epoch
    → Rotated epoch u (rotate_mode m epoch k s b u).0 (rotate_mode m epoch k s b u).1
unfolding rotate_mode
rotate_mode-Rotated hmac epoch k s b u e l =
    elim (Bool-cases (is_empty (trim k) || is_empty s || not (is_empty b))) [
      | inl c ↦ rw c
      | inr c ↦ rw c (l, refl, refl, refl, refl, refl, λ p. cc)
    ]
rotate_mode-Rotated bearer epoch k s b u e l =
    elim (Bool-cases (is_empty (trim b) || not (is_empty k) || not (is_empty s))) [
      | inl c ↦ rw c
      | inr c ↦ rw c (l, refl, refl, refl, refl, refl, λ p. cc)
    ]
rotate_mode-Rotated no_auth epoch k s b u e l = refl

-- A rotation that is refused changes nothing; one that succeeds has a credential epoch above the old
-- one, installs it, unblocks the authentication, and keeps the destination's identity, endpoint and
-- authentication mode, which is not the unauthenticated one.
pub rotate-Rotated :
    (epoch : ℕ) (k s b : List ℕ) (u : Uploader)
    → Rotated epoch u (rotate epoch k s b u).0 (rotate epoch k s b u).1
unfolding rotate
rotate-Rotated epoch k s b u =
    elim (Bool-cases (epoch == 0 || leb epoch u.destination.credential_epoch)) [
      | inl c ↦ rw c
      | inr c ↦ rw c (rotate_mode-Rotated u.destination.auth_mode epoch k s b u refl (ground arith))
    ]
