-- ===== src/Uploader/Types.antt =====
-- The data of internal/uploader/uploader.go.
use ppflight_agent.Prelude.{ℕ, String, Bool, Option, List}
use ppflight_agent.Prelude.Exec.{Result, Exec}
use ppflight_agent.Store.Types.{Item}

pub data AuthMode : Type 0 where
  hmac bearer no_auth : AuthMode

pub record Destination : Type 0 where
  pub id : String
  pub endpoint : String
  pub auth_mode : AuthMode
  pub key_id : List ℕ
  pub secret : List ℕ
  pub bearer_token : List ℕ
  pub credential_epoch : ℕ  -- uint64
  pub compressed : Bool  -- "gzip", and not "none"

-- The fields of the Go struct that are not interfaces or clocks.
pub record Uploader : Type 0 where
  pub destination : Destination
  pub auth_blocked : Bool
  pub max_response_bytes : ℕ
  pub max_compressed_bytes : ℕ
  pub max_uncompressed_bytes : ℕ
  pub base_delay : ℕ
  pub max_delay : ℕ
  pub tls_delay : ℕ

-- The interface `Queue`, over the states `W` of what implements it.
pub record QueueApi (W : Type 0) : Type 1 where
  pub Error : Type 0
  pub next : ℕ → W → Option Item
  pub ack : String → Exec W Error Unit
  pub nack : String → ℕ → List ℕ → Exec W Error Unit
  pub quarantine : String → List ℕ → Exec W Error Unit

-- The header `Retry-After`, trimmed: absent, seconds, a date, or neither.
pub data RetryAfter : Type 0 where
  blank : RetryAfter
  seconds : ℕ → RetryAfter
  date : ℕ → RetryAfter
  unreadable : RetryAfter

-- A response; a body that cannot be read is the error's text.
pub record Answer : Type 0 where
  pub status : ℕ
  pub retry_after : RetryAfter
  pub body : Result (List ℕ) (List ℕ)

pub data Exchange : Type 0 where
  -- The error's text, and whether it is a TLS failure.
  transport_failed : List ℕ → Bool → Exchange
  answered : Answer → Exchange

-- What one delivery meets: gzip, the text of a failure to build or sign the request, and the
-- exchange for the bytes that are sent.
pub record Outside : Type 0 where
  pub gzip : List ℕ → Result (List ℕ) (List ℕ)
  pub prepare : Option (List ℕ)
  pub exchange : List ℕ → Exchange

pub data Cause : Type 0 where
  auth_blocked_cause : Cause
  rejected : List ℕ → Cause
  queue_failed : List ℕ → Cause

-- The struct `Result`.
pub record Outcome : Type 0 where
  pub delivered : Bool
  pub pending : Bool
  pub batch_id : Option String
  pub status_code : ℕ
  pub retry_at : ℕ
  pub auth_blocked : Bool
  pub cause : Option Cause
