-- ===== src/Uploader.antt =====
-- internal/uploader/uploader.go: the delivery of one signed batch, with its retry state left in the
-- queue. The queue is the Go interface `Queue`, a record of its four calls over a type of states.
-- What the process asks of the outside is the record `Outside`: gzip, the request, its signature and
-- the answer. Durations and instants are nanoseconds, texts are code points; `jitter` is injected as
-- in the code, its negative results, which `retry` raises to 0, being 0.
pub mod Types
pub mod Response
pub mod Backoff
pub mod Credentials
pub mod Timing
pub mod Verdicts
pub mod Refusals
mod Tests
use ppflight_agent.Prelude.{
  ℕ, zero, suc, ◌+◌, ◌-◌, ◌*◌, ◌%◌, ◌^◌, ◌/◌, String, Bool, true, false, not, ◌&&◌, ◌||◌, Option,
  none, some, List, [], ◌∷◌, ltb, leb, ◌==◌, if◌then◌else◌, length,
}
use ppflight_agent.Prelude.Text.{codes}
use ppflight_agent.Prelude.Exec.{Result, ok, err}
use ppflight_agent.Store.Types.{Item}
use ppflight_agent.Uploader.Types.{
  AuthMode, hmac, bearer, no_auth, Destination, Uploader, QueueApi, Outside, Exchange,
  transport_failed, answered, Answer, RetryAfter, blank, seconds, date, unreadable, Cause, Outcome,
  auth_blocked_cause, queue_failed, rejected,
}
use ppflight_agent.Uploader.Response.{
  ApiResponse, parse_api_response, machine_code, message, equal_fold, duplicate_code,
}

-- `http.StatusRequestTimeout`, `StatusTooEarly`, `StatusTooManyRequests`, and 5xx and above
unfoldable pub is_retryable : ℕ → Bool
is_retryable status = status == 408 || status == 425 || status == 429 || leb 500 status

-- The loop of `backoff`, on the rounds that `i < attempt` leaves.
unfoldable pub backoff_from : ℕ → ℕ → ℕ → ℕ
backoff_from zero delay maximum = if ltb maximum delay then maximum else delay
backoff_from (suc rounds) delay maximum =
    let rest = backoff_from rounds (delay * 2) maximum in
    if ltb delay maximum
    then if ltb (maximum / 2) delay then maximum else rest
    else if ltb maximum delay
    then maximum
    else delay

-- `backoff`: an attempt below 1 counts as 1.
unfoldable pub backoff : ℕ → ℕ → ℕ → ℕ
unfolding backoff_from
backoff attempt base maximum = backoff_from (attempt - 1) base maximum

abbrev pub second : ℕ
second = 1000000000

-- `now.Add(time.Duration(n) * time.Second)`, the product being an int64 that wraps.
unfoldable pub add_seconds : ℕ → ℕ → ℕ
add_seconds now n =
    let d = (n * second) % 2 ^ 64 in if ltb d (2 ^ 63) then now + d else now - (2 ^ 64 - d)

-- `retryAfterAt`; the zero time is 0.
unfoldable pub retry_after_at : RetryAfter → ℕ → ℕ
retry_after_at blank now = 0
retry_after_at (seconds n) now = add_seconds now n
retry_after_at (date t) now = t
retry_after_at unreadable now = 0

abbrev pub pending : Item → Outcome
pending item = record {
  delivered = false;
  pending = true;
  batch_id = some item.batch_id;
  status_code = 0;
  retry_at = 0;
  auth_blocked = false;
  cause = none;
}

-- `Result{}`
abbrev pub idle : Outcome
idle = record {
  delivered = false;
  pending = false;
  batch_id = none;
  status_code = 0;
  retry_at = 0;
  auth_blocked = false;
  cause = none;
}

-- The instant of the next attempt, as `retry` computes it.
unfoldable pub next_attempt : (ℕ → ℕ) → Uploader → ℕ → Item → ℕ → Bool → ℕ
next_attempt jitter u now item retry_after tls_failure =
    let delay = jitter (backoff (item.attempts + 1) u.base_delay u.max_delay) in
    let waited = now + (if tls_failure && ltb delay u.tls_delay then u.tls_delay else delay) in
    if ltb waited retry_after then retry_after else waited

abbrev pub uncompressed_too_large : List ℕ
uncompressed_too_large = codes "PAYLOAD_UNCOMPRESSED_TOO_LARGE"

abbrev pub compressed_too_large : List ℕ
compressed_too_large = codes "PAYLOAD_COMPRESSED_TOO_LARGE"

-- `encodePayload`
unfoldable pub encode_payload : Outside → Bool → List ℕ → Result (List ℕ) (List ℕ)
encode_payload out compressed payload = if compressed then out.gzip payload else ok payload

abbrev pub unchanged : {W : Type 0} → Uploader → Outcome × W → Outcome × Uploader × W
unchanged u o = (o.0, u, o.1)

-- The result of a queue call, which succeeded or failed.
unfoldable pub settled : {E : Type 0} → Result E Unit → Outcome → Outcome → Outcome
settled (ok u) good bad = good
settled (err e) good bad = bad

module _ {W : Type 0} (q : QueueApi W) (jitter : ℕ → ℕ) where
  unfoldable pub quarantine : Item → Outcome → List ℕ → W → Outcome × W
  quarantine item result reason w =
      let (r, w') = q.quarantine item.batch_id reason w in
      (
        settled r (record result { pending = false; cause = some (rejected reason) })
            (record result { cause = some (queue_failed reason) }),
        w',
      )

  unfoldable pub retry : Uploader → ℕ → Item → Outcome → ℕ → List ℕ → ℕ → Bool → W → Outcome × W
  retry u now item result status reason retry_after tls_failure w =
      let at = next_attempt jitter u now item retry_after tls_failure in
      let (r, w') = q.nack item.batch_id at reason w in
      (
        settled r
            (record result { status_code = status; retry_at = at; cause = some (rejected reason) })
            (record result { cause = some (queue_failed reason) }),
        w',
      )

  unfoldable pub acknowledge : Item → Outcome → W → Outcome × W
  acknowledge item result w =
      let (r, w') = q.ack item.batch_id w in
      (
        settled r (record result { delivered = true; pending = false })
            (record result { cause = some (queue_failed []) }),
        w',
      )

  module _ (fold : ℕ → ℕ) (decode : List ℕ → Result (List ℕ) ApiResponse) where
    abbrev pub is_duplicate : Answer → ApiResponse → Bool
    is_duplicate a response =
        a.status == 409 && equal_fold fold (machine_code fold response) duplicate_code

    unfoldable pub judge_parsed :
        Uploader → ℕ → Item → Outcome → Answer → Result (List ℕ) ApiResponse → W → Outcome × W
    judge_parsed u now item result a (err reason) w =
        if is_retryable a.status
        then retry u now item result a.status reason (retry_after_at a.retry_after now) false w
        else quarantine item result reason w
    judge_parsed u now item result a (ok response) w =
        if is_duplicate a response
        then acknowledge item result w
        else if is_retryable a.status
        then retry u now item result a.status (message response a.status)
            (retry_after_at a.retry_after now) false w
        else quarantine item result (message response a.status) w

    -- The rest of `DeliverOne` for an answer that is neither a refusal of the credentials nor 2xx.
    unfoldable pub judge : Uploader → ℕ → Item → Outcome → Answer → W → Outcome × W
    judge u now item result a w =
        judge_parsed u now item result a (parse_api_response decode u.max_response_bytes a.body) w

    abbrev pub received : Item → Answer → Outcome
    received item a = record (pending item) { status_code = a.status }

    abbrev pub is_refusal : ℕ → Bool
    is_refusal status = status == 401 || status == 403

    abbrev pub is_success : ℕ → Bool
    is_success status = leb 200 status && ltb status 300

    unfoldable pub receive : Uploader → ℕ → Item → Answer → W → Outcome × Uploader × W
    receive u now item a w =
        if is_refusal a.status
        then (
          record (received item a) { auth_blocked = true; cause = some auth_blocked_cause },
          record u { auth_blocked = true },
          w,
        )
        else if is_success a.status
        then unchanged u (acknowledge item (received item a) w)
        else unchanged u (judge u now item (received item a) a w)

    unfoldable pub send_prepared : Uploader → ℕ → Item → Exchange → W → Outcome × Uploader × W
    send_prepared u now item (transport_failed reason tls) w =
        unchanged u (retry u now item (pending item) 0 reason 0 tls w)
    send_prepared u now item (answered a) w = receive u now item a w

    unfoldable pub prepare :
        Uploader → ℕ → Item → Option (List ℕ) → Exchange → W → Outcome × Uploader × W
    prepare u now item (some reason) x w =
        unchanged u (retry u now item (pending item) 0 reason 0 false w)
    prepare u now item none x w = send_prepared u now item x w

    -- From the encoded payload on: the request is built, signed and sent.
    unfoldable pub send :
        Uploader → ℕ → Item → Outside → Result (List ℕ) (List ℕ) → W → Outcome × Uploader × W
    send u now item out (err reason) w =
        unchanged u (retry u now item (pending item) 0 reason 0 false w)
    send u now item out (ok payload) w =
        if ltb u.max_compressed_bytes (length payload)
        then unchanged u (quarantine item (pending item) compressed_too_large w)
        else prepare u now item out.prepare (out.exchange payload) w

    unfoldable pub deliver_item : Uploader → ℕ → Outside → Option Item → W → Outcome × Uploader × W
    deliver_item u now out none w = (idle, u, w)
    deliver_item u now out (some item) w =
        if u.auth_blocked
        then (record (pending item) { auth_blocked = true; cause = some auth_blocked_cause }, u, w)
        else if ltb u.max_uncompressed_bytes (length item.payload)
        then unchanged u (quarantine item (pending item) uncompressed_too_large w)
        else send u now item out (encode_payload out u.destination.compressed item.payload) w

    -- `DeliverOne`
    unfoldable pub deliver_one : Uploader → ℕ → Outside → W → Outcome × Uploader × W
    deliver_one u now out w = deliver_item u now out (q.next now w) w
