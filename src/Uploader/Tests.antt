-- ===== src/Uploader/Tests.antt =====
-- The theorems on the uploader at a queue of one batch.
use ppflight_agent.Prelude.{
  ℕ, ◌≡◌, refl, ◌≤◌, true, false, none, some, Option, List, [], ◌∷◌, ◌-◌, ◌*◌, ◌^◌, arith,
}
use Prim.Native.Nat.{min}
use ppflight_agent.Prelude.Text.{codes}
use ppflight_agent.Prelude.Exec.{Result, ok}
use ppflight_agent.Store.Types.{Item}
use ppflight_agent.Uploader.Types.{hmac, Destination, Uploader, QueueApi, Outside, answered, blank}
use ppflight_agent.Uploader.Response.{
  ApiResponse, empty_response, parse_api_response, machine_code, equal_fold, same_text, trim,
  trim_left,
}
use ppflight_agent.Uploader.Backoff.{backoff_lem}
use ppflight_agent.Uploader.Credentials.{rotate, Rotated, rotate-Rotated}
use ppflight_agent.Uploader.Timing.{next_attempt_bounds}
use ppflight_agent.Uploader.Refusals.{Untouched, deliver_one-Untouched}
use ppflight_agent.Uploader.{
  backoff, next_attempt, deliver_one, deliver_item, send, prepare, send_prepared, receive, judge,
  judge_parsed, acknowledge, settled, encode_payload,
}

abbrev batch : Item
batch = record {
  sequence = 1;
  batch_id = "a";
  payload = 1 ∷ 2 ∷ [];
  created_at = 0;
  attempts = 0;
  next_attempt = 0;
  last_error = [];
}

-- A queue whose state is the batch that is left in it.
abbrev one_batch : QueueApi (Option Item)
one_batch = record {
  Error = Unit;
  next = λ now w. w;
  ack = λ id w. (ok tt, none);
  nack = λ id at reason w. (ok tt, w);
  quarantine = λ id reason w. (ok tt, none);
}

abbrev site : Destination
site = record {
  id = "site";
  endpoint = "https://site.example/batches";
  auth_mode = hmac;
  key_id = codes "k1";
  secret = codes "s";
  bearer_token = [];
  credential_epoch = 4;
  compressed = false;
}

abbrev sender : Uploader
sender = record {
  destination = site;
  auth_blocked = false;
  max_response_bytes = 100;
  max_compressed_bytes = 100;
  max_uncompressed_bytes = 100;
  base_delay = 5;
  max_delay = 60;
  tls_delay = 30;
}

abbrev plain : ℕ → ℕ
plain n = n

-- Every body reads as the code of a duplicate.
abbrev says_duplicate : List ℕ → Result (List ℕ) ApiResponse
says_duplicate raw = ok (record empty_response { code = codes "DUPLICATE" })

abbrev conflict : Outside
conflict = record {
  gzip = λ payload. ok payload;
  prepare = none;
  exchange =
      λ payload. answered (record { status = 409; retry_after = blank; body = ok (123 ∷ []) });
}

backoff_lem_example : backoff 3 5 60 ≡ min (5 * 2 ^ (3 - 1)) 60
backoff_lem_example = backoff_lem 3 5 60

rotate-Rotated_example :
    Rotated 5 sender
      (rotate 5 (codes "k2") (codes "t") [] sender).0
      (rotate 5 (codes "k2") (codes "t") [] sender).1
rotate-Rotated_example = rotate-Rotated 5 (codes "k2") (codes "t") [] sender

plain_shortens : (d : ℕ) → plain d ≤ d
plain_shortens d = omega arith

next_attempt_bounds_example :
    (7 ≤ next_attempt plain sender 7 batch 50 true)
    × (50 ≤ next_attempt plain sender 7 batch 50 true)
    × (true ≡ true → 37 ≤ next_attempt plain sender 7 batch 50 true)
    × (true ≡ false → 50 ≤ 7 → next_attempt plain sender 7 batch 50 true ≤ 67)
next_attempt_bounds_example = next_attempt_bounds plain sender 7 batch 50 true plain_shortens

abbrev refused : Outside
refused = record {
  gzip = λ payload. ok payload;
  prepare = none;
  exchange = λ payload. answered (record { status = 401; retry_after = blank; body = ok [] });
}

refusal_computes :
    (deliver_one one_batch plain plain says_duplicate sender 7 refused (some batch)).0.auth_blocked
    ≡ true
unfolding deliver_one deliver_item send prepare send_prepared receive judge judge_parsed acknowledge
    settled encode_payload parse_api_response machine_code equal_fold same_text trim trim_left
refusal_computes = refl

deliver_one-Untouched_example :
    Untouched one_batch plain plain says_duplicate
      (some batch)
      (deliver_one one_batch plain plain says_duplicate sender 7 refused (some batch)).1
      (deliver_one one_batch plain plain says_duplicate sender 7 refused (some batch)).2
deliver_one-Untouched_example =
    deliver_one-Untouched one_batch plain plain says_duplicate sender 7 refused (some batch)
      refusal_computes
