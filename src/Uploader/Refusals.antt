-- ===== src/Uploader/Refusals.antt =====
-- What a refusal of the credentials does to a delivery.
use ppflight_agent.Prelude.{ℕ, ◌≡◌, refl, Bool, true, false, Option, some, none, List, ltb, length}
use ppflight_agent.Prelude.Exec.{Result, ok, err}
use ppflight_agent.Store.Types.{Item}
use ppflight_agent.Uploader.Types.{
  Uploader, QueueApi, Outside, Exchange, transport_failed, answered, Answer, Outcome,
}
use ppflight_agent.Uploader.Response.{ApiResponse, message, parse_api_response}
use ppflight_agent.Uploader.Verdicts.{either}
use ppflight_agent.Uploader.{
  is_retryable, compressed_too_large, uncompressed_too_large, pending, quarantine, retry,
  acknowledge, judge_parsed, is_duplicate, received, is_refusal, is_success, settled, judge,
  receive, send_prepared, prepare, deliver_item, send, deliver_one, retry_after_at, next_attempt,
}

settled_open :
    {E : Type 0} (r : Result E Unit) (good bad : Outcome)
    → good.auth_blocked ≡ false
    → bad.auth_blocked ≡ false
    → (settled r good bad).auth_blocked ≡ false
unfolding settled
settled_open (ok u) good bad g b = g
settled_open (err e) good bad g b = b

module _ {W : Type 0} (q : QueueApi W) (jitter fold : ℕ → ℕ)
    (decode : List ℕ → Result (List ℕ) ApiResponse) where
  -- The queue is as it was, and the uploader is blocked.
  abbrev pub Untouched : W → Uploader → W → Type 0
  Untouched w u' w' = (w' ≡ w) × (u'.auth_blocked ≡ true)

  abbrev IsOpen : Outcome × W → Type 0
  IsOpen r = r.0.auth_blocked ≡ false

  abbrev Blocks : W → Outcome × Uploader × W → Type 0
  Blocks w r = r.0.auth_blocked ≡ true → Untouched w r.1 r.2

  retry-IsOpen :
      (u : Uploader) (now : ℕ) (item : Item) (o : Outcome) (st : ℕ) (reason : List ℕ) (ra : ℕ)
      (t : Bool) (w : W)
      → o.auth_blocked ≡ false
      → IsOpen (retry q jitter u now item o st reason ra t w)
  unfolding retry
  retry-IsOpen u now item o st reason ra t w h =
      settled_open (q.nack item.batch_id (next_attempt jitter u now item ra t) reason w).0 _ _ h h

  quarantine-IsOpen :
      (item : Item) (o : Outcome) (reason : List ℕ) (w : W)
      → o.auth_blocked ≡ false
      → IsOpen (quarantine q jitter item o reason w)
  unfolding quarantine
  quarantine-IsOpen item o reason w h = settled_open (q.quarantine item.batch_id reason w).0 _ _ h h

  acknowledge-IsOpen :
      (item : Item) (o : Outcome) (w : W)
      → o.auth_blocked ≡ false
      → IsOpen (acknowledge q jitter item o w)
  unfolding acknowledge
  acknowledge-IsOpen item o w h = settled_open (q.ack item.batch_id w).0 _ _ h h

  judge-IsOpen :
      (u : Uploader) (now : ℕ) (item : Item) (o : Outcome) (a : Answer)
      (p : Result (List ℕ) ApiResponse) (w : W)
      → o.auth_blocked ≡ false
      → IsOpen (judge_parsed q jitter fold decode u now item o a p w)
  unfolding judge_parsed
  judge-IsOpen u now item o a (err reason) w h =
      either IsOpen (is_retryable a.status) _ _
        (λ r.
          retry-IsOpen u now item o a.status reason (retry_after_at a.retry_after now) false w h)
        (λ r. quarantine-IsOpen item o reason w h)
  judge-IsOpen u now item o a (ok v) w h =
      either IsOpen (is_duplicate q jitter fold decode a v) _ _ (λ s. acknowledge-IsOpen item o w h)
        (λ s.
          either IsOpen (is_retryable a.status) _ _
            (λ r.
              retry-IsOpen u now item o a.status (message v a.status)
                (retry_after_at a.retry_after now) false w h)
            (λ r. quarantine-IsOpen item o (message v a.status) w h))

  receive-Blocks :
      (u : Uploader) (now : ℕ) (item : Item) (a : Answer) (w : W)
      → Blocks w (receive q jitter fold decode u now item a w)
  unfolding receive judge
  receive-Blocks u now item a w =
      let o : Outcome = received q jitter fold decode item a in
      either (Blocks w) (is_refusal q jitter fold decode a.status) _ _ (λ r h. (refl, refl))
        (λ r.
          either (Blocks w) (is_success q jitter fold decode a.status) _ _
            (λ s h. absurd (cc (acknowledge-IsOpen item o w refl, h)))
            (λ s h. absurd (
              cc (
                judge-IsOpen u now item o a (parse_api_response decode u.max_response_bytes a.body)
                    w refl,
                h,
              ))))

  prepare-Blocks :
      (u : Uploader) (now : ℕ) (item : Item) (p : Option (List ℕ)) (x : Exchange) (w : W)
      → Blocks w (prepare q jitter fold decode u now item p x w)
  unfolding prepare send_prepared
  prepare-Blocks u now item (some reason) x w h =
      absurd (cc (retry-IsOpen u now item (pending item) 0 reason 0 false w refl, h))
  prepare-Blocks u now item none (transport_failed reason tls) w h =
      absurd (cc (retry-IsOpen u now item (pending item) 0 reason 0 tls w refl, h))
  prepare-Blocks u now item none (answered a) w h = receive-Blocks u now item a w h

  send-Blocks :
      (u : Uploader) (now : ℕ) (item : Item) (out : Outside) (r : Result (List ℕ) (List ℕ)) (w : W)
      → Blocks w (send q jitter fold decode u now item out r w)
  unfolding send
  send-Blocks u now item out (err reason) w =
      λ h. absurd (cc (retry-IsOpen u now item (pending item) 0 reason 0 false w refl, h))
  send-Blocks u now item out (ok payload) w =
      either (Blocks w) (ltb u.max_compressed_bytes (length payload)) _ _
        (λ l h. absurd (cc (quarantine-IsOpen item (pending item) compressed_too_large w refl, h)))
        (λ l. prepare-Blocks u now item out.prepare (out.exchange payload) w)

  deliver_item-Blocks :
      (u : Uploader) (now : ℕ) (out : Outside) (o : Option Item) (w : W)
      → Blocks w (deliver_item q jitter fold decode u now out o w)
  unfolding deliver_item
  deliver_item-Blocks u now out none w = λ h. absurd (cc)
  deliver_item-Blocks u now out (some item) w =
      either (Blocks w) u.auth_blocked _ _ (λ b h. (refl, b))
        (λ b.
          either (Blocks w) (ltb u.max_uncompressed_bytes (length item.payload)) _ _
            (λ l h.
              absurd (cc (quarantine-IsOpen item (pending item) uncompressed_too_large w refl, h)))
            (λ l. send-Blocks u now item out _ w))

  -- A delivery that reports blocked authentication, whether an earlier one was refused or this one,
  -- has not touched the queue and leaves the uploader blocked.
  pub deliver_one-Untouched :
      (u : Uploader) (now : ℕ) (out : Outside) (w : W)
      → (deliver_one q jitter fold decode u now out w).0.auth_blocked ≡ true
      → Untouched w
          (deliver_one q jitter fold decode u now out w).1
          (deliver_one q jitter fold decode u now out w).2
  unfolding deliver_one
  deliver_one-Untouched u now out w h = deliver_item-Blocks u now out (q.next now w) w h
