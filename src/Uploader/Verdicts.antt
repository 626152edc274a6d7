-- ===== src/Uploader/Verdicts.antt =====
-- What one delivery does to the queue, and when.
use ppflight_agent.Prelude.{
  ℕ, ◌≤◌, ◌<◌, ◌≡◌, refl, Bool, true, false, ◌⊎◌, some, List, if◌then◌else◌,
}
use ppflight_agent.Prelude.Exec.{Result, ok}
use ppflight_agent.Store.Types.{Item}
use ppflight_agent.Uploader.Types.{Uploader, QueueApi, Outside, answered, Answer}
use ppflight_agent.Uploader.Response.{
  ApiResponse, parse_api_response, machine_code, equal_fold, duplicate_code,
}
use ppflight_agent.Uploader.{encode_payload}

pub either :
    {A : Type 0} (P : A → Type 0) (c : Bool) (x y : A)
    → (c ≡ true → P x)
    → (c ≡ false → P y)
    → P (if c then x else y)
either P true x y t f = t refl
either P false x y t f = f refl

module _ {W : Type 0} (q : QueueApi W) (jitter fold : ℕ → ℕ)
    (decode : List ℕ → Result (List ℕ) ApiResponse) where
  -- The server has the batch: it took it, or says that it took it before.
  abbrev pub Accepted : Uploader → Answer → Type 0
  Accepted u a =
      ((200 ≤ a.status) × (a.status < 300))
      ⊎ ((a.status ≡ 409)
          × ((r : ApiResponse) × (parse_api_response decode u.max_response_bytes a.body ≡ ok r)
              × (equal_fold fold (machine_code fold r) duplicate_code ≡ true)))

  -- The one answer after which a batch counts as delivered.
  abbrev pub Delivery : Uploader → ℕ → Outside → W → W → Type 0
  Delivery u now out w w' =
      (item : Item) × (payload : List ℕ) × (a : Answer) × (q.next now w ≡ some item)
      × (encode_payload out u.destination.compressed item.payload ≡ ok payload)
      × (out.exchange payload ≡ answered a)
      × Accepted u a
      × (q.ack item.batch_id w ≡ (ok tt, w'))

  -- Accepted, and acknowledged into the given state.
  abbrev Taken : Uploader → Item → Answer → W → W → Type 0
  Taken u item a w w' = Accepted u a × (q.ack item.batch_id w ≡ (ok tt, w'))

  -- What `deliver_item` gives, from the item that `next` chose.
  abbrev Sent : Uploader → Item → Outside → W → W → Type 0
  Sent u item out w w' =
      (payload : List ℕ) × (a : Answer) × (encode_payload out u.destination.compressed item.payload
        ≡ ok payload)
      × (out.exchange payload ≡ answered a)
      × Taken u item a w w'
