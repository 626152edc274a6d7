-- ===== src/Uploader/Response.antt =====
-- The reading of an API response in internal/uploader/uploader.go. `fold` stands for Unicode's simple
-- case folding of a code point, and `decode` for the JSON decoder of `apiResponse`.
use ppflight_agent.Prelude.{
  ℕ, zero, suc, ◌+◌, ◌/◌, ◌%◌, Bool, true, false, not, ◌&&◌, List, [], ◌∷◌, ◌++◌, map, ltb, ◌==◌,
  if◌then◌else◌, length,
}
use mathlib.Core.List.{reverse}
use ppflight_agent.Prelude.Exec.{Result, ok, err}
use ppflight_agent.Prelude.Text.{codes, is_space}

pub record ApiResponse : Type 0 where
  pub code : List ℕ
  pub error_code : List ℕ
  pub error_message : List ℕ
  pub flat_message : List ℕ

abbrev pub is_empty : List ℕ → Bool
is_empty [] = true
is_empty (c ∷ cs) = false

unfoldable pub trim_left : List ℕ → List ℕ
unfolding is_space
trim_left [] = []
trim_left (c ∷ cs) = let rest = trim_left cs in if is_space c then rest else c ∷ cs

-- `strings.TrimSpace`
unfoldable pub trim : List ℕ → List ℕ
unfolding trim_left
trim cs = reverse (trim_left (reverse (trim_left cs)))

unfoldable pub same_text : List ℕ → List ℕ → Bool
same_text [] [] = true
same_text (a ∷ as') (b ∷ bs) = a == b && same_text as' bs
same_text _ _ = false

-- `strings.EqualFold`
unfoldable pub equal_fold : (ℕ → ℕ) → List ℕ → List ℕ → Bool
unfolding same_text
equal_fold fold a b = same_text (map fold a) (map fold b)

abbrev pub empty_response : ApiResponse
empty_response = record { code = []; error_code = []; error_message = []; flat_message = [] }

abbrev pub duplicate_code : List ℕ
duplicate_code = codes "DUPLICATE"

-- Decimal digits, before those in `after`; a status has at most 20.
abbrev pub decimal : ℕ → ℕ → List ℕ → List ℕ
decimal zero n after = after
decimal (suc f) n after =
    let rest = decimal f (n / 10) ((n % 10 + 48) ∷ after) in
    if ltb n 10 then (n + 48) ∷ after else rest

-- `parseAPIResponse`: a body that cannot be read, is longer than the limit or is not JSON is an
-- error, and a blank one is the empty response.
unfoldable pub parse_api_response :
    (List ℕ → Result (List ℕ) ApiResponse)
    → ℕ
    → Result (List ℕ) (List ℕ)
    → Result (List ℕ) ApiResponse
parse_api_response decode limit (err reason) = err (codes "read API response: " ++ reason)
parse_api_response decode limit (ok raw) =
    if ltb limit (length raw)
    then err (codes "API response exceeds " ++ decimal 20 limit (codes " bytes"))
    else if is_empty (trim raw)
    then ok empty_response
    else elim (decode raw) [
      | err reason ↦ err (codes "invalid JSON API response: " ++ reason)
      | ok response ↦ ok response
    ]

-- `machineCode`: two codes that contradict one another are no code.
unfoldable pub machine_code : (ℕ → ℕ) → ApiResponse → List ℕ
machine_code fold r =
    let flat = trim r.code in
    let nested = trim r.error_code in
    if not (is_empty flat) && not (is_empty nested) && not (equal_fold fold flat nested)
    then []
    else if not (is_empty nested)
    then nested
    else flat

-- `message`
unfoldable pub message : ApiResponse → ℕ → List ℕ
message r status =
    let code = if is_empty (trim r.error_code) then trim r.code else trim r.error_code in
    let detail =
      if is_empty (trim r.error_message) then trim r.flat_message else trim r.error_message in
    let head = codes "HTTP " ++ decimal 20 status [] in
    if is_empty detail
    then if is_empty code then head else head ++ codes ": " ++ code
    else if is_empty code
    then head ++ codes ": " ++ detail
    else head ++ codes ": " ++ code ++ codes ": " ++ detail
