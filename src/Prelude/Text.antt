-- ===== src/Prelude/Text.antt =====
-- Tests on texts that the packages share: character classes, the patterns of
-- identifiers, and decimal numbers.
use Prim.Native.Char.{code}
use Prim.Native.Nat.{ℕ, zero, suc, ◌/◌, ◌%◌}
use Prim.Native.String.{String, ◌++◌}
use mathlib.Core.Bool.{Bool, true, false, ◌&&◌, ◌||◌}
use mathlib.Core.List.{List, [], ◌∷◌}
use ppflight_agent.Prelude.Tests.{leb, ltb, ◌==◌, if◌then◌else◌}

-- The code points of a text.
abbrev pub codes : String → List ℕ
codes String.[] = []
codes (String.◌∷◌ c s) = code c ∷ codes s

-- `unicode.IsSpace`
unfoldable pub is_space : ℕ → Bool
is_space c =
    (leb 9 c && leb c 13)
    || c == 32
    || c == 0x85
    || c == 0xa0
    || c == 0x1680
    || (leb 0x2000 c && leb c 0x200a)
    || c == 0x2028
    || c == 0x2029
    || c == 0x202f
    || c == 0x205f
    || c == 0x3000

-- [0-9a-f]
abbrev pub is_hex : ℕ → Bool
is_hex c = (leb b'0' c && leb c b'9') || (leb b'a' c && leb c b'f')

-- `n` characters of the class, and then the rest.
unfoldable pub class_run : (ℕ → Bool) → ℕ → (List ℕ → Bool) → List ℕ → Bool
class_run p zero rest cs = rest cs
class_run p (suc n) rest [] = false
class_run p (suc n) rest (c ∷ cs) = p c && class_run p n rest cs

unfoldable pub dash : (List ℕ → Bool) → List ℕ → Bool
dash rest [] = false
dash rest (c ∷ cs) = c == b'-' && rest cs

unfoldable pub at_end : List ℕ → Bool
at_end [] = true
at_end (c ∷ cs) = false

-- ^[0-9a-f]{8}-[0-9a-f]{4}-[0-9a-f]{4}-[0-9a-f]{4}-[0-9a-f]{12}$
unfoldable pub is_uuid : String → Bool
unfolding class_run dash at_end
is_uuid s =
    class_run is_hex 8
      (dash (
        class_run is_hex 4 (
          dash
            (class_run is_hex 4 (dash (class_run is_hex 4 (dash (class_run is_hex 12 at_end))))))))
      (codes s)

-- [A-Za-z0-9]
abbrev pub is_alphanumeric : ℕ → Bool
is_alphanumeric c =
    (leb b'a' c && leb c b'z') || (leb b'A' c && leb c b'Z') || (leb b'0' c && leb c b'9')

-- [A-Za-z0-9._-]
abbrev pub is_ref_character : ℕ → Bool
is_ref_character c = is_alphanumeric c || c == b'.' || c == b'_' || c == b'-'

-- [A-Za-z0-9._:-]
abbrev pub is_id_character : ℕ → Bool
is_id_character c = is_ref_character c || c == b':'

-- At most `n` characters, all of the class.
unfoldable pub class_upto : (ℕ → Bool) → ℕ → List ℕ → Bool
class_upto p n [] = true
class_upto p zero (c ∷ cs) = false
class_upto p (suc n) (c ∷ cs) = p c && class_upto p n cs

unfoldable pub initial_then : (ℕ → Bool) → ℕ → List ℕ → Bool
unfolding class_upto
initial_then p n [] = false
initial_then p n (c ∷ cs) = is_alphanumeric c && class_upto p n cs

-- ^[A-Za-z0-9][A-Za-z0-9._:-]{0,127}$
unfoldable pub is_command_id : String → Bool
unfolding initial_then
is_command_id s = initial_then is_id_character 127 (codes s)

-- ^[A-Za-z0-9][A-Za-z0-9._-]{0,127}$
unfoldable pub is_node_ref : String → Bool
unfolding initial_then
is_node_ref s = initial_then is_ref_character 127 (codes s)

-- ^[0-9a-f]{64}$
unfoldable pub is_body_hash : String → Bool
unfolding class_run at_end
is_body_hash s = class_run is_hex 64 at_end (codes s)

-- Where a dotted name stands: before a segment or inside one, the first or a later one.
pub data Place : Type 0 where
  opening first after_dot later no_match : Place

abbrev pub lower : ℕ → Place → Place
lower c p = if leb b'a' c && leb c b'z' then p else no_match

abbrev pub segment : ℕ → Place → Place
segment c p =
    if c == b'.'
    then after_dot
    else if (leb b'a' c && leb c b'z') || (leb b'0' c && leb c b'9') || c == b'-'
    then p
    else no_match

abbrev pub advance : ℕ → Place → Place
advance c opening = lower c first
advance c first = segment c first
advance c after_dot = lower c later
advance c later = segment c later
advance c no_match = no_match

unfoldable pub place_from : Place → List ℕ → Place
place_from p [] = p
place_from p (c ∷ cs) = place_from (advance c p) cs

abbrev pub is_later : Place → Bool
is_later later = true
is_later p = false

-- ^[a-z][a-z0-9-]*(?:\.[a-z][a-z0-9-]*)+$
unfoldable pub is_action_name : String → Bool
unfolding place_from
is_action_name s = is_later (place_from opening (codes s))

-- `strings.TrimSpace(s) == ""`
unfoldable pub all_space : List ℕ → Bool
unfolding is_space
all_space [] = true
all_space (c ∷ cs) = is_space c && all_space cs

abbrev pub digit : ℕ → String
digit n =
    if n == 0
    then "0"
    else if n == 1
    then "1"
    else if n == 2
    then "2"
    else if n == 3
    then "3"
    else if n == 4
    then "4"
    else if n == 5
    then "5"
    else if n == 6
    then "6"
    else if n == 7
    then "7"
    else if n == 8
    then "8"
    else "9"

-- `%d` of a number below 10 ^ 20, before the rest of the text.
unfoldable pub decimal_from : ℕ → ℕ → String → String
decimal_from zero n rest = rest
decimal_from (suc fuel) n rest =
    let higher = decimal_from fuel (n / 10) (digit (n % 10) ++ rest) in
    if ltb n 10 then digit n ++ rest else higher

abbrev pub decimal_text : ℕ → String
decimal_text n = decimal_from 20 n ""

unfoldable pub concat : List String → String
concat [] = ""
concat (s ∷ ss) = s ++ concat ss
