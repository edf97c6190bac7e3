-- ===== src/Uri.antt =====
-- The URI functions of JavaScript that the dashboard calls: `encodeURIComponent`,
-- `decodeURIComponent` and the serialisation of `URLSearchParams`.
pub mod RoundTrip
use marshal_pm.Base.{
  ℕ, zero, suc, ◌+◌, ◌-◌, ◌*◌, ◌/◌, ◌%◌, Bool, true, false, ◌&&◌, ◌||◌, Option, none, some, List,
  [], ◌∷◌, ◌++◌, Text, codes, ltb, leb, ◌==◌, if◌then◌else◌, Outcome, returned, threw, ◌>>=◌,
}

is_alnum : ℕ → Bool
is_alnum c = (leb 48 c && leb c 57) || (leb 65 c && leb c 90) || (leb 97 c && leb c 122)

-- A-Z a-z 0-9 - _ . ! ~ * ' ( )
is_unreserved : ℕ → Bool
is_unreserved c =
    is_alnum c || c == 45 || c == 95 || c == 46 || c == 33 || c == 126 || (leb 39 c && leb c 42)

is_surrogate : ℕ → Bool
is_surrogate c = leb 0xd800 c && ltb c 0xe000

hex_digit : ℕ → ℕ
hex_digit n = if ltb n 10 then 48 + n else 55 + n

hex_value : ℕ → Option ℕ
hex_value c =
    if leb 48 c && leb c 57
    then some (c - 48)
    else if leb 65 c && leb c 70
    then some (c - 55)
    else if leb 97 c && leb c 102
    then some (c - 87)
    else none

-- `%XX` for one byte.
percent : ℕ → Text
percent b = 37 ∷ hex_digit (b / 16) ∷ hex_digit (b % 16) ∷ []

percents : List ℕ → Text
percents [] = []
percents (b ∷ bs) = percent b ++ percents bs

-- The UTF-8 bytes of a code point.
utf8 : ℕ → List ℕ
utf8 c =
    if ltb c 128
    then c ∷ []
    else if ltb c 2048
    then (192 + c / 64) ∷ (128 + c % 64) ∷ []
    else if ltb c 65536
    then (224 + c / 4096) ∷ (128 + c / 64 % 64) ∷ (128 + c % 64) ∷ []
    else (240 + c / 262144) ∷ (128 + c / 4096 % 64) ∷ (128 + c / 64 % 64) ∷ (128 + c % 64) ∷ []

encode_char : ℕ → Text
encode_char c = if is_unreserved c then c ∷ [] else percents (utf8 c)

uri_error : Text
uri_error = codes "URI malformed"

-- `encodeURIComponent` throws a `URIError` at a lone surrogate.
unfoldable pub encode : Text → Outcome Text
unfolding encode_char is_surrogate uri_error is_unreserved is_alnum percents percent hex_digit utf8
encode [] = returned []
encode (c ∷ s) = do
  let rest = encode s
  if is_surrogate c then threw uri_error else (rest >>= λ t. returned (encode_char c ++ t))

-- What the decoder waits for: an escape's digits, and the rest of a UTF-8 sequence.
pub data Escape : Type 0 where
  idle percent_seen : Escape
  high : ℕ → Escape

pub data Pending : Type 0 where
  whole : Pending
  more : (left acc least : ℕ) → Pending

-- One byte of an escape: a character is finished, or a sequence goes on; `none` is an error.
take_byte : Pending → ℕ → Option (Pending × Text)
take_byte whole b =
    if ltb b 128
    then some (whole, b ∷ [])
    else if ltb b 192
    then none
    else if ltb b 224
    then some (more 1 (b - 192) 128, [])
    else if ltb b 240
    then some (more 2 (b - 224) 2048, [])
    else if ltb b 248
    then some (more 3 (b - 240) 65536, [])
    else none
take_byte (more left acc least) b =
    let c = acc * 64 + (b - 128) in
    if leb 128 b && ltb b 192
    then if left == 1
      then if leb least c && leb c 0x10ffff && (if is_surrogate c then false else true)
        then some (whole, c ∷ [])
        else none
      else some (more (left - 1) c least, [])
    else none

take_high : Pending → Option ℕ → Option ((Pending × Escape) × Text)
take_high p none = none
take_high p (some h) = some ((p, high h), [])

back_to_idle : Option (Pending × Text) → Option ((Pending × Escape) × Text)
back_to_idle none = none
back_to_idle (some (p, out)) = some ((p, idle), out)

take_low : Pending → ℕ → Option ℕ → Option ((Pending × Escape) × Text)
take_low p h none = none
take_low p h (some l) = back_to_idle (take_byte p (h * 16 + l))

-- A character that is no escape stands for itself, but not inside a sequence.
take_plain : Pending → ℕ → Option ((Pending × Escape) × Text)
take_plain whole c = some ((whole, idle), c ∷ [])
take_plain (more left acc least) c = none

decode_step : Pending → Escape → ℕ → Option ((Pending × Escape) × Text)
decode_step p idle c = if c == 37 then some ((p, percent_seen), []) else take_plain p c
decode_step p percent_seen c = take_high p (hex_value c)
decode_step p (high h) c = take_low p h (hex_value c)

decode_end : Pending → Escape → Outcome Text
decode_end whole idle = returned []
decode_end _ _ = threw uri_error

decode_from : Pending → Escape → Text → Outcome Text
decode_from p e [] = decode_end p e
decode_from p e (c ∷ s) = elim (decode_step p e c) [
  | none ↦ threw uri_error
  | some ((p', e'), out) ↦ decode_from p' e' s >>= λ t. returned (out ++ t)
]

-- `decodeURIComponent`: a malformed escape or sequence throws a `URIError`.
unfoldable pub decode : Text → Outcome Text
unfolding decode_from decode_step decode_end uri_error take_plain take_high take_low take_byte
    back_to_idle hex_value is_surrogate
decode s = decode_from whole idle s

-- `new URLSearchParams(pairs).toString()`: a space becomes `+`, a lone surrogate U+FFFD.
form_char : ℕ → Text
form_char c =
    if c == 32
    then 43 ∷ []
    else if is_alnum c || c == 42 || c == 45 || c == 46 || c == 95
    then c ∷ []
    else percents (utf8 (if is_surrogate c then 0xfffd else c))

form_encode : Text → Text
form_encode [] = []
form_encode (c ∷ s) = form_char c ++ form_encode s

form_pair : Text × Text → Text
form_pair (k, v) = form_encode k ++ (61 ∷ form_encode v)

unfoldable pub search_params : List (Text × Text) → Text
unfolding form_pair form_encode form_char is_alnum is_surrogate percents percent hex_digit utf8
search_params [] = []
search_params (kv ∷ []) = form_pair kv
search_params (kv ∷ (next ∷ rest)) = form_pair kv ++ (38 ∷ search_params (next ∷ rest))
