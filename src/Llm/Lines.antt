-- ===== src/Llm/Lines.antt =====
-- The lines of POST `/chat/stream` of llm/api/routes.py: `json.dumps` of a dictionary of texts, with
-- a newline behind it. `json.dumps` escapes every character outside printable ASCII, one above
-- 0xffff as the two surrogates of UTF-16.
pub mod Reader
pub mod Units
pub mod Laws
mod Tests
use bibi_core.Base.{
  ℕ, zero, suc, ◌+◌, ◌-◌, ◌*◌, ◌/◌, ◌%◌, ◌&&◌, Bool, List, [], ◌∷◌, ◌++◌, if◌then◌else◌, ltb, leb,
  ◌==◌, Text, codes,
}
use bibi_core.Llm.Chat.{ChatEvent, chunk, done, error}

-- The UTF-16 code units of a character.
unfoldable pub units_of : ℕ → List ℕ
units_of c =
    if ltb c 0x10000
    then c ∷ []
    else (0xd800 + (c - 0x10000) / 1024) ∷ (0xdc00 + (c - 0x10000) % 1024) ∷ []

unfoldable pub units : Text → List ℕ
unfolding units_of
units [] = []
units (c ∷ t) = units_of c ++ units t

unfoldable pub hex_digit : ℕ → ℕ
hex_digit d = if ltb d 10 then 48 + d else 87 + d

-- `"\\u{0:04x}".format(u)`
unfoldable pub hex_escape : ℕ → Text
unfolding hex_digit
hex_escape u =
    b'\\'
    ∷ b'u'
    ∷ hex_digit (u / 4096)
    ∷ hex_digit (u / 256 % 16)
    ∷ hex_digit (u / 16 % 16)
    ∷ hex_digit (u % 16)
    ∷ []

unfoldable pub escape : ℕ → Text
unfolding hex_escape
escape u =
    if u == b'"'
    then b'\\' ∷ b'"' ∷ []
    else if u == b'\\'
    then b'\\' ∷ b'\\' ∷ []
    else if u == 10
    then b'\\' ∷ b'n' ∷ []
    else if u == 13
    then b'\\' ∷ b'r' ∷ []
    else if u == 9
    then b'\\' ∷ b't' ∷ []
    else if u == 12
    then b'\\' ∷ b'f' ∷ []
    else if u == 8
    then b'\\' ∷ b'b' ∷ []
    else if leb 32 u && leb u 126
    then u ∷ []
    else hex_escape u

unfoldable pub escaped : List ℕ → Text
unfolding escape
escaped [] = []
escaped (u ∷ us) = escape u ++ escaped us

-- `json.dumps` of a text
unfoldable pub json_string : Text → Text
unfolding units escaped
json_string t = b'"' ∷ (escaped (units t) ++ b'"' ∷ [])

abbrev pub chunk_head : Text
chunk_head = codes "{\"type\": \"chunk\", \"text\": "

abbrev pub error_head : Text
error_head = codes "{\"type\": \"error\", \"code\": "

abbrev pub message_head : Text
message_head = codes ", \"message\": "

unfoldable pub event_json : ChatEvent → Text
unfolding json_string
event_json (chunk t) = chunk_head ++ (json_string t ++ codes "}")
event_json done = codes "{\"type\": \"done\"}"
event_json (error code message) =
    error_head ++ (json_string code ++ (message_head ++ (json_string message ++ codes "}")))

-- The body of the response.
unfoldable pub body : List ChatEvent → Text
unfolding event_json
body [] = []
body (e ∷ es) = event_json e ++ (10 ∷ body es)
