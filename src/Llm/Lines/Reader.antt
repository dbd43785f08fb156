-- ===== src/Llm/Lines/Reader.antt =====
-- What a client does with the body: it cuts it at the newlines and reads each line as the JSON of one
-- event. Written from the JSON grammar, and from no code of the services.
use bibi_core.Base.{
  ℕ, zero, suc, ◌+◌, ◌-◌, ◌*◌, ◌&&◌, true, false, Option, none, some, List, [], ◌∷◌, ◌++◌,
  if◌then◌else◌, ltb, leb, ◌==◌, Text, codes, text_eq, length,
}
use bibi_core.Llm.Chat.{ChatEvent, chunk, done, error}

infixl 5 ◌>>=◌
abbrev pub ◌>>=◌ : {A B : Type 0} → Option A → (A → Option B) → Option B
none >>= next = none
some a >>= next = next a

unfoldable pub read_digit : ℕ → Option ℕ
read_digit c =
    if leb 48 c && leb c 57
    then some (c - 48)
    else if leb 97 c && leb c 102
    then some (c - 87)
    else none

unfoldable pub read_hex : Text → Option (ℕ × Text)
unfolding read_digit
read_hex (a ∷ b ∷ c ∷ d ∷ rest) = do
  p ← read_digit a
  q ← read_digit b
  r ← read_digit c
  s ← read_digit d
  some (p * 4096 + q * 256 + r * 16 + s, rest)
read_hex _ = none

-- The escapes of one letter.
unfoldable pub read_letter : ℕ → Option ℕ
read_letter c =
    if c == b'"'
    then some b'"'
    else if c == b'\\'
    then some b'\\'
    else if c == b'/'
    then some b'/'
    else if c == b'n'
    then some 10
    else if c == b'r'
    then some 13
    else if c == b't'
    then some 9
    else if c == b'f'
    then some 12
    else if c == b'b'
    then some 8
    else none

unfoldable pub read_escape : Text → Option (ℕ × Text)
unfolding read_hex read_letter
read_escape [] = none
read_escape (c ∷ rest) =
    if c == b'u'
    then read_hex rest
    else elim (read_letter c) [ none ↦ none | some u ↦ some (u, rest) ]

-- One unit; a control character may not stand there as it is.
unfoldable pub read_unit : Text → Option (ℕ × Text)
unfolding read_escape
read_unit [] = none
read_unit (c ∷ rest) =
    if c == b'\\' then read_escape rest else if ltb c 32 then none else some (c, rest)

unfoldable pub cons_unit : ℕ → Option (List ℕ × Text) → Option (List ℕ × Text)
cons_unit u none = none
cons_unit u (some (us, rest)) = some (u ∷ us, rest)

-- The units up to the closing quote, with as much fuel as there are characters.
unfoldable pub read_units : ℕ → Text → Option (List ℕ × Text)
unfolding read_unit cons_unit
read_units zero t = none
read_units (suc fuel) [] = none
read_units (suc fuel) (c ∷ t) = elim (c == b'"') [
  | true ↦ some ([], t)
  | false ↦ elim (read_unit (c ∷ t)) [
    | none ↦ none
    | some (u, rest) ↦ cons_unit u (read_units fuel rest)
  ]
]

-- Two surrogates are one character.
unfoldable pub join_units : List ℕ → Text
join_units [] = []
join_units (u ∷ []) = u ∷ []
join_units (u ∷ v ∷ us) =
    let joined = join_units us in
    let others = join_units (v ∷ us) in
    if leb 0xd800 u && ltb u 0xdc00 && leb 0xdc00 v && ltb v 0xe000
    then (0x10000 + (u - 0xd800) * 1024 + (v - 0xdc00)) ∷ joined
    else u ∷ others

unfoldable pub read_string : Text → Option (Text × Text)
unfolding read_units join_units
read_string [] = none
read_string (c ∷ t) =
    if c == b'"'
    then elim (read_units (suc (length t)) t) [
      | none ↦ none
      | some (us, rest) ↦ some (join_units us, rest)
    ]
    else none

-- The text behind a prefix.
unfoldable pub behind : Text → Text → Option Text
behind [] t = some t
behind (p ∷ ps) [] = none
behind (p ∷ ps) (c ∷ t) = let rest = behind ps t in if p == c then rest else none

unfoldable pub read_event : Text → Option ChatEvent
unfolding behind read_string
read_event t = elim (behind (codes "{\"type\": \"chunk\", \"text\": ") t) [
  | some r ↦ elim (read_string r) [
    | none ↦ none
    | some (text, end) ↦ if text_eq end (codes "}") then some (chunk text) else none
  ]
  | none ↦ elim (behind (codes "{\"type\": \"error\", \"code\": ") t) [
    | some r ↦ elim (read_string r) [
      | none ↦ none
      | some (code, next) ↦ elim (behind (codes ", \"message\": ") next) [
        | none ↦ none
        | some r' ↦ elim (read_string r') [
          | none ↦ none
          | some (message, end) ↦
              if text_eq end (codes "}") then some (error code message) else none
        ]
      ]
    ]
    | none ↦ if text_eq t (codes "{\"type\": \"done\"}") then some done else none
  ]
]

-- The lines of a text, when a part of the first one is read already.
unfoldable pub lines : Text → Text → List Text
lines [] [] = []
lines [] (c ∷ line) = (c ∷ line) ∷ []
lines (c ∷ t) line =
    let fresh = lines t [] in
    let longer = lines t (line ++ c ∷ []) in if c == 10 then line ∷ fresh else longer

unfoldable pub read_all : List Text → Option (List ChatEvent)
unfolding read_event
read_all [] = some []
read_all (line ∷ rest) = elim (read_event line) [
  | none ↦ none
  | some e ↦ elim (read_all rest) [ none ↦ none | some es ↦ some (e ∷ es) ]
]

unfoldable pub read_body : Text → Option (List ChatEvent)
unfolding lines read_all
read_body t = read_all (lines t [])
