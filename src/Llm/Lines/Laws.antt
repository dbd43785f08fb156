-- ===== src/Llm/Lines/Laws.antt =====
-- The body of `/chat/stream` against its reader.
use bibi_core.Base.{
  ℕ, ◌/◌, ◌%◌, ◌≤◌, ◌<◌, ◌≡◌, refl, ap, ◌∙◌, inl, inr, some, List, [], ◌∷◌, ◌++◌, append_assoc,
  append-nil, false, ◌==◌, Text, codes, All, All-append, arith, map, text_eq,
}
use bibi_core.Llm.Chat.{ChatEvent, chunk, done, error}
use bibi_core.Llm.Lines.{
  units, hex_digit, hex_escape, escape, escaped, json_string, chunk_head, error_head, message_head,
  event_json, body,
}
use bibi_core.Llm.Lines.Reader.{behind, read_event, lines, read_all, read_body}
use bibi_core.Llm.Lines.Units.{
  IsUnit, escape-cases, IsScalar, units-IsUnit, read_string-json_string,
}

-- A printable character of ASCII.
abbrev pub IsPrintable : ℕ → Type 0
IsPrintable c = (32 ≤ c) × (c ≤ 126)

hex_digit-IsPrintable : (d : ℕ) → d < 16 → IsPrintable (hex_digit d)
unfolding hex_digit
hex_digit-IsPrintable d h = ground arith

hex_escape-IsPrintable : (u : ℕ) → IsUnit u → All IsPrintable (hex_escape u)
unfolding hex_escape
hex_escape-IsPrintable u h = (
  omega arith,
  (
    omega arith,
    (
      hex_digit-IsPrintable (u / 4096) (omega arith),
      (
        hex_digit-IsPrintable (u / 256 % 16) (omega arith),
        (
          hex_digit-IsPrintable (u / 16 % 16) (omega arith),
          (hex_digit-IsPrintable (u % 16) (omega arith), tt),
        ),
      ),
    ),
  ),
)

escape-IsPrintable : (u : ℕ) → IsUnit u → All IsPrintable (escape u)
escape-IsPrintable u h = elim (escape-cases u) [
  | inl (letter, e, _, _, lo, hi) ↦ rw e (omega arith, ((lo, hi), tt))
  | inr (inl (e, lo, hi, _, _)) ↦ rw e ((lo, hi), tt)
  | inr (inr e) ↦ rw e (hex_escape-IsPrintable u h)
]

escaped-IsPrintable : (us : List ℕ) → All IsUnit us → All IsPrintable (escaped us)
unfolding escaped
escaped-IsPrintable [] a = tt
escaped-IsPrintable (u ∷ us) (unit, a) =
    All-append IsPrintable (escape u) (escaped us) (escape-IsPrintable u unit)
      (escaped-IsPrintable us a)

json_string-IsPrintable : (t : Text) → All IsScalar t → All IsPrintable (json_string t)
unfolding json_string
json_string-IsPrintable t a = (
  omega arith,
  All-append IsPrintable (escaped (units t)) (b'"' ∷ [])
      (escaped-IsPrintable (units t) (units-IsUnit t a)) (omega arith, tt),
)

-- The texts of an event have no surrogates.
abbrev pub HasScalars : ChatEvent → Type 0
HasScalars (chunk t) = All IsScalar t
HasScalars done = Unit {0}
HasScalars (error code message) = All IsScalar code × All IsScalar message

around :
    (head t tail : Text)
    → All IsPrintable head
    → All IsPrintable tail
    → All IsScalar t
    → All IsPrintable (head ++ (json_string t ++ tail))
around head t tail h k a =
    All-append IsPrintable head (json_string t ++ tail) h
      (All-append IsPrintable (json_string t) tail (json_string-IsPrintable t a) k)

event_json-IsPrintable : (e : ChatEvent) → HasScalars e → All IsPrintable (event_json e)
unfolding event_json
event_json-IsPrintable (chunk t) a = around chunk_head t (codes "}") (omega arith) (omega arith) a
event_json-IsPrintable done a = omega arith
event_json-IsPrintable (error code message) (a, b) =
    around error_head code (message_head ++ (json_string message ++ codes "}")) (omega arith)
      (around message_head message (codes "}") (omega arith) (omega arith) b) a

read_event-event_json : (e : ChatEvent) → HasScalars e → read_event (event_json e) ≡ some e
unfolding read_event event_json behind text_eq
read_event-event_json (chunk t) a = rw (read_string-json_string t (codes "}") a, read_event) refl
read_event-event_json done a = refl
read_event-event_json (error code message) (a, b) =
    rw
      (
        read_string-json_string code (codes ", \"message\": " ++ (json_string message ++ codes "}"))
            a,
        read_string-json_string message (codes "}") b,
        read_event,
      )
      refl

lines-cons :
    (t line rest : Text)
    → All IsPrintable t
    → lines (t ++ (10 ∷ rest)) line ≡ (line ++ t) ∷ lines rest []
unfolding lines
lines-cons [] line rest a = rw append-nil refl
lines-cons (c ∷ t) line rest (p, a) =
    let inside : (c == 10) ≡ false = ground arith in
    rw inside (lines-cons t (line ++ c ∷ []) rest a ∙ (rw append_assoc refl))

-- However the texts of the events read, as long as no surrogate stands in them: each event is
-- one line of printable ASCII, and cutting the body at its newlines gives these lines.
pub body-lines :
    (es : List ChatEvent)
    → All HasScalars es
    → (lines (body es) [] ≡ map event_json es) × All (λ e. All IsPrintable (event_json e)) es
unfolding body lines
body-lines [] a = (refl, tt)
body-lines (e ∷ es) (b, a) =
    let (cut, fine) = body-lines es a in
    let printable = event_json-IsPrintable e b in
    (
      lines-cons (event_json e) [] (body es) printable ∙ ap (λ ls. event_json e ∷ ls) cut,
      (printable, fine),
    )

read_all-map : (es : List ChatEvent) → All HasScalars es → read_all (map event_json es) ≡ some es
unfolding read_all
read_all-map [] a = refl
read_all-map (e ∷ es) (b, a) = rw (read_event-event_json e b, read_all-map es a, read_all) refl

-- A client that cuts the body of /chat/stream at the newlines and reads each line as JSON gets
-- exactly the events that the route sent, as long as no surrogate stands in their texts.
pub read_body-body : (es : List ChatEvent) → All HasScalars es → read_body (body es) ≡ some es
unfolding read_body
read_body-body es a = rw ((body-lines es a).0) (read_all-map es a)
