-- ===== src/Llm/Lines/Tests.antt =====
-- A chunk with a quote, a newline, a letter outside ASCII and one above 0xffff.
use bibi_core.Base.{◌≡◌, refl, some, List, [], ◌∷◌, map, Text, codes, All, arith}
use bibi_core.Llm.Chat.{ChatEvent, chunk, error}
use bibi_core.Llm.Lines.{units, escaped, json_string, event_json, body}
use bibi_core.Llm.Lines.Reader.{lines, read_body}
use bibi_core.Llm.Lines.Laws.{IsPrintable, HasScalars, body-lines, read_body-body}

abbrev odd_text : Text
odd_text = b'a' ∷ b'"' ∷ 10 ∷ 0xe9 ∷ 0x1f600 ∷ []

abbrev events : List ChatEvent
events = chunk odd_text ∷ error (codes "internal_error") (codes "no\\yes") ∷ []

chunk_run :
    event_json (chunk odd_text)
    ≡ codes "{\"type\": \"chunk\", \"text\": \"a\\\"\\n\\u00e9\\ud83d\\ude00\"}"
unfolding event_json json_string units escaped
chunk_run = refl

events-HasScalars : All HasScalars events
events-HasScalars = ground arith

body-lines_run :
    (lines (body events) [] ≡ map event_json events)
    × All (λ e. All IsPrintable (event_json e)) events
body-lines_run = body-lines events events-HasScalars

read_body-body_example : read_body (body events) ≡ some events
read_body-body_example = read_body-body events events-HasScalars
