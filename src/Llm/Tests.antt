-- ===== src/Llm/Tests.antt =====
-- Runs of the chat service with ASCII tables for the Unicode parameters.
use bibi_core.Base.{
  ◌≡◌, refl, true, false, ◌&&◌, leb, map, ◌++◌, none, some, List, [], ◌∷◌, arith, All, Text, codes,
  ok, strip, last_or, mem_char, text_eq,
}
use bibi_core.Llm.Models.{LlmError}
use bibi_core.Llm.Chunker.{
  Unicode, default_chunking, chunk_stream, should_flush, is_mid_number, ends_with_abbreviation,
}
use bibi_core.Llm.Chunker.Strip.{squeeze}
use bibi_core.Llm.Chunker.Laws.{concat, IsChunk, Chunks, chunk_stream-Chunks}
use bibi_core.Llm.Chunker.Bounds.{Bounded, chunk_stream-Bounded}
use bibi_core.Llm.Chunker.Numbers.{decimal_point_cut}
use bibi_core.Llm.Ollama.{OllamaEngine, listed, connect_error}
use bibi_core.Llm.Ollama.Laws.{Check, run, Vouched, run-Vouched}
use bibi_core.Llm.Chat.{
  Engine, ChatEvent, stream_chat, chat_stream, chat, streamed, success, http_error, failure_status,
  failure_detail, chunk, error_event,
}
use bibi_core.Llm.Chat.Laws.{IsAnswer, texts, is_done, same_answer}

abbrev ascii : Unicode
ascii = record { lower = λ s. s; is_digit = λ c. leb 48 c && leb c 57 }

abbrev tokens : List Text
tokens = codes "Pi is about 3." ∷ codes "14, " ∷ codes "they say." ∷ codes " Well" ∷ []

chunk_stream-Chunks_example :
    Chunks ascii default_chunking {X = LlmError} [] tokens none
      (chunk_stream ascii default_chunking (tokens, none))
chunk_stream-Chunks_example = chunk_stream-Chunks ascii default_chunking tokens none

chunk_stream-Bounded_example :
    Bounded ascii default_chunking 14 {X = LlmError}
      (chunk_stream ascii default_chunking (tokens, none))
chunk_stream-Bounded_example =
    chunk_stream-Bounded ascii default_chunking tokens none 14 (omega arith) (omega arith)

decimal_point_cut_example :
    (is_mid_number ascii (codes "Pi is about 3.") (last_or 0 (codes "Pi is about 3.")) ≡ false)
    × (should_flush ascii default_chunking (codes "Pi is about 3.") ≡ true)
unfolding last_or mem_char ends_with_abbreviation text_eq
decimal_point_cut_example =
    decimal_point_cut ascii default_chunking (codes "Pi is about 3.") refl refl refl (omega arith)

abbrev fresh_engine : OllamaEngine
fresh_engine = record { model = codes "llama3"; ttl = 30; last_checked_at = none }

abbrev checks : List Check
checks = (5, connect_error) ∷ (10, listed (codes "llama3:latest" ∷ [])) ∷ (20, connect_error) ∷ []

checks_pass : All (Vouched fresh_engine (λ t. t ≡ 10)) (run fresh_engine checks)
checks_pass =
    run-Vouched fresh_engine (λ t. t ≡ 10) checks refl (absurd, ((λ e. refl), (absurd, tt)))

abbrev engine : Engine
engine = record {
  ready = ok tt;
  stream_response = λ history prompt. (prompt ∷ codes ". Yes" ∷ [], none);
  reachable = true;
}

same_answer_example :
    (es : List ChatEvent) × (stream_chat ascii default_chunking engine
        (λ j. false)
        (codes "Is it so")
        []
      ≡ streamed es)
    × (chat_stream ascii default_chunking engine (codes "Is it so") [] ≡ success es)
    × IsAnswer es
    × All IsChunk (texts es)
    × ((is_done es ≡ true)
        → ((engine.stream_response [] (codes "Is it so")).1 ≡ none)
          × (chat ascii default_chunking engine (codes "Is it so") [] ≡ success es)
          × (squeeze (concat (texts es)) ≡ squeeze (codes "Is it so. Yes")))
    × ((is_done es ≡ false)
        → (x : LlmError) × ((engine.stream_response [] (codes "Is it so")).1 ≡ some x)
          × (es ≡ map chunk (texts es) ++ error_event x ∷ [])
          × (chat ascii default_chunking engine (codes "Is it so") []
              ≡ http_error (failure_status x) (failure_detail x)))
unfolding strip concat
same_answer_example =
    same_answer ascii default_chunking engine (λ j. false) (codes "Is it so") [] refl (λ e. cc)
      (λ j. refl)
