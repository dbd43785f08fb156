-- ===== src/Lib.antt =====
-- The Python services of bibi-core: speech to text (stt/), chat (llm/) and text to speech (tts/).
-- Each is a gRPC and HTTP server over an engine. stt/ and tts/ keep loaded engines in an engine
-- manager, a cache that all requests share; stt/ collects audio into windows, converts it for the
-- engine and streams transcripts; llm/ streams the tokens of a model in pieces of a sentence; tts/
-- takes the markup out of a text and hands what a blocking generator makes of it over to a
-- coroutine.
--
-- Base       shared names; texts as lists of code points, Python dictionaries as association lists
--            in insertion order (Base/Dict), results with an exception (Base/Results), integers,
--            and numbers in decimal (Base/Decimal)
-- Paths      `Path(name).name == name` of the managers
-- Files      paths of pathlib as the configurations use them
-- Settings   what the config.py of the three services share; Stt/Config, Llm/Config and Tts/Config
--            are stt/config.py, llm/config.py and tts/config.py
-- Catalogue  a directory as the list of its entries, and `list_available` of
--            stt/engines/whispercpp_engine.py and tts/engines/piper_engine.py
-- Providers  engines/factory.py of the three services
-- Cache      stt/engine_manager.py and tts/engine_manager.py, whose code agrees: each section under
--            `self._lock` is a function on the record `Cache` (`find_loaded`, `insert_loaded`,
--            `pin`, `release`, `unload`); Cache/Eviction is about `_evict_if_over_capacity`,
--            Cache/Sections about the sections, Cache/Recency about lists in the order of their
--            last requests, Cache/Threads about requests whose sections interleave, with an
--            abstract service of leases in Cache/Threads/Leases
-- Manager    `_get_or_load`, `get_engine` and `acquire_engine` for a request that runs alone;
--            Manager/Runs reads them as runs of the threads of Cache/Threads
-- Stt        Models (stt/engines/models.py, stt/exceptions.py), Samples and Audio
--            (stt/utils/audio.py), Whisper (stt/engines/whispercpp_engine.py, mock_engine.py;
--            Whisper/Lock is about the threads that share an engine and its `_model_lock`), Listing
--            (GET /models), Contract (stt/engines/base.py, with the promises that its engines
--            keep), Engines (the class methods of stt/engines/ and stt/engine_manager.py over
--            them), Servicer (stt/grpc_servicer.py, stt/pb_convert.py; Servicer/Refusals is about
--            the exceptions for the format of the audio), Socket (the websocket of
--            stt/api/routes.py), Upload (its upload route, stt/api/models.py and the WAV source of
--            stt/engines/audio_sources.py), Startup (the warm-up of stt/main.py)
-- Llm        Models (llm/exceptions.py), Chunker (llm/utils/chunker.py), Ollama
--            (llm/engines/ollama_engine.py, mock_engine.py; Ollama/Checks is about readiness checks
--            that interleave), Chat (llm/grpc_servicer.py, llm/api/routes.py,
--            llm/engine_manager.py), Lines (the body of /chat/stream, character by character, with
--            a reader of its own in Lines/Reader), Engines (the engines of llm/engines/ as the chat
--            sees them), Personality (the prompt in llm/engine_manager.py)
-- Tts        Bridge (tts/utils/async_io.py), Relay (the loop of tts/grpc_servicer.py over it),
--            Models (tts/engines/models.py, tts/exceptions.py, tts/output/wav_encoder.py), Markdown
--            (tts/utils/text.py), Piper (tts/engines/piper_engine.py), Engines
--            (tts/engine_manager.py over it), Sinks (tts/output/http.py, buffer.py, host.py,
--            tts/play_stream.py), Service (tts/grpc_servicer.py, POST /tts of tts/api/routes.py),
--            Listing (GET /voices), Contract (tts/engines/base.py), Socket (its websocket)
-- Serving    the life of a process: main.py and grpc_server.py of the three services.
--            Serving/Services is what each of them starts
--
-- A stream of requests is the list of messages that arrive, a generator the list of what it yields
-- with the exception that ends it, if one does. Loops are structural recursion on these lists. On
-- fuel run the loop that reads a WAV file, with one more than the file has bytes, of which each
-- round takes at least one; the digits of a number, with one more than the number, which each round
-- divides by ten; and the reader of a JSON string, with one more than the characters, of which each
-- round takes at least one. The names of exceptions that Python raises by itself (KeyError, a
-- division by zero) are results like any other. Parameters stand for what is not in the repository:
-- the native speech model and voice, the Ollama client and its clock, `wave`, `tomllib`, the
-- loading of an engine, numpy's rounding and interpolation, the calls of grpc and uvicorn, by how
-- they end, and the Unicode tables of `lower`, `upper` and `isdigit`.
--
-- Numbers are natural numbers where the wire has int32, without the negative ones; a capacity below
-- zero acts as 0. Not modelled are logging, the transport, the temporary file of an upload, the
-- text of numpy's errors, the inside of the servers of grpc and uvicorn, the generated protocol
-- code and the gateway in Go.
pub mod Base
pub mod Paths
pub mod Files
pub mod Settings
pub mod Catalogue
pub mod Providers
pub mod Cache
pub mod Manager
pub mod Stt
pub mod Llm
pub mod Tts
pub mod Serving
