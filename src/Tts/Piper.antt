-- ===== src/Tts/Piper.antt =====
-- tts/engines/piper_engine.py. The voice is a parameter: what it synthesizes from a text, and what
-- `PiperVoice.load` makes of a path.
pub mod Laws
mod Tests
use bibi_core.Base.{
  ℕ, Bool, true, false, not, Option, none, some, List, [], ◌∷◌, ◌++◌, map, if◌then◌else◌, Text,
  codes, Result, ok, raise, ◌>>=◌,
}
use bibi_core.Files.{FilePath, to_path, join, path_str}
use bibi_core.Catalogue.{Entry, is_file, exists_in}
use bibi_core.Tts.Models.{AudioChunk, TtsError, voice_not_found, Try, Stream}
use bibi_core.Tts.Markdown.{strip_markdown}

-- A chunk of the native voice.
pub record NativeChunk : Type 0 where
  pub audio_int16_bytes : List ℕ
  pub sample_rate : ℕ
  pub sample_channels : ℕ
  pub sample_width : ℕ

-- `f"{voice_path}"`, for a name in the directory
unfoldable pub shown_path : FilePath → Text → Text
unfolding path_str join to_path
shown_path directory name = path_str (join directory (to_path name))

-- `PiperEngine.resolve_path`; a path in the directory is given by its name.
unfoldable pub resolve_path : FilePath → List Entry → Text → Try Text
unfolding shown_path is_file exists_in
resolve_path directory entries name =
    if not (is_file entries name)
    then raise (voice_not_found (codes "Voice not found: " ++ shown_path directory name))
    else if not (exists_in entries (name ++ codes ".json"))
    then raise (
        voice_not_found
          (codes "Missing voice config: " ++ (shown_path directory name ++ codes ".json")))
    else ok name

-- `PiperEngine.__init__`
unfoldable pub load_voice : {V : Type 0} → (Text → Try V) → FilePath → List Entry → Text → Try V
unfolding shown_path exists_in
load_voice load directory entries name =
    if not (exists_in entries name)
    then raise (voice_not_found (codes "Voice model not found: " ++ shown_path directory name))
    else load name

-- What a manager does for a voice that is not loaded.
unfoldable pub load_engine : {V : Type 0} → (Text → Try V) → FilePath → List Entry → Text → Try V
unfolding resolve_path load_voice
load_engine load directory entries name =
    resolve_path directory entries name >>= load_voice load directory entries

unfoldable pub to_chunk : NativeChunk → AudioChunk
to_chunk c = record {
  bytes = c.audio_int16_bytes;
  sample_rate = c.sample_rate;
  channels = c.sample_channels;
  sample_width = c.sample_width;
}

-- `PiperEngine.stream`
unfoldable pub stream :
    {V : Type 0} → (V → Text → List NativeChunk × Option TtsError) → V → Text → Stream
unfolding to_chunk strip_markdown
stream synthesize voice text =
    let (chunks, end) = synthesize voice (strip_markdown text) in (map to_chunk chunks, end)
