-- ===== src/Tts/Contract.antt =====
-- `TTSEngine` of tts/engines/base.py: the operations of an engine class, what its docstrings promise of
-- them, and the two engines of tts/engines/, which keep it.
mod Tests
use bibi_core.Base.{
  ◌≡◌, refl, List, [], ◌∷◌, Text, Text-discrete, codes, ok, true, Option, none, lookup,
  bind_returns, ◌>>=◌,
}
use bibi_core.Paths.{is_plain}
use bibi_core.Files.{FilePath}
use bibi_core.Catalogue.{Entry, piper_available}
use bibi_core.Catalogue.Laws.{IsMember, HasFiles}
use bibi_core.Manager.{Manager, get_or_load}
use bibi_core.Manager.Laws.{IsManager, get_or_load_new}
use bibi_core.Tts.Models.{TtsError, Try, Stream, mock_stream}
use bibi_core.Tts.Piper
use bibi_core.Tts.Piper.{NativeChunk, load_engine}
use bibi_core.Tts.Piper.Laws.{piper_available-load_engine}
use bibi_core.Tts.Service.{voice_error, key_error}

pub record TtsEngine (E : Type 0) : Type 0 where
  pub list_available : List Entry → List Text
  pub resolve_path : FilePath → List Entry → Text → Try Text
  pub stream : E → Text → Stream

-- "Names of voices this provider can load"
pub record IsTtsEngine {E : Type 0} (c : TtsEngine E) : Type 0 where
  pub loads :
      (directory : FilePath) (entries : List Entry) (name : Text)
      → HasFiles entries
      → IsMember name (c.list_available entries)
      → (path : Text) × (c.resolve_path directory entries name ≡ ok path)

-- `PiperEngine`
unfoldable pub piper_engine :
    {V : Type 0} → (V → Text → List NativeChunk × Option TtsError) → TtsEngine V
unfolding piper_available Piper.resolve_path Piper.stream
piper_engine synthesize = record {
  list_available = piper_available;
  resolve_path = Piper.resolve_path;
  stream = Piper.stream synthesize;
}

-- `MockEngine`
unfoldable pub mock_engine : {E : Type 0} → TtsEngine E
unfolding mock_stream
mock_engine = record {
  list_available = λ entries. codes "mock" ∷ [];
  resolve_path = λ directory entries name. ok name;
  stream = λ e text. mock_stream text;
}

-- Piper lists no voice whose files it does not find.
pub piper_engine-IsTtsEngine :
    {V : Type 0} (synthesize : V → Text → List NativeChunk × Option TtsError)
    → IsTtsEngine (piper_engine synthesize)
unfolding piper_engine load_engine
piper_engine-IsTtsEngine synthesize = record {
  loads = λ directory entries name files listed.
      let loaded =
        piper_available-load_engine {V = Text} (λ p. ok p) directory entries name files listed in
      let (path, resolved, _) = bind_returns (Piper.resolve_path directory entries name) _ loaded in
      (path, resolved);
}

pub mock_engine-IsTtsEngine : {E : Type 0} → IsTtsEngine {E = E} mock_engine
unfolding mock_engine
mock_engine-IsTtsEngine = record { loads = λ directory entries name files listed. (name, refl) }

module _ {E : Type 0} (c : TtsEngine E) where
  -- A listed voice that is not loaded is handed out, if the constructor takes its path.
  pub listed_served :
      (make : Text → Try E) (directory : FilePath) (entries : List Entry) (m : Manager E)
      (name : Text)
      → IsTtsEngine c
      → HasFiles entries
      → IsMember name (c.list_available entries)
      → is_plain name ≡ true
      → IsManager m
      → lookup Text-discrete name m.cache.engines ≡ none
      → ((path : Text) → (e : E) × (make path ≡ ok e))
      → (e : E) × ((get_or_load voice_error key_error
            (λ n. c.resolve_path directory entries n >>= make)
            m
            name).1
          ≡ ok e)
  listed_served make directory entries m name law files listed plain v fresh makes =
      let (path, resolved) = law.loads directory entries name files listed in
      let (e, made) = makes path in
      let loaded : (c.resolve_path directory entries name >>= make) ≡ ok e =
        rw (resolved, made) refl in
      (
        e,
        rw
            (get_or_load_new voice_error key_error
              (λ n. c.resolve_path directory entries n >>= make) m name e v plain fresh loaded)
            refl,
      )
