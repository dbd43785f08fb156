-- ===== src/Stt/Upload/Laws.antt =====
-- The blocks of a WAV file, and what an upload leaves.
use bibi_core.Base.{
  ℕ, zero, suc, ◌*◌, ◌≤◌, ◌<◌, ◌≡◌, ◌≢◌, refl, ap, ◌∙◌, Bool, true, false, Option, List, [], ◌∷◌,
  ◌++◌, map, ok, raise, arith, Text, codes, All, length,
}
use bibi_core.Manager.{Manager, or_default, get_or_load}
use bibi_core.Manager.Laws.{IsManager}
use bibi_core.Manager.Acquire.{SameCounts, acquire_engine_balanced}
use bibi_core.Stt.Models.{
  AudioChunk, AudioFormatSpec, Transcript, SttError, model_not_found, unexpected, Try,
}
use bibi_core.Stt.Audio.{Resampler}
use bibi_core.Stt.Whisper.Laws.{join_bytes}
use bibi_core.Stt.Upload.{
  WavFile, take_bytes, drop_bytes, read_blocks, wav_chunk, wav_chunks, http_error, responded,
  is_wav_type, transcribe_file, upload,
}

take_drop : (n : ℕ) (bs : List ℕ) → take_bytes n bs ++ drop_bytes n bs ≡ bs
unfolding take_bytes drop_bytes
take_drop zero bs = refl
take_drop (suc n) [] = refl
take_drop (suc n) (b ∷ bs) = ap (λ t. b ∷ t) (take_drop n bs)

length-drop_bytes : (n : ℕ) (bs : List ℕ) → length (drop_bytes n bs) ≤ length bs
unfolding drop_bytes
length-drop_bytes zero bs = omega arith
length-drop_bytes (suc n) [] = omega arith
length-drop_bytes (suc n) (b ∷ bs) = omega (arith, length-drop_bytes n bs)

length-take_bytes : (n : ℕ) (bs : List ℕ) → length (take_bytes n bs) ≤ n
unfolding take_bytes
length-take_bytes zero bs = omega arith
length-take_bytes (suc n) [] = omega arith
length-take_bytes (suc n) (b ∷ bs) = omega (arith, length-take_bytes n bs)

-- A chunk of a file: in its format, not empty, and of 4096 frames at most.
abbrev pub IsBlock : WavFile → AudioChunk → Type 0
IsBlock w c =
    (c.sample_rate ≡ w.sample_rate)
    × (c.channels ≡ w.channels)
    × (c.sample_width ≡ w.sample_width)
    × (c.bytes ≢ [])
    × (length c.bytes ≤ 4096 * (w.channels * w.sample_width))

read_blocks_lem :
    (w : WavFile) (fuel n : ℕ) (bs : List ℕ)
    → length bs < fuel
    → suc n ≡ 4096 * (w.channels * w.sample_width)
    → (join_bytes (map (wav_chunk w) (read_blocks fuel (suc n) bs)) ≡ bs)
      × All (IsBlock w) (map (wav_chunk w) (read_blocks fuel (suc n) bs))
unfolding read_blocks wav_chunk join_bytes take_bytes drop_bytes
read_blocks_lem w zero n bs le size = absurd (omega arith)
read_blocks_lem w (suc fuel) n [] le size = (refl, tt)
read_blocks_lem w (suc fuel) n (b ∷ bs) le size =
    let (joined, blocks) =
      read_blocks_lem w fuel n (drop_bytes n bs) (omega (arith, length-drop_bytes n bs)) size in
    (
      ap (λ t. b ∷ t) (ap (λ t. take_bytes n bs ++ t) joined ∙ take_drop n bs),
      ((refl, refl, refl, λ e. cc, omega (arith, length-take_bytes n bs)), blocks),
    )

-- For a WAV file with at least one channel and one byte per sample, the chunks of its source
-- joined give back the frames of the file, and every chunk has the format of the file, is not
-- empty and holds 4096 frames at most.
pub wav_chunks_lem :
    (w : WavFile)
    → 0 < w.channels * w.sample_width
    → (join_bytes (wav_chunks w) ≡ w.frames) × All (IsBlock w) (wav_chunks w)
unfolding wav_chunks
wav_chunks_lem w some_size = at_size (4096 * (w.channels * w.sample_width)) refl
  where
    at_size :
        (size : ℕ)
        → size ≡ 4096 * (w.channels * w.sample_width)
        → (join_bytes (map (wav_chunk w) (read_blocks (suc (length w.frames)) size w.frames))
            ≡ w.frames)
          × All (IsBlock w) (map (wav_chunk w) (read_blocks (suc (length w.frames)) size w.frames))
    at_size zero e = absurd (omega (arith, e))
    at_size (suc n) e = read_blocks_lem w (suc (length w.frames)) n w.frames (omega arith) e

module _ {E F : Type 0} (np : Resampler) (required : Option AudioFormatSpec)
    (transcribe : E → List AudioChunk → Try (Transcript F)) (load : Text → Try E)
    (open_wav : List ℕ → Try WavFile) (is_nan : F → Bool) where
  abbrev pub engine_for : Manager E → Option Text → Manager E × Try E
  engine_for m model =
      get_or_load model_not_found (unexpected (codes "KeyError")) load m
        (or_default model m.default)

  -- For a manager in order, POST /transcribe leaves it in order with every count as before;
  -- another content type than WAV is answered with 400 and the manager untouched; otherwise the
  -- answer is that for the exception of _get_or_load, or, with an engine, that for the
  -- transcription of the file.
  pub upload_lem :
      (m : Manager E) (content_type : Text) (model : Option Text) (content : List ℕ)
      → IsManager m
      → let g = engine_for m model in
        let out = upload np required transcribe load open_wav is_nan m content_type model content in
        IsManager out.0
        × SameCounts m out.0
        × ((is_wav_type content_type ≡ false)
            → (out.0 ≡ m) × (out.1 ≡ http_error 400 [] (codes "Only wav files are supported")))
        × ((is_wav_type content_type ≡ true)
            → ((x : SttError) → g.1 ≡ raise x → out.1 ≡ responded is_nan (raise x))
              × ((e : E)
                  → g.1 ≡ ok e
                  → out.1
                    ≡ responded is_nan
                        (transcribe_file np required transcribe load open_wav is_nan e content)))
  unfolding upload
  upload_lem m content_type model content v =
      let body : Manager E → E → Manager E × Try (Transcript F) =
        λ held e. (held, transcribe_file np required transcribe load open_wav is_nan e content) in
      let (kept, same, raised, returned) =
        acquire_engine_balanced model_not_found (unexpected (codes "KeyError")) load body m model
          (λ held e w. (w, λ j. refl)) v in
      (
        ground (arith, kept, v),
        λ j. ground (arith, same j),
        λ other. (rw other, rw other),
        λ wav. (
          λ x h. rw wav (ap (responded is_nan) (raised x h)),
          λ e h. rw wav (ap (responded is_nan) (returned e h)),
        ),
      )
