-- ===== src/Tts/Relay/Tests.antt =====
-- A client that cancels after the first of two chunks.
use bibi_core.Base.{ℕ, ◌<◌, ◌≡◌, refl, Bool, Option, none, some, List, [], ◌∷◌, arith, leb}
use bibi_core.Tts.Models.{AudioChunk, TtsError}
use bibi_core.Tts.Bridge.{reading, Bridge, put_item}
use bibi_core.Tts.Bridge
use bibi_core.Tts.Bridge.Progress.{work}
use bibi_core.Tts.Service.{send_loop}
use bibi_core.Tts.Relay.{Relay, Step, produced, passed_on, gave_up, Reach, here, next}
use bibi_core.Tts.Relay.Laws.{relayed}

abbrev sound : ℕ → AudioChunk
sound n = record { bytes = n ∷ 0 ∷ []; sample_rate = 22050; channels = 1; sample_width = 2 }

abbrev source : List AudioChunk
source = sound 1 ∷ sound 2 ∷ []

abbrev after_one : ℕ → Bool
after_one i = leb 1 i

abbrev cut_off : Relay
cut_off = record {
  bridge = record (Bridge.start source none) { pending = []; yielded = source };
  sent = sound 1 ∷ [];
  ended = some none;
}

cut_off-Reach : Reach after_one source none cut_off
cut_off-Reach =
    next
      (next
        (next (next here (produced _ (put_item (sound 1) (sound 2 ∷ []) refl refl (omega arith))))
          (passed_on (sound 1) [] refl refl refl refl))
        (produced _ (put_item (sound 2) [] refl refl (omega arith))))
      (gave_up (sound 2) [] refl refl refl refl)

relayed_example :
    ((x : Option TtsError)
      → cut_off.ended ≡ some x
      → send_loop after_one 0 source none ≡ (cut_off.sent, x))
    × (cut_off.ended ≡ none
        → cut_off.bridge.consumer ≡ reading
        → (t : Relay) × Step after_one cut_off t × (work t.bridge < work cut_off.bridge))
relayed_example = relayed after_one source none cut_off-Reach
