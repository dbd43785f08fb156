-- ===== src/Stt/Startup/Laws.antt =====
-- When the process serves.
use bibi_core.Base.{
  ℕ, ◌≡◌, ◌≢◌, ◌↔◌, refl, sym, ap, ◌∙◌, ◌⊎◌, inl, inr, Bool, true, false, none, List, [], Text,
  Text-discrete, codes, ok, raise, raise_ok, lookup, Bool-cases, if_neg, keys,
}
use bibi_core.Paths.{is_plain}
use bibi_core.Catalogue.{Entry, whisper_available}
use bibi_core.Catalogue.Laws.{IsMember, HasFiles, IsUsable}
use bibi_core.Manager.{Manager, or_default, get_engine}
use bibi_core.Manager.Laws.{IsManager, get_or_load_new, get_or_load_refused}
use bibi_core.Providers.{
  SttProvider, whispercpp, mock, unknown_provider, provider_class, stt_providers,
  stt_provider_class,
}
use bibi_core.Stt.Models.{model_not_found, unexpected, Try}
use bibi_core.Stt.Engines.{list_available, path_of, load_engine, get_model, new_manager}
use bibi_core.Stt.Engines.Laws.{get_model_iff}
use bibi_core.Stt.Startup.{warmed, warm_up, start_up}

whisper_class : stt_provider_class (codes "whispercpp") ≡ ok whispercpp
unfolding stt_provider_class provider_class lookup Text-discrete
whisper_class = refl

mock_class : stt_provider_class (codes "mock") ≡ ok mock
unfolding stt_provider_class provider_class lookup Text-discrete
mock_class = refl

provider_class-none :
    {P : Type 0} (service : Text) (registry : List (Text × P)) (p : Text)
    → lookup Text-discrete p registry ≡ none
    → provider_class service registry p ≡ raise (unknown_provider service p (keys registry))
unfolding provider_class
provider_class-none service registry p h = rw (h, provider_class) refl

not_registered :
    (p : Text)
    → p ≢ codes "whispercpp"
    → p ≢ codes "mock"
    → lookup Text-discrete p stt_providers ≡ none
unfolding lookup
not_registered p no_whisper no_mock =
    if_neg (Text-discrete p (codes "whispercpp")) no_whisper _ _
    ∙ if_neg (Text-discrete p (codes "mock")) no_mock _ _

other_class :
    (p : Text)
    → p ≢ codes "whispercpp"
    → p ≢ codes "mock"
    → stt_provider_class p ≡ raise (unknown_provider (codes "STT") p (keys stt_providers))
unfolding stt_provider_class
other_class p no_whisper no_mock =
    provider_class-none (codes "STT") stt_providers p (not_registered p no_whisper no_mock)

names_differ : codes "whispercpp" ≢ codes "mock"
names_differ h = cc

iff_trans : {A B C : Type 0} → A ↔ B → B ↔ C → A ↔ C
iff_trans f g = (λ a. g.0 (f.0 a), λ c. f.1 (g.1 c))

warmed_iff :
    {E : Type 0} (cls : SttProvider) (r : Manager E × Try E)
    → ((started : SttProvider × Manager E) × (warmed cls r ≡ ok started)) ↔ ((f : E) × (r.1 ≡ ok f))
unfolding warmed
warmed_iff cls (m, raise x) = (λ h. absurd (raise_ok h.1), λ h. absurd (raise_ok h.1))
warmed_iff cls (m, ok e) = (λ h. (e, refl), λ h. ((cls, m), refl))

-- The manager before any request.
abbrev empty : {E : Type 0} → Text → ℕ → Manager E
empty default max_loaded = record {
  default = default;
  cache = record { engines = []; refs = []; max_loaded = max_loaded };
}

empty-IsManager :
    {E : Type 0} (default : Text) (max_loaded : ℕ) → IsManager {E = E} (empty default max_loaded)
unfolding lookup
empty-IsManager default max_loaded = record { engines = tt; refs = tt; positive = λ j e. cc }

true_false : ◌≢◌ {A = Bool} true false
true_false h = cc

module _ {E : Type 0} (make : SttProvider → Text → Try E) (entries : List Entry) where
  -- The model is there for the class.
  abbrev pub IsThere : SttProvider → Text → Type 0
  IsThere whispercpp name = IsMember name (whisper_available entries)
  IsThere mock name = Unit

  mock_returns :
      (name : Text) (m : Manager E)
      → IsManager m
      → is_plain name ≡ true
      → lookup Text-discrete name m.cache.engines ≡ none
      → (e : E) → make mock name ≡ ok e
      → (f : E) × ((get_model make mock entries m name).1 ≡ ok f)
  unfolding get_model load_engine path_of
  mock_returns name m v plain fresh e made = (
    e,
    rw
        (get_or_load_new model_not_found (unexpected (codes "KeyError"))
          (load_engine make mock entries) m name e v plain fresh made)
        refl,
  )

  refused :
      (cls : SttProvider) (m : Manager E) (name : Text) (f : E)
      → is_plain name ≡ false
      → (get_model make cls entries m name).1 ≢ ok f
  unfolding get_model
  refused cls m name f bad h = raise_ok (
      rw
        (get_or_load_refused model_not_found (unexpected (codes "KeyError"))
          (load_engine make cls entries) m name bad)
        at h)

  plain_iff :
      (cls : SttProvider) (default : Text) (max_loaded : ℕ)
      → HasFiles entries
      → IsUsable default
      → is_plain default ≡ true
      → ((p : Text) → (e : E) × (make cls p ≡ ok e))
      → ((f : E) × ((get_model make cls entries (empty default max_loaded) default).1 ≡ ok f))
        ↔ ((is_plain default ≡ true) × IsThere cls default)
  unfolding lookup list_available
  plain_iff whispercpp default max_loaded files usable plain makes =
      let (listed, loads) =
        get_model_iff make entries (empty default max_loaded) default files usable plain
          (empty-IsManager default max_loaded) refl makes in
      (λ h. (plain, loads h), λ h. listed h.1)
  plain_iff mock default max_loaded files usable plain makes =
      let (e, made) = makes default in
      (
        λ h. (plain, tt),
        λ h.
            mock_returns default (empty default max_loaded) (empty-IsManager default max_loaded)
              plain refl e made,
      )

  class_iff :
      (cls : SttProvider) (default : Text) (max_loaded : ℕ)
      → HasFiles entries
      → IsUsable default
      → ((p : Text) → (e : E) × (make cls p ≡ ok e))
      → ((f : E) × ((get_model make cls entries (empty default max_loaded) default).1 ≡ ok f))
        ↔ ((is_plain default ≡ true) × IsThere cls default)
  class_iff cls default max_loaded files usable makes = elim (Bool-cases (is_plain default)) [
    | inr bad ↦ (
      λ h. absurd (refused cls (empty default max_loaded) default h.0 bad h.1),
      λ h. absurd (true_false (sym h.0 ∙ bad)),
    )
    | inl plain ↦ plain_iff cls default max_loaded files usable plain makes
  ]

  start_up_class :
      (cls : SttProvider) (provider default : Text) (max_loaded : ℕ)
      → stt_provider_class provider ≡ ok cls
      → start_up make entries provider default max_loaded
        ≡ warmed cls (get_model make cls entries (empty default max_loaded) default)
  unfolding start_up new_manager warm_up get_engine get_model or_default
  start_up_class cls provider default max_loaded found = rw (found, start_up) refl

  start_up_other :
      (provider default : Text) (max_loaded : ℕ) (t : Text) (started : SttProvider × Manager E)
      → stt_provider_class provider ≡ raise t
      → start_up make entries provider default max_loaded ≢ ok started
  unfolding start_up new_manager
  start_up_other provider default max_loaded t started unknown h =
      raise_ok (rw (unknown, start_up) at h)

  -- When the directory holds files only, the default name has a character that is no point and
  -- is not points followed by ".bin", and the constructors of the engines take every path, the
  -- speech-to-text process gets past its warm-up exactly if the default name is plain and
  -- either the provider is "whispercpp" and lists that name, or the provider is "mock"; any
  -- other provider ends it.
  pub start_up_iff :
      (provider default : Text) (max_loaded : ℕ)
      → HasFiles entries
      → IsUsable default
      → ((cls : SttProvider) (p : Text) → (e : E) × (make cls p ≡ ok e))
      → ((started : SttProvider × Manager E) × (start_up make entries provider default max_loaded
            ≡ ok started))
        ↔ ((is_plain default ≡ true)
            × (((provider ≡ codes "whispercpp") × IsMember default (whisper_available entries))
                ⊎ (provider ≡ codes "mock")))
  start_up_iff provider default max_loaded files usable makes =
      let started_iff : (cls : SttProvider)
          → stt_provider_class provider ≡ ok cls
          → ((started : SttProvider × Manager E) × (start_up make entries provider default
                  max_loaded
                ≡ ok started))
            ↔ ((is_plain default ≡ true) × IsThere cls default) =
        λ cls found. rw (start_up_class cls provider default max_loaded found) (
          iff_trans (warmed_iff cls (get_model make cls entries (empty default max_loaded) default))
            (class_iff cls default max_loaded files usable (makes cls))) in
      elim (Text-discrete provider (codes "whispercpp")) [
        | yes same ↦
            let (there, starts) =
              started_iff whispercpp (ap stt_provider_class same ∙ whisper_class) in
            (
              λ h. let (plain, listed) = there h in (plain, inl (same, listed)),
              λ h.
                  starts
                    (h.0, elim h.1 [ inl w ↦ w.1 | inr m ↦ absurd (names_differ (sym same ∙ m)) ]),
            )
        | no no_whisper ↦ elim (Text-discrete provider (codes "mock")) [
          | yes same ↦
              let (there, starts) = started_iff mock (ap stt_provider_class same ∙ mock_class) in
              (λ h. let (plain, _) = there h in (plain, inr same), λ h. starts (h.0, tt))
          | no no_mock ↦
              let unknown = other_class provider no_whisper no_mock in
              (
                λ h. absurd (start_up_other provider default max_loaded _ h.0 unknown h.1),
                λ h. elim h.1 [ inl w ↦ absurd (no_whisper w.0) | inr m ↦ absurd (no_mock m) ],
              )
        ]
      ]
