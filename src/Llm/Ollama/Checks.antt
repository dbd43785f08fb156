-- ===== src/Llm/Ollama/Checks.antt =====
-- `ensure_model_available` of the coroutines that share an engine: each reads the clock, and if it has
-- to ask Ollama the others run until the answer is there.
pub mod Laws
mod Tests
use bibi_core.Base.{ℕ, ◌≤◌, ◌≡◌, true, false, Option, none, some, ite, ℕ_discrete, Text}
use bibi_core.Llm.Ollama.{OllamaEngine, Listing, is_fresh, check_listing}
use bibi_core.Llm.Ollama.Laws.{IsListed}

-- Where a check stands.
pub data Phase : Type 0 where
  idle : Phase
  -- `client.list()` is awaited, and `now` was this
  asking : ℕ → Phase

pub record Checking : Type 0 where
  pub engine : OllamaEngine
  pub clock : ℕ
  pub phase : ℕ → Phase

-- Coroutine `i` is in a new phase.
abbrev pub update : (ℕ → Phase) → ℕ → Phase → ℕ → Phase
update phases i p j = ite (ℕ_discrete i j) p (phases j)

abbrev pub answer : Checking → ℕ → ℕ → Listing → Checking
answer s i now listing = record {
  engine = (check_listing s.engine now listing).0;
  clock = s.clock;
  phase = update s.phase i idle;
}

abbrev pub begin : Text → ℕ → ℕ → Checking
begin model ttl time = record {
  engine = record { model = model; ttl = ttl; last_checked_at = none };
  clock = time;
  phase = λ _. idle;
}

-- One step; `P` holds at every time at which Ollama lists the model.
module _ (P : ℕ → Type 0) where
  pub data Step (s : Checking) : Checking → Type 0 where
    tick : (later : ℕ) → s.clock ≤ later → Step s (record s { clock = later })
    -- the check is skipped
    skipped : (i : ℕ) → s.phase i ≡ idle → is_fresh s.engine s.clock ≡ true → Step s s
    asked :
        (i : ℕ)
        → s.phase i ≡ idle
        → is_fresh s.engine s.clock ≡ false
        → Step s (record s { phase = update s.phase i (asking s.clock) })
    answered :
        (i now : ℕ) (listing : Listing)
        → s.phase i ≡ asking now
        → (IsListed s.engine listing → P s.clock)
        → Step s (answer s i now listing)
    -- the request of the coroutine is cancelled while it waits
    cancelled :
        (i now : ℕ) → s.phase i ≡ asking now → Step s (record s { phase = update s.phase i idle })

  pub data Reach (model : Text) (ttl time : ℕ) : Checking → Type 0 where
    here : Reach model ttl time (begin model ttl time)
    next : {s t : Checking} → Reach model ttl time s → Step s t → Reach model ttl time t
