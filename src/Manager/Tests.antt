-- ===== src/Manager/Tests.antt =====
-- Runs of the engine managers: engines are numbers, a load gives the length of the name.
use bibi_core.Base.{
  ℕ, ◌≡◌, refl, Text, codes, true, some, Result, ok, raise, [], ◌∷◌, length, lookup, ◌↔◌, ◌≢◌, sym,
  Text-discrete, arith,
}
use bibi_core.Base.Texts.Laws.{Avoids}
use bibi_core.Paths.{is_plain, is_plain_iff}
use bibi_core.Cache.Threads.{System, idle, Reach, here, start}
use bibi_core.Manager.{Manager, or_default, get_or_load, acquire_engine}
use bibi_core.Manager.Laws.{IsManager, Got, get_or_load_lem}
use bibi_core.Manager.Runs.{Run, stop, Runs, manager, get_or_load-Runs, acquire_engine-Runs}
use bibi_core.Manager.Acquire.{SameCounts, acquire_engine_balanced}

abbrev not_found : Text → Text
not_found name = name

abbrev load : Text → Result Text ℕ
load name = ok (length name)

abbrev base_loaded : Manager ℕ
base_loaded = record {
  default = codes "base";
  cache = record { engines = (codes "base", 4) ∷ []; refs = []; max_loaded = 1 };
}

base_IsManager : IsManager base_loaded
unfolding lookup
base_IsManager = record { engines = (refl, tt); refs = tt; positive = λ j. λ e. cc }

abbrev body : Manager ℕ → ℕ → Manager ℕ × Result Text ℕ
body m e = (m, raise (codes "failed"))

is_plain_iff_run :
    (is_plain (codes "..") ≡ true) ↔ (Avoids b'/' (codes "..") × (codes ".." ≢ codes "."))
is_plain_iff_run = is_plain_iff (codes "..")

get_or_load_lem_run :
    Got not_found
      (codes "KeyError")
      load
      base_loaded
      (codes "tiny")
      (get_or_load not_found (codes "KeyError") load base_loaded (codes "tiny"))
get_or_load_lem_run =
    get_or_load_lem not_found (codes "KeyError") load base_loaded (codes "tiny") base_IsManager

acquire_engine_balanced_example :
    let g = get_or_load not_found (codes "KeyError") load base_loaded (codes "tiny") in
    let out =
      acquire_engine not_found (codes "KeyError") load body base_loaded (some (codes "tiny")) in
    IsManager out.0
    × SameCounts base_loaded out.0
    × ((x : Text) → g.1 ≡ raise x → out.1 ≡ raise x)
    × ((e : ℕ) → g.1 ≡ ok e → out.1 ≡ raise (codes "failed"))
unfolding or_default
acquire_engine_balanced_example =
    acquire_engine_balanced not_found (codes "KeyError") load body base_loaded (some (codes "tiny"))
      (λ m e v. (v, λ j. refl)) base_IsManager

abbrev idle_threads : System Text ℕ
idle_threads = start Text-discrete 1

start_Reach : Reach Text-discrete 2 1 idle_threads
start_Reach = here

get_or_load-Runs_run :
    Runs not_found
      (codes "KeyError")
      load
      start_Reach
      0
      (omega arith)
      refl
      []
      (codes "tiny")
      (get_or_load not_found (codes "KeyError") load (manager [] idle_threads) (codes "tiny"))
get_or_load-Runs_run =
    get_or_load-Runs not_found (codes "KeyError") load start_Reach 0 (omega arith) refl []
      (codes "tiny")

acquire_engine-Runs_example :
    (t : System Text ℕ) × Run 2 idle_threads t
    × (t.cache
        ≡ (acquire_engine not_found
            (codes "KeyError")
            load
            body
            (manager [] idle_threads)
            (some (codes "tiny"))).0.cache)
    × (t.threads 0 ≡ idle)
acquire_engine-Runs_example =
    acquire_engine-Runs not_found (codes "KeyError") load body 0 (omega arith) (some (codes "tiny"))
      [] (λ m name e t r at same. (t, stop, sym same, at)) start_Reach refl
