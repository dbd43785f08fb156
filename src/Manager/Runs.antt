-- ===== src/Manager/Runs.antt =====
-- The methods of a manager, which Manager.antt composes of the sections, as runs of the threads of
-- Cache/Threads.antt: what an uninterrupted request does is one of the interleavings.
use bibi_core.Base.{
  ℕ, ◌<◌, ◌≡◌, refl, sym, ◌∙◌, ◌≢◌, if_pos, Text, Text-discrete, Option, none, some, Result, ok,
  raise, lookup, IsDict, ℕ_discrete, arith, ap,
}
use bibi_core.Cache.{Cache, find_loaded, insert_loaded, evict_if_over_capacity, pin}
use bibi_core.Cache.Sections.{touched, first_loaded, insert_loaded_lem}
use bibi_core.Cache.Threads.{
  Phase, idle, loading, got, using, System, moved, Step, hit, miss, load_failed, loaded, pinned,
  released, Reach, next,
}
use bibi_core.Cache.Threads.Invariant.{Reach-Inv}
use bibi_core.Cache.Threads.Safety.{release_returns}
use bibi_core.Manager.{Manager, or_default, get_or_load, leave, enter, acquire_engine}
use bibi_core.Manager.Laws.{get_or_load_cases}

-- Steps in a row.
pub data Run {E : Type 0} (n : ℕ) (s : System Text E) : System Text E → Type 0 where
  stop : Run n s s
  then : {t u : System Text E} → Run n s t → Step Text-discrete n t u → Run n s u

module _ {E : Type 0} {n : ℕ} where
  pub Run-append : {s t u : System Text E} → Run n s t → Run n t u → Run n s u
  Run-append a stop = a
  Run-append a (then b st) = then (Run-append a b) st

  pub Reach-Run :
      {most : ℕ} {s t : System Text E}
      → Reach Text-discrete n most s
      → Run n s t
      → Reach Text-discrete n most t
  Reach-Run r stop = r
  Reach-Run r (then a st) = next (Reach-Run r a) st

-- Where a request stands when `_get_or_load` is done.
abbrev pub outcome : {X E : Type 0} → Text → Result X E → Phase Text E
outcome name (ok e) = got name e
outcome name (raise x) = idle

abbrev pub manager : {E : Type 0} → Text → System Text E → Manager E
manager default s = record { default = default; cache = s.cache }

module _ {E : Type 0} where
  pub moved_self :
      (s : System Text E) (c : Cache Text E) (i : ℕ) (p : Phase Text E)
      → (moved s c i p).threads i ≡ p
  moved_self s c i p = if_pos (ℕ_discrete i i) refl p (s.threads i)

  moved_other :
      (s : System Text E) (c : Cache Text E) (i j : ℕ) (p : Phase Text E)
      → j ≢ i
      → (moved s c i p).threads j ≡ s.threads j
  moved_other s c i j p ne = ground arith

  find_loaded_lem :
      (c : Cache Text E) (k : Text) (e : E)
      → lookup Text-discrete k c.engines ≡ some e
      → find_loaded Text-discrete c k ≡ some (touched Text-discrete c k e, e)
  unfolding find_loaded touched
  find_loaded_lem c k e h = rw (h, find_loaded)

  find_loaded_new :
      (c : Cache Text E) (k : Text)
      → lookup Text-discrete k c.engines ≡ none
      → find_loaded Text-discrete c k ≡ none
  unfolding find_loaded
  find_loaded_new c k h = rw (h, find_loaded)

  inserted :
      (c : Cache Text E) (k : Text) (e : E)
      → IsDict Text-discrete c.engines
      → lookup Text-discrete k c.engines ≡ none
      → insert_loaded Text-discrete c k e
        ≡ some (evict_if_over_capacity Text-discrete (touched Text-discrete c k e) (some k), e)
  unfolding first_loaded
  inserted c k e d h =
      let first : first_loaded Text-discrete c k e ≡ e = rw (h, first_loaded) in
      rw first at (insert_loaded_lem Text-discrete c k e d).0

module _ {X E : Type 0} (not_found : Text → X) (key_error : X) (load : Text → Result X E)
    {n most : ℕ} {s : System Text E} (r : Reach Text-discrete n most s) (i : ℕ) (run : i < n)
    (at : s.threads i ≡ idle) (default : Text) where
  -- A run of thread `i` alone, at the end of which the cache and the phase are these.
  abbrev pub Runs : Text → Manager E × Result X E → Type 0
  Runs name out =
      (t : System Text E) × Run n s t
      × (t.cache ≡ out.0.cache)
      × (t.threads i ≡ outcome name out.1)
      × ((j : ℕ) → j ≢ i → t.threads j ≡ s.threads j)

  -- In a reachable state, what _get_or_load does for a request that no other interrupts is a run
  -- of its thread alone: it ends with the cache that _get_or_load leaves and with the engine in
  -- hand, or idle if _get_or_load raises, and the other threads are where they were.
  pub get_or_load-Runs :
      (name : Text) → Runs name (get_or_load not_found key_error load (manager default s) name)
  get_or_load-Runs name =
      let v = Reach-Inv Text-discrete r in
      get_or_load_cases not_found key_error load (Runs name) (manager default s) name
        (record { engines = v.engines; refs = v.refs; positive = v.positive })
        (λ bad. (s, stop, refl, at, λ j ne. refl))
        (λ e old.
          let c = touched Text-discrete s.cache name e in
          (
            moved s c i (got name e),
            then stop (hit i name c e run at (find_loaded_lem s.cache name e old)),
            refl,
            moved_self s c i (got name e),
            λ j ne. moved_other s c i j (got name e) ne,
          ))
        (λ x good new l.
          let started = moved s s.cache i (loading name) in
          let asked = miss i name run at (find_loaded_new s.cache name new) in
          let busy = moved_self s s.cache i (loading name) in
          (
            moved started s.cache i idle,
            then (then stop asked) (load_failed i name run busy),
            refl,
            moved_self started s.cache i idle,
            λ j ne.
                moved_other started s.cache i j idle ne
                ∙ moved_other s s.cache i j (loading name) ne,
          ))
        (λ e new l.
          let started = moved s s.cache i (loading name) in
          let asked = miss i name run at (find_loaded_new s.cache name new) in
          let busy = moved_self s s.cache i (loading name) in
          let c =
            evict_if_over_capacity Text-discrete (touched Text-discrete s.cache name e)
              (some name) in
          (
            moved started c i (got name e),
            then (then stop asked)
                (loaded i name e e c run busy (inserted s.cache name e v.engines new)),
            refl,
            moved_self started c i (got name e),
            λ j ne.
                moved_other started c i j (got name e) ne
                ∙ moved_other s s.cache i j (loading name) ne,
          ))

-- The body of the `with` statement is what the threads do while thread `i` is inside.
abbrev pub IsInside :
    {X E A : Type 0} → (Manager E → E → Manager E × Result X A) → ℕ → ℕ → ℕ → Type 0
IsInside {E = E} body n most i =
    (m : Manager E) (name : Text) (e : E) (t : System Text E)
    → Reach Text-discrete n most t
    → t.threads i ≡ using name e
    → m.cache ≡ t.cache
    → (u : System Text E) × Run n t u
      × (u.cache ≡ (body m e).0.cache)
      × (u.threads i ≡ using name e)

-- A body that leaves the manager alone.
pub untouched-IsInside :
    {X E A : Type 0} (work : E → Result X A) (n most i : ℕ)
    → IsInside (λ (m : Manager E) e. (m, work e)) n most i
untouched-IsInside work n most i m name e t r at same = (t, stop, sym same, at)

module _ {X E A : Type 0} (not_found : Text → X) (key_error : X) (load : Text → Result X E)
    (body : Manager E → E → Manager E × Result X A) {n most : ℕ} (i : ℕ) (run : i < n) where
  leave-Runs :
      (out : Manager E × Result X A) (name : Text) (e : E) {u : System Text E}
      → Reach Text-discrete n most u
      → u.threads i ≡ using name e
      → u.cache ≡ out.0.cache
      → (t : System Text E) × Run n u t
        × (t.cache ≡ (leave not_found key_error load body name out).0.cache)
        × (t.threads i ≡ idle)
  unfolding leave
  leave-Runs (m, result) name e {u} r at same =
      let (c, released_c) = release_returns Text-discrete r i name e run at in
      (
        moved u c i idle,
        then stop (released i name e c run at released_c),
        rw (← same, released_c, leave),
        moved_self u c i idle,
      )

  enter-Runs :
      (g : Manager E × Result X E) (name : Text) {s t : System Text E}
      → IsInside body n most i
      → Reach Text-discrete n most s
      → Run n s t
      → t.cache ≡ g.0.cache
      → t.threads i ≡ outcome name g.1
      → (u : System Text E) × Run n s u
        × (u.cache ≡ (enter not_found key_error load body name g).0.cache)
        × (u.threads i ≡ idle)
  unfolding enter
  enter-Runs (m, raise x) name {t = t} inside r a same at = (t, a, same, at)
  enter-Runs (m, ok e) name {t = t} inside r a same at =
      let c = pin Text-discrete t.cache name in
      let held = then a (pinned i name e run at) in
      let (u, work, cache, still) =
        inside (record m { cache = pin Text-discrete m.cache name }) name e
          (moved t c i (using name e)) (Reach-Run r held) (moved_self t c i (using name e))
          (ap (λ d. pin Text-discrete d name) (sym same)) in
      let inner = Run-append held work in
      let (v, last, end, done) =
        leave-Runs (body (record m { cache = pin Text-discrete m.cache name }) e) name e
          (Reach-Run r inner) still cache in
      (v, Run-append inner last, end, done)

  -- In a reachable state, when what the body of the with statement does to the manager is a run
  -- of the threads that leaves this one inside, the whole of acquire_engine for a thread that
  -- is idle is a run of the threads: it ends with the cache that acquire_engine leaves, and
  -- with the thread idle again.
  pub acquire_engine-Runs :
      {s : System Text E} (name : Option Text) (default : Text)
      → IsInside body n most i
      → Reach Text-discrete n most s
      → s.threads i ≡ idle
      → (t : System Text E) × Run n s t
        × (t.cache
            ≡ (acquire_engine not_found key_error load body (manager default s) name).0.cache)
        × (t.threads i ≡ idle)
  unfolding acquire_engine
  acquire_engine-Runs {s} name default inside r at =
      let key = or_default name default in
      let (t, a, same, there, _) =
        get_or_load-Runs not_found key_error load r i run at default key in
      enter-Runs (get_or_load not_found key_error load (manager default s) key) key inside r a same
        there
