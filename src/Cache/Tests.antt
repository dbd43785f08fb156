-- ===== src/Cache/Tests.antt =====
-- Runs of the engine cache: two requests, a capacity of one.
use bibi_core.Base.{
  ℕ, ◌≡◌, ◌<◌, ◌≤◌, ◌⊎◌, refl, none, some, [], ◌∷◌, arith, ℕ_discrete, lookup, insert, delete,
  move_to_end, All,
}
use bibi_core.Cache.{
  Cache, ref_count, is_protected, is_kept, unpin, evict_loop, evict_if_over_capacity, find_loaded,
  keep_first, returned, insert_loaded, pin, release,
}
use bibi_core.Cache.Idle.{drop_idle}
use bibi_core.Cache.Eviction.{evict_if_over_capacity-drop_idle}
use bibi_core.Cache.Sections.{first_loaded, touched, insert_loaded_lem}
use bibi_core.Cache.Threads.{
  idle, loading, got, using, System, moved, Step, miss, loaded, pinned, Reach, here, next, start,
}
use bibi_core.Cache.Threads.Users.{users}
use bibi_core.Cache.Threads.Invariant.{Inv, Reach-Inv}
use bibi_core.Cache.Threads.Leases.{view, Serve}
use bibi_core.Cache.Threads.Refinement.{Step-Serve}
use bibi_core.Cache.Threads.Safety.{insert_returns, release_returns, pinned_survives}
use bibi_core.Cache.Threads.Capacity.{release_capacity}
use bibi_core.Cache.Recency.{IsLater, IsOrdered}
use bibi_core.Cache.Threads.Recency.{requests, Reach-IsOrdered, evicted_before}
use bibi_core.Cache.Threads.Window.{acquire_window}

-- Three engines in a cache for one, the oldest in use.
abbrev crowded : Cache ℕ ℕ
crowded = record { engines = (1, 10) ∷ (2, 20) ∷ (3, 30) ∷ []; refs = (1, 1) ∷ []; max_loaded = 1 }

evict_run : (evict_if_over_capacity ℕ_discrete crowded none).engines ≡ (1, 10) ∷ []
unfolding evict_if_over_capacity evict_loop is_kept is_protected ref_count lookup delete ℕ_discrete
evict_run = refl

evict_if_over_capacity-drop_idle_example :
    evict_if_over_capacity ℕ_discrete crowded (some 3) ≡ record crowded {
      engines = drop_idle (is_kept ℕ_discrete crowded.refs (some 3)) 2 crowded.engines;
    }
unfolding lookup ℕ_discrete
evict_if_over_capacity-drop_idle_example =
    evict_if_over_capacity-drop_idle ℕ_discrete crowded (some 3) ((refl, (refl, (refl, tt))))

insert_crowded :
    let c' =
      evict_if_over_capacity ℕ_discrete
        (touched ℕ_discrete crowded 4 (first_loaded ℕ_discrete crowded 4 40))
        (some 4) in
    (insert_loaded ℕ_discrete crowded 4 40 ≡ some (c', first_loaded ℕ_discrete crowded 4 40))
    × (lookup ℕ_discrete 4 c'.engines ≡ some (first_loaded ℕ_discrete crowded 4 40))
unfolding lookup ℕ_discrete
insert_crowded = insert_loaded_lem ℕ_discrete crowded 4 40 ((refl, (refl, (refl, tt))))

-- The cache with engine 10 under name 1.
abbrev one_loaded : Cache ℕ ℕ
one_loaded = record { engines = (1, 10) ∷ []; refs = []; max_loaded = 1 }

abbrev at_loading : System ℕ ℕ
at_loading = moved (start ℕ_discrete 1) (start {E = ℕ} ℕ_discrete 1).cache 0 (loading 1)

abbrev at_got : System ℕ ℕ
at_got = moved at_loading one_loaded 0 (got 1 10)

-- Thread 1 loads another name meanwhile.
abbrev at_window : System ℕ ℕ
at_window = moved at_got one_loaded 1 (loading 2)

abbrev at_using : System ℕ ℕ
at_using = moved at_got (pin ℕ_discrete one_loaded 1) 0 (using 1 10)

abbrev at_both : System ℕ ℕ
at_both = moved at_using (pin ℕ_discrete one_loaded 1) 1 (loading 2)

got_Reach : Reach ℕ_discrete 2 1 at_got
unfolding lookup find_loaded insert_loaded keep_first returned move_to_end insert delete
    evict_if_over_capacity ℕ_discrete
got_Reach =
    next (next here (miss 0 1 (omega arith) refl refl))
      (loaded 0 1 10 10 one_loaded (omega arith) refl refl)

window_Reach : Reach ℕ_discrete 2 1 at_window
unfolding lookup find_loaded ℕ_discrete
window_Reach = next got_Reach (miss 1 2 (omega arith) refl refl)

using_Reach : Reach ℕ_discrete 2 1 at_using
unfolding ℕ_discrete
using_Reach = next got_Reach (pinned 0 1 10 (omega arith) refl)

Reach-Inv_example : Inv ℕ_discrete 2 at_using
Reach-Inv_example = Reach-Inv ℕ_discrete using_Reach

insert_returns_example :
    (c : Cache ℕ ℕ) × (insert_loaded ℕ_discrete at_using.cache 2 20
      ≡ some (c, first_loaded ℕ_discrete at_using.cache 2 20))
insert_returns_example = insert_returns ℕ_discrete using_Reach 2 20

release_returns_example : (c : Cache ℕ ℕ) × (release ℕ_discrete at_using.cache 1 ≡ some c)
unfolding ℕ_discrete
release_returns_example = release_returns ℕ_discrete using_Reach 0 1 10 (omega arith) refl

pinned_survives_example : lookup ℕ_discrete 1 at_both.cache.engines ≡ some 10
unfolding lookup find_loaded pin ℕ_discrete
pinned_survives_example =
    pinned_survives ℕ_discrete using_Reach (miss 1 2 (omega arith) refl refl) 0 1 10 10
      (omega arith) refl refl refl

release_capacity_example :
    (1 ≤ 1)
    ⊎ All
        (λ f. 0 < users ℕ_discrete f.0 2 (moved at_using one_loaded 0 idle).threads)
        one_loaded.engines
unfolding release unpin lookup ref_count pin insert delete evict_if_over_capacity ℕ_discrete
release_capacity_example =
    release_capacity ℕ_discrete using_Reach 0 1 10 one_loaded (omega arith) refl refl

acquire_window_example :
    (t : System ℕ ℕ) × Reach ℕ_discrete 2 1 t
    × (t.threads 0 ≡ using 1 10)
    × (lookup ℕ_discrete 1 t.cache.engines ≡ none)
unfolding ref_count lookup ℕ_discrete
acquire_window_example =
    acquire_window ℕ_discrete window_Reach 0 1 1 2 10 20 [] (omega arith) (omega arith)
      (λ e. omega (arith, e)) (λ e. omega (arith, e)) refl refl refl refl refl refl

Step-Serve_example : Serve ℕ_discrete (view ℕ_discrete 2 at_got) (view ℕ_discrete 2 at_using)
unfolding ℕ_discrete
Step-Serve_example = Step-Serve ℕ_discrete got_Reach (pinned 0 1 10 (omega arith) refl)

-- Thread 1 stores its engine and the other one goes.
abbrev second_loaded : Cache ℕ ℕ
second_loaded = record { engines = (2, 20) ∷ []; refs = []; max_loaded = 1 }

abbrev second : Step ℕ_discrete 2 at_window (moved at_window second_loaded 1 (got 2 20))
unfolding lookup insert_loaded keep_first returned move_to_end insert delete evict_loop is_kept
    is_protected ref_count evict_if_over_capacity ℕ_discrete
second = loaded 1 2 20 20 second_loaded (omega arith) refl refl

evicted_before_example : IsLater ℕ_discrete (requests ℕ_discrete (next window_Reach second)) 2 1
unfolding ref_count lookup second ℕ_discrete
evicted_before_example =
    evicted_before ℕ_discrete window_Reach second 1 2 10 20 refl refl (λ e. e) refl refl

Reach-IsOrdered_run :
    IsOrdered ℕ_discrete (requests ℕ_discrete window_Reach) at_window.cache.engines
Reach-IsOrdered_run = Reach-IsOrdered ℕ_discrete window_Reach
