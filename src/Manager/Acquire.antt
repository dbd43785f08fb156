-- ===== src/Manager/Acquire.antt =====
-- The `with` block of `acquire_engine` and its `finally`.
use bibi_core.Base.{
  ok_injective, ◌≡◌, refl, ap, ◌∙◌, ◌<◌, ◌+◌, Text, Text-discrete, Option, none, Result, ok, raise,
  arith, ite,
}
use bibi_core.Base.Dict.Laws.{insert-IsDict}
use bibi_core.Cache.{Cache, ref_count, pin, release}
use bibi_core.Cache.Eviction.{evict_unchanged, evict-IsDict}
use bibi_core.Cache.Sections.{ref_count-insert, insert-IsPositive, unpin_total}
use bibi_core.Manager.{Manager, or_default, get_or_load, leave, enter, acquire_engine}
use bibi_core.Manager.Laws.{IsManager, Got, get_or_load_lem}

abbrev pub pinned : {E : Type 0} → Manager E → Text → Manager E
pinned m name = record m { cache = pin Text-discrete m.cache name }

-- The counts of two managers agree.
abbrev pub SameCounts : {E : Type 0} → Manager E → Manager E → Type 0
SameCounts m m' =
    (j : Text) → ref_count Text-discrete m'.cache.refs j ≡ ref_count Text-discrete m.cache.refs j

pinned-IsManager :
    {E : Type 0} (m : Manager E) (name : Text) → IsManager m → IsManager (pinned m name)
unfolding pin
pinned-IsManager m name v = record {
  engines = v.engines;
  refs = insert-IsDict Text-discrete name _ m.cache.refs v.refs;
  positive = insert-IsPositive Text-discrete m.cache.refs name _ (omega arith) v.positive;
}

pinned_count :
    {E : Type 0} (m : Manager E) (name j : Text)
    → ref_count Text-discrete (pinned m name).cache.refs j
      ≡ ite
          (Text-discrete j name)
          (ref_count Text-discrete m.cache.refs name + 1)
          (ref_count Text-discrete m.cache.refs j)
unfolding pin
pinned_count m name j = ref_count-insert Text-discrete m.cache.refs name _ j

module _ {X E A : Type 0} (not_found : Text → X) (key_error : X) (load : Text → Result X E)
    (body : Manager E → E → Manager E × Result X A) where
  -- A body that keeps the dictionaries in order and the counts as it found them.
  abbrev pub IsNeutral : Type 0
  IsNeutral =
      (m : Manager E) (e : E) → IsManager m → IsManager (body m e).0 × SameCounts m (body m e).0

  leave_lem :
      (m m' : Manager E) (name : Text) (r : Result X A)
      → IsManager m'
      → SameCounts (pinned m name) m'
      → let out = leave not_found key_error load body name (m', r) in
        IsManager out.0 × SameCounts m out.0 × (out.1 ≡ r)
  unfolding leave release
  leave_lem m m' name r v same =
      let refs = m'.cache.refs in
      let counted : 0 < ref_count Text-discrete refs name =
        ground (arith, same name, pinned_count m name name) in
      let (rest, unpinned, dict, positive, counts) =
        unpin_total Text-discrete refs name counted v.refs v.positive in
      let lean : Cache Text E = record m'.cache { refs = rest } in
      let (kept, _) = evict_unchanged Text-discrete lean none v.engines in
      rw (unpinned, leave, release)
        (
          record {
            engines = evict-IsDict Text-discrete lean none v.engines;
            refs = rw kept dict;
            positive = rw kept positive;
          },
          λ j. rw kept (
              ground (
                arith,
                counts j,
                same j,
                same name,
                pinned_count m name j,
                pinned_count m name name,
              )),
          refl,
        )

  -- What the whole `with` statement leaves, by what `_get_or_load` gave.
  abbrev Entered :
      (m : Manager E) (name : Text) → Manager E × Result X E → Manager E × Result X A → Type 0
  Entered m name g out =
      IsManager out.0
      × SameCounts m out.0
      × ((x : X) → g.1 ≡ raise x → out.1 ≡ raise x)
      × ((e : E) → g.1 ≡ ok e → out.1 ≡ (body (pinned g.0 name) e).1)

  enter_lem :
      (m : Manager E) (name : Text) (g : Manager E × Result X E)
      → IsNeutral
      → Got not_found key_error load m name g
      → Entered m name g (enter not_found key_error load body name g)
  unfolding enter
  enter_lem m name (m', raise x) n got = (got.manager, λ j. rw got.refs, λ y h. cc, λ e h. cc)
  enter_lem m name (m', ok e) n got =
      let (v, same) = n (pinned m' name) e (pinned-IsManager m' name got.manager) in
      let (kept, counts, result) =
        leave_lem m' (body (pinned m' name) e).0 name (body (pinned m' name) e).1 v same in
      (
        kept,
        λ j. counts j ∙ rw got.refs,
        λ y h. cc,
        λ f h. result ∙ ap (λ x. (body (pinned m' name) x).1) (ok_injective h),
      )

  -- For a body that keeps the dictionaries in order and the counts as it found them,
  -- acquire_engine gives back the count that it took, whether the body returns or raises: the
  -- dictionaries stay in order, every count is as before, and the outcome is that of the body,
  -- or the exception of _get_or_load.
  pub acquire_engine_balanced :
      (m : Manager E) (name : Option Text)
      → IsNeutral
      → IsManager m
      → let key = or_default name m.default in
        let g = get_or_load not_found key_error load m key in
        let out = acquire_engine not_found key_error load body m name in
        IsManager out.0
        × SameCounts m out.0
        × ((x : X) → g.1 ≡ raise x → out.1 ≡ raise x)
        × ((e : E) → g.1 ≡ ok e → out.1 ≡ (body (pinned g.0 key) e).1)
  unfolding acquire_engine
  acquire_engine_balanced m name n v =
      let key = or_default name m.default in
      enter_lem m key _ n (get_or_load_lem not_found key_error load m key v)
