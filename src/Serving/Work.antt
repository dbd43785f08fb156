-- ===== src/Serving/Work.antt =====
-- How a process that has begun to end gets to its end.
use bibi_core.Base.{ℕ, suc, ◌+◌, ◌≤◌, ◌<◌, ◌≡◌, refl, ◌≢◌, ◌⊎◌, inl, inr, length, arith}
use bibi_core.Serving.{
  End, returned, failed, cancelled, Grpc, calling, serving, stopping, ended, Http, listening,
  finished, Exit, Main, gathering, interrupting, closing, exited, Process, Step, called,
  call_failed, start_returned, start_failed, setup_cancelled, wait_returned, wait_failed,
  wait_cancelled, stop_returned, stop_failed, stop_cancelled, http_returned, http_failed,
  http_cancelled, interrupt, gather_failed, gather_cancelled, gather_returned, gather_interrupted,
  exit, Awaits, Cancels, Ended, HttpConfig,
}

unfoldable pub grpc_work : {X : Type 0} → Grpc X → ℕ
grpc_work (calling cs) = length cs + 3
grpc_work serving = 2
grpc_work (stopping e) = 1
grpc_work (ended e) = 0

unfoldable pub http_work : {P X : Type 0} → Http P X → ℕ
http_work (listening c) = 1
http_work (finished e) = 0

unfoldable pub main_work : {X : Type 0} → Main X → ℕ
main_work gathering = 3
main_work interrupting = 2
main_work (closing e) = 1
main_work (exited e) = 0

-- What is left to do.
unfoldable pub work : {P X : Type 0} → Process P X → ℕ
unfolding grpc_work http_work main_work
work p = grpc_work p.grpc + http_work p.http + main_work p.main

awaited_work : {X : Type 0} (m : Main X) → Awaits m → 1 < main_work m
unfolding main_work
awaited_work gathering a = omega arith
awaited_work interrupting a = omega arith
awaited_work (closing e) a = elim a [ ]
awaited_work (exited e) a = elim a [ ]

module _ {P X : Type 0} where
  -- Ctrl+C came, `main` is over, or a coroutine has failed.
  abbrev pub IsWinding : Process P X → Type 0
  IsWinding p = (p.main ≢ gathering) ⊎ ((x : X) × Ended p (failed x))

  -- A step that the end of the process brings about: a cancellation, what `stop` does, or what main
  -- and asyncio.run do about tasks that are over. No other is forced: the servers go on as long as
  -- they like, and Ctrl+C may never come.
  abbrev pub IsForced : {p q : Process P X} → Step p q → Type 0
  IsForced (called c cs at) = ⊥
  IsForced (call_failed c cs x at) = ⊥
  IsForced (start_returned at) = ⊥
  IsForced (start_failed x at) = ⊥
  IsForced (setup_cancelled cs at k) = Unit {0}
  IsForced (wait_returned at) = ⊥
  IsForced (wait_failed x at) = ⊥
  IsForced (wait_cancelled at k) = Unit {0}
  IsForced (stop_returned e at) = Unit {0}
  IsForced (stop_failed e x at) = Unit {0}
  IsForced (stop_cancelled e at k) = Unit {0}
  IsForced (http_returned c at) = ⊥
  IsForced (http_failed c x at) = ⊥
  IsForced (http_cancelled c at k) = Unit {0}
  IsForced (interrupt at) = ⊥
  IsForced (gather_failed x a d) = Unit {0}
  IsForced (gather_cancelled m d) = Unit {0}
  IsForced (gather_returned m g h) = Unit {0}
  IsForced (gather_interrupted m g h) = Unit {0}
  IsForced (exit e d f m g h) = Unit {0}

  -- So many steps in a row.
  pub data Steps (p : Process P X) : ℕ → Process P X → Type 0 where
    stay : Steps p 0 p
    more : {n : ℕ} {q r : Process P X} → Steps p n q → Step q r → Steps p (suc n) r

  Step-lt-work : {p q : Process P X} → Step p q → work q < work p
  unfolding work
  Step-lt-work {p} (called c cs at) = rw at (omega arith)
  Step-lt-work {p} (call_failed c cs x at) = rw at (omega arith)
  Step-lt-work {p} (start_returned at) = rw at (omega arith)
  Step-lt-work {p} (start_failed x at) = rw at (omega arith)
  Step-lt-work {p} (setup_cancelled cs at k) = rw at (omega arith)
  Step-lt-work {p} (wait_returned at) = rw at (omega arith)
  Step-lt-work {p} (wait_failed x at) = rw at (omega arith)
  Step-lt-work {p} (wait_cancelled at k) = rw at (omega arith)
  Step-lt-work {p} (stop_returned d at) = rw at (omega arith)
  Step-lt-work {p} (stop_failed d x at) = rw at (omega arith)
  Step-lt-work {p} (stop_cancelled d at k) = rw at (omega arith)
  Step-lt-work {p} (http_returned c at) = rw at (omega arith)
  Step-lt-work {p} (http_failed c x at) = rw at (omega arith)
  Step-lt-work {p} (http_cancelled c at k) = rw at (omega arith)
  Step-lt-work {p} (interrupt at) = rw at (omega arith)
  Step-lt-work {p} (gather_failed x a d) = omega (arith, awaited_work p.main a)
  Step-lt-work {p} (gather_cancelled m d) = rw m (omega arith)
  Step-lt-work {p} (gather_returned m g f) = rw m (omega arith)
  Step-lt-work {p} (gather_interrupted m g f) = rw m (omega arith)
  Step-lt-work {p} (exit c d f m g i) = rw m (omega arith)

  Step-IsWinding : {p q : Process P X} → Step p q → IsWinding p → IsWinding q
  Step-IsWinding (called c cs at) (inl m) = inl m
  Step-IsWinding (called c cs at) (inr (x, inl g)) = absurd (ground arith)
  Step-IsWinding (called c cs at) (inr (x, inr h)) = inr (x, inr h)
  Step-IsWinding (call_failed c cs y at) (inl m) = inl m
  Step-IsWinding (call_failed c cs y at) (inr (x, inl g)) = absurd (ground arith)
  Step-IsWinding (call_failed c cs y at) (inr (x, inr h)) = inr (x, inr h)
  Step-IsWinding (start_returned at) (inl m) = inl m
  Step-IsWinding (start_returned at) (inr (x, inl g)) = absurd (ground arith)
  Step-IsWinding (start_returned at) (inr (x, inr h)) = inr (x, inr h)
  Step-IsWinding (start_failed y at) (inl m) = inl m
  Step-IsWinding (start_failed y at) (inr (x, inl g)) = absurd (ground arith)
  Step-IsWinding (start_failed y at) (inr (x, inr h)) = inr (x, inr h)
  Step-IsWinding (setup_cancelled cs at k) (inl m) = inl m
  Step-IsWinding (setup_cancelled cs at k) (inr (x, inl g)) = absurd (ground arith)
  Step-IsWinding (setup_cancelled cs at k) (inr (x, inr h)) = inr (x, inr h)
  Step-IsWinding (wait_returned at) (inl m) = inl m
  Step-IsWinding (wait_returned at) (inr (x, inl g)) = absurd (ground arith)
  Step-IsWinding (wait_returned at) (inr (x, inr h)) = inr (x, inr h)
  Step-IsWinding (wait_failed y at) (inl m) = inl m
  Step-IsWinding (wait_failed y at) (inr (x, inl g)) = absurd (ground arith)
  Step-IsWinding (wait_failed y at) (inr (x, inr h)) = inr (x, inr h)
  Step-IsWinding (wait_cancelled at k) (inl m) = inl m
  Step-IsWinding (wait_cancelled at k) (inr (x, inl g)) = absurd (ground arith)
  Step-IsWinding (wait_cancelled at k) (inr (x, inr h)) = inr (x, inr h)
  Step-IsWinding (stop_returned d at) (inl m) = inl m
  Step-IsWinding (stop_returned d at) (inr (x, inl g)) = absurd (ground arith)
  Step-IsWinding (stop_returned d at) (inr (x, inr h)) = inr (x, inr h)
  Step-IsWinding (stop_failed d y at) (inl m) = inl m
  Step-IsWinding (stop_failed d y at) (inr (x, inl g)) = absurd (ground arith)
  Step-IsWinding (stop_failed d y at) (inr (x, inr h)) = inr (x, inr h)
  Step-IsWinding (stop_cancelled d at k) (inl m) = inl m
  Step-IsWinding (stop_cancelled d at k) (inr (x, inl g)) = absurd (ground arith)
  Step-IsWinding (stop_cancelled d at k) (inr (x, inr h)) = inr (x, inr h)
  Step-IsWinding (http_returned c at) (inl m) = inl m
  Step-IsWinding (http_returned c at) (inr (x, inl g)) = inr (x, inl g)
  Step-IsWinding (http_returned c at) (inr (x, inr h)) = absurd (ground arith)
  Step-IsWinding (http_failed c y at) (inl m) = inl m
  Step-IsWinding (http_failed c y at) (inr (x, inl g)) = inr (x, inl g)
  Step-IsWinding (http_failed c y at) (inr (x, inr h)) = absurd (ground arith)
  Step-IsWinding (http_cancelled c at k) (inl m) = inl m
  Step-IsWinding (http_cancelled c at k) (inr (x, inl g)) = inr (x, inl g)
  Step-IsWinding (http_cancelled c at k) (inr (x, inr h)) = absurd (ground arith)
  Step-IsWinding (interrupt at) w = inl (λ e. cc)
  Step-IsWinding (gather_failed x a d) w = inl (λ e. cc)
  Step-IsWinding (gather_cancelled m d) w = inl (λ e. cc)
  Step-IsWinding (gather_returned m g f) w = inl (λ e. cc)
  Step-IsWinding (gather_interrupted m g f) w = inl (λ e. cc)
  Step-IsWinding (exit c d f m g i) w = inl (λ e. cc)

  -- While both servers run and main waits for them, no step is forced.
  pub serving_free :
      {p q : Process P X} {c : HttpConfig P}
      → p.main ≡ gathering
      → p.grpc ≡ serving
      → p.http ≡ listening c
      → (st : Step p q) → ¬ IsForced st
  serving_free m g h (called c cs at) forced = forced
  serving_free m g h (call_failed c cs x at) forced = forced
  serving_free m g h (start_returned at) forced = forced
  serving_free m g h (start_failed x at) forced = forced
  serving_free m g h (wait_returned at) forced = forced
  serving_free m g h (wait_failed x at) forced = forced
  serving_free m g h (http_returned c at) forced = forced
  serving_free m g h (http_failed c x at) forced = forced
  serving_free m g h (interrupt at) forced = forced
  serving_free m g h (setup_cancelled cs at k) forced = ground arith
  serving_free m g h (wait_cancelled at k) forced = rw m at k
  serving_free m g h (stop_returned e at) forced = ground arith
  serving_free m g h (stop_failed e x at) forced = ground arith
  serving_free m g h (stop_cancelled e at k) forced = ground arith
  serving_free m g h (http_cancelled c at k) forced = rw m at k
  serving_free m g h (gather_cancelled i d) forced = ground arith
  serving_free m g h (gather_returned i a b) forced = ground arith
  serving_free m g h (gather_interrupted i a b) forced = ground arith
  serving_free m g h (exit e d f i a b) forced = ground arith
  serving_free m g h (gather_failed x a (inl e)) forced = ground arith
  serving_free m g h (gather_failed x a (inr e)) forced = ground arith

  -- A process that winds down can go on until it has exited.
  steps_on :
      (p : Process P X) (g : Grpc X) (h : Http P X)
      → p.grpc ≡ g
      → p.http ≡ h
      → Cancels p.main
      → ((d f : End X)
          → p.grpc ≡ ended d
          → p.http ≡ finished f
          → (q : Process P X) × (st : Step p q) × IsForced st)
      → (q : Process P X) × (st : Step p q) × IsForced st
  steps_on p (calling cs) h at _ k last = (_, setup_cancelled cs at k, tt)
  steps_on p serving h at _ k last = (_, wait_cancelled at k, tt)
  steps_on p (stopping e) h at _ k last = (_, stop_returned e at, tt)
  steps_on p (ended d) (listening c) _ at k last = (_, http_cancelled c at k, tt)
  steps_on p (ended d) (finished f) g h k last = last d f g h

  interrupting_ends :
      (p : Process P X) (d f : End X)
      → p.main ≡ interrupting
      → p.grpc ≡ ended d
      → p.http ≡ finished f
      → (q : Process P X) × (st : Step p q) × IsForced st
  interrupting_ends p (failed x) f m g h = (_, gather_failed x (rw m tt) (inl g), tt)
  interrupting_ends p cancelled f m g h = (_, gather_cancelled m (inl g), tt)
  interrupting_ends p returned (failed x) m g h = (_, gather_failed x (rw m tt) (inr h), tt)
  interrupting_ends p returned cancelled m g h = (_, gather_cancelled m (inr h), tt)
  interrupting_ends p returned returned m g h = (_, gather_interrupted m g h, tt)

  main_moves :
      (p : Process P X) (m : Main X)
      → p.main ≡ m
      → IsWinding p
      → ((e : Exit X) × (p.main ≡ exited e)) ⊎ ((q : Process P X) × (st : Step p q) × IsForced st)
  main_moves p (exited e) at w = inl (e, at)
  main_moves p gathering at (inl m) = absurd (m at)
  main_moves p gathering at (inr (x, e)) = inr (_, gather_failed x (rw at tt) e, tt)
  main_moves p interrupting at w =
      inr
        (steps_on p p.grpc p.http refl refl (rw at tt) (λ d f g h. interrupting_ends p d f at g h))
  main_moves p (closing e) at w =
      inr (steps_on p p.grpc p.http refl refl (rw at tt) (λ d f g h. (_, exit e d f at g h, tt)))

  Steps-IsWinding :
      {p : Process P X} {n : ℕ} {q : Process P X} → Steps p n q → IsWinding p → IsWinding q
  Steps-IsWinding stay w = w
  Steps-IsWinding (more a st) w = Step-IsWinding st (Steps-IsWinding a w)

  Steps-work : {p : Process P X} {n : ℕ} {q : Process P X} → Steps p n q → n + work q ≤ work p
  Steps-work stay = omega arith
  Steps-work (more a st) = omega (arith, Steps-work a, Step-lt-work st)

  -- Once Ctrl+C has come, main is over or one of the coroutines has failed, the process ends
  -- with both of them: however it goes on, it takes no more steps than there is work left, and
  -- until it has exited some step is forced: a cancellation, a call of stop that ends, or what
  -- main and asyncio.run do about what is over; it needs no server that stops by itself and no
  -- further Ctrl+C.
  pub winds_down :
      {n : ℕ} {p q : Process P X}
      → IsWinding p
      → Steps p n q
      → (n ≤ work p)
        × (((e : Exit X) × (q.main ≡ exited e))
            ⊎ ((r : Process P X) × (st : Step q r) × IsForced st))
  winds_down {q = q} w a =
      (omega (arith, Steps-work a), main_moves q q.main refl (Steps-IsWinding a w))
