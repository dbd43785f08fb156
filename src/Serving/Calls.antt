-- ===== src/Serving/Calls.antt =====
-- The calls that are made on the gRPC server.
use bibi_core.Base.{
  ◌≡◌, refl, sym, ap, ◌∙◌, ◌⊎◌, inl, inr, List, [], ◌∷◌, ◌++◌, map, append_assoc, append-nil, arith,
}
use mathlib.Core.List.{map-append}
use bibi_core.Serving.{
  Call, Event, did, refused, started, not_started, stopped, not_stopped, End, Grpc, calling,
  serving, stopping, ended, HttpConfig, finished, Exit, exited, Process, Step, Reach, here, next,
  called, call_failed, start_returned, start_failed, setup_cancelled, wait_returned, wait_failed,
  wait_cancelled, stop_returned, stop_failed, stop_cancelled, http_returned, http_failed,
  http_cancelled, interrupt, gather_failed, gather_cancelled, gather_returned, gather_interrupted,
  exit,
}

-- What follows the calls that succeeded, where the server never ran.
abbrev pub Broken : List Event → Type 0
Broken last = (last ≡ []) ⊎ ((last ≡ not_started ∷ []) ⊎ ((c : Call) × (last ≡ refused c ∷ [])))

-- The server never ran: some of the calls were made, and the next one or the start may have failed.
abbrev pub Unstarted : List Call → List Event → Type 0
Unstarted setup calls =
    (made : List Call) × (left : List Call) × (last : List Event) × (setup ≡ made ++ left)
    × (calls ≡ map did made ++ last)
    × Broken last

-- The server ran and was told to stop.
abbrev pub Stopped : List Call → List Event → Type 0
Stopped setup calls =
    (last : Event) × (calls ≡ map did setup ++ started ∷ last ∷ [])
    × ((last ≡ stopped) ⊎ (last ≡ not_stopped))

abbrev Logged : {X : Type 0} → List Call → Grpc X → List Event → Type 0
Logged setup (calling cs) calls = (made : List Call) × (setup ≡ made ++ cs) × (calls ≡ map did made)
Logged setup serving calls = calls ≡ map did setup ++ started ∷ []
Logged setup (stopping e) calls = calls ≡ map did setup ++ started ∷ []
Logged setup (ended e) calls = Unstarted setup calls ⊎ Stopped setup calls

module _ {P X : Type 0} (setup : List Call) where
  abbrev IsLogged : Process P X → Type 0
  IsLogged p = Logged setup p.grpc p.calls

  at_grpc : (p : Process P X) {g : Grpc X} → p.grpc ≡ g → IsLogged p → Logged setup g p.calls
  at_grpc p same l = rw same at l

  Stopped-next :
      (p : Process P X) (e : End X) (last : Event)
      → p.grpc ≡ stopping e
      → (last ≡ stopped) ⊎ (last ≡ not_stopped)
      → IsLogged p
      → Stopped setup (p.calls ++ last ∷ [])
  Stopped-next p e last at which l = (
    last,
    ap (λ es. es ++ last ∷ []) (at_grpc p at l)
        ∙ append_assoc (map did setup) (started ∷ []) (last ∷ []),
    which,
  )

  Unstarted-next :
      (p : Process P X) (cs : List Call) (last : List Event)
      → p.grpc ≡ calling cs
      → Broken last
      → IsLogged p
      → Unstarted setup (p.calls ++ last)
  Unstarted-next p cs last at which l =
      let (made, all, calls) = at_grpc p at l in
      (made, cs, last, all, ap (λ es. es ++ last) calls, which)

  Step-IsLogged : {p q : Process P X} → Step p q → IsLogged p → IsLogged q
  Step-IsLogged {p} (called c cs at) l =
      let (made, all, calls) = at_grpc p at l in
      (
        made ++ c ∷ [],
        all ∙ sym (append_assoc made (c ∷ []) cs),
        ap (λ es. es ++ did c ∷ []) calls ∙ sym (map-append did made (c ∷ [])),
      )
  Step-IsLogged {p} (call_failed c cs x at) l =
      inl (Unstarted-next p (c ∷ cs) (refused c ∷ []) at (inr (inr (c, refl))) l)
  Step-IsLogged {p} (start_returned at) l =
      let (made, all, calls) = at_grpc p at l in
      let whole : setup ≡ made = all ∙ append-nil made in
      ap (λ es. es ++ started ∷ []) (calls ∙ ap (map did) (sym whole))
  Step-IsLogged {p} (start_failed x at) l =
      inl (Unstarted-next p [] (not_started ∷ []) at (inr (inl refl)) l)
  Step-IsLogged {p} (setup_cancelled cs at k) l =
      inl (rw append-nil at (Unstarted-next p cs [] at (inl refl) l))
  Step-IsLogged {p} (wait_returned at) l = at_grpc p at l
  Step-IsLogged {p} (wait_failed x at) l = at_grpc p at l
  Step-IsLogged {p} (wait_cancelled at k) l = at_grpc p at l
  Step-IsLogged {p} (stop_returned e at) l = inr (Stopped-next p e stopped at (inl refl) l)
  Step-IsLogged {p} (stop_failed e x at) l = inr (Stopped-next p e not_stopped at (inr refl) l)
  Step-IsLogged {p} (stop_cancelled e at k) l = inr (Stopped-next p e not_stopped at (inr refl) l)
  Step-IsLogged (http_returned c at) l = l
  Step-IsLogged (http_failed c x at) l = l
  Step-IsLogged (http_cancelled c at k) l = l
  Step-IsLogged (interrupt at) l = l
  Step-IsLogged (gather_failed x a e) l = l
  Step-IsLogged (gather_cancelled m e) l = l
  Step-IsLogged (gather_returned m g h) l = l
  Step-IsLogged (gather_interrupted m g h) l = l
  Step-IsLogged (exit e d f m g h) l = l

  -- Only a process whose coroutines have ended exits.
  abbrev IsOver : Process P X → Type 0
  IsOver p =
      (e : Exit X)
      → p.main ≡ exited e
      → ((d : End X) × (p.grpc ≡ ended d)) × ((f : End X) × (p.http ≡ finished f))

  Step-IsOver : {p q : Process P X} → Step p q → IsOver p → IsOver q
  Step-IsOver {p} (called c cs at) o e h = absurd (ground (arith, o e h))
  Step-IsOver {p} (call_failed c cs x at) o e h = absurd (ground (arith, o e h))
  Step-IsOver {p} (start_returned at) o e h = absurd (ground (arith, o e h))
  Step-IsOver {p} (start_failed x at) o e h = absurd (ground (arith, o e h))
  Step-IsOver {p} (setup_cancelled cs at k) o e h = absurd (ground (arith, o e h))
  Step-IsOver {p} (wait_returned at) o e h = absurd (ground (arith, o e h))
  Step-IsOver {p} (wait_failed x at) o e h = absurd (ground (arith, o e h))
  Step-IsOver {p} (wait_cancelled at k) o e h = absurd (ground (arith, o e h))
  Step-IsOver {p} (stop_returned d at) o e h = absurd (ground (arith, o e h))
  Step-IsOver {p} (stop_failed d x at) o e h = absurd (ground (arith, o e h))
  Step-IsOver {p} (stop_cancelled d at k) o e h = absurd (ground (arith, o e h))
  Step-IsOver {p} (http_returned c at) o e h = absurd (ground (arith, o e h))
  Step-IsOver {p} (http_failed c x at) o e h = absurd (ground (arith, o e h))
  Step-IsOver {p} (http_cancelled c at k) o e h = absurd (ground (arith, o e h))
  Step-IsOver (interrupt at) o e h = cc
  Step-IsOver (gather_failed x a d) o e h = cc
  Step-IsOver (gather_cancelled m d) o e h = cc
  Step-IsOver (gather_returned m g f) o e h = cc
  Step-IsOver (gather_interrupted m g f) o e h = cc
  Step-IsOver (exit c d f m g i) o e h = ((d, g), (f, i))

  pub Reach-IsLogged : {config : HttpConfig P} {p : Process P X} → Reach setup config p → IsLogged p
  Reach-IsLogged here = ([], refl, refl)
  Reach-IsLogged (next r st) = Step-IsLogged st (Reach-IsLogged r)

  Reach-IsOver : {config : HttpConfig P} {p : Process P X} → Reach setup config p → IsOver p
  Reach-IsOver here = λ e h. cc
  Reach-IsOver (next r st) = Step-IsOver st (Reach-IsOver r)

  -- When the process has exited, both coroutines have ended, and the gRPC server either never
  -- ran, where the calls made on it are a part of those of serve in their order, up to one that
  -- failed or to the cancellation; or all of them were made, then start returned, and stop was
  -- called once, last.
  pub exited_calls :
      {config : HttpConfig P} {p : Process P X} (e : Exit X)
      → Reach setup config p
      → p.main ≡ exited e
      → ((d : End X) × (p.grpc ≡ ended d))
        × ((f : End X) × (p.http ≡ finished f))
        × (Unstarted setup p.calls ⊎ Stopped setup p.calls)
  exited_calls {p = p} e r h =
      let ((d, at), http) = Reach-IsOver r e h in ((d, at), http, rw at at (Reach-IsLogged r))
