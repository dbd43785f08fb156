-- ===== src/Serving.antt =====
-- The life of a service's process: main.py and grpc_server.py of the three services. `asyncio.run`
-- runs `main`, which gathers the coroutine of the gRPC server and that of the HTTP server. A step is
-- what one of the three does between two awaits. grpc and uvicorn are known by how their calls end;
-- asyncio by its documentation: `gather` raises what its first failing task raises, a Ctrl+C cancels
-- `main` and with it what it gathers, and at the end `asyncio.run` cancels the tasks that are left.
pub mod Work
pub mod Calls
pub mod Services
mod Tests
use bibi_core.Base.{ℕ, ◌≡◌, ◌⊎◌, List, [], ◌∷◌, ◌++◌, Text, suc}

-- What `serve` does to the server before it starts.
pub data Call : Type 0 where
  add_servicer : Text → Call
  enable_reflection : List Text → Call
  add_insecure_port : Text → Call

-- A call on the server, by whether it returned.
pub data Event : Type 0 where
  did : Call → Event
  refused : Call → Event
  started : Event
  not_started : Event
  stopped : Event
  not_stopped : Event

-- How a coroutine ends.
pub data End (X : Type 0) : Type 0 where
  returned : End X
  failed : X → End X
  cancelled : End X

-- The coroutine `serve`.
pub data Grpc (X : Type 0) : Type 0 where
  -- the calls that are left before `await server.start()`
  calling : List Call → Grpc X
  -- in `wait_for_termination`
  serving : Grpc X
  -- in the `finally`, with how the `try` ended
  stopping : End X → Grpc X
  ended : End X → Grpc X

-- `uvicorn.Config`, less the application
pub record HttpConfig (P : Type 0) : Type 0 where
  pub host : P
  pub port : P
  pub log_level : Text

-- The coroutine `serve_http`.
pub data Http (P X : Type 0) : Type 0 where
  listening : HttpConfig P → Http P X
  finished : End X → Http P X

-- How `asyncio.run` ends.
pub data Exit (X : Type 0) : Type 0 where
  completed : Exit X
  interrupted : Exit X
  crashed : X → Exit X

-- `main`
pub data Main (X : Type 0) : Type 0 where
  gathering : Main X
  -- cancelled by Ctrl+C, still waiting for what it gathers
  interrupting : Main X
  -- `main` has ended; `asyncio.run` cancels the tasks that are left
  closing : Exit X → Main X
  exited : Exit X → Main X

pub record Process (P X : Type 0) : Type 0 where
  pub grpc : Grpc X
  pub http : Http P X
  pub main : Main X
  -- the calls on the gRPC server, in their order
  pub calls : List Event

abbrev pub start : {P X : Type 0} → List Call → HttpConfig P → Process P X
start setup config = record {
  grpc = calling setup;
  http = listening config;
  main = gathering;
  calls = [];
}

-- The exit status: the KeyboardInterrupt is caught and logged, any other exception is not.
unfoldable pub exit_status : {X : Type 0} → Exit X → ℕ
exit_status completed = 0
exit_status interrupted = 0
exit_status (crashed x) = 1

-- A cancellation can reach the coroutines.
abbrev pub Cancels : {X : Type 0} → Main X → Type 0
Cancels gathering = ⊥
Cancels interrupting = Unit {0}
Cancels (closing e) = Unit {0}
Cancels (exited e) = ⊥

-- `main` still waits for the coroutines.
abbrev pub Awaits : {X : Type 0} → Main X → Type 0
Awaits gathering = Unit {0}
Awaits interrupting = Unit {0}
Awaits (closing e) = ⊥
Awaits (exited e) = ⊥

module _ {P X : Type 0} where
  abbrev pub Ended : Process P X → End X → Type 0
  Ended p e = (p.grpc ≡ ended e) ⊎ (p.http ≡ finished e)

  pub data Step (p : Process P X) : Process P X → Type 0 where
    called :
        (c : Call) (cs : List Call)
        → p.grpc ≡ calling (c ∷ cs)
        → Step p (record p { grpc = calling cs; calls = p.calls ++ did c ∷ [] })
    call_failed :
        (c : Call) (cs : List Call) (x : X)
        → p.grpc ≡ calling (c ∷ cs)
        → Step p (record p { grpc = ended (failed x); calls = p.calls ++ refused c ∷ [] })
    start_returned :
        p.grpc ≡ calling [] → Step p (record p { grpc = serving; calls = p.calls ++ started ∷ [] })
    start_failed :
        (x : X)
        → p.grpc ≡ calling []
        → Step p (record p { grpc = ended (failed x); calls = p.calls ++ not_started ∷ [] })
    -- before the task has begun, when no call is made yet, or while it starts the server
    setup_cancelled :
        (cs : List Call)
        → p.grpc ≡ calling cs
        → Cancels p.main
        → Step p (record p { grpc = ended cancelled })
    wait_returned : p.grpc ≡ serving → Step p (record p { grpc = stopping returned })
    wait_failed : (x : X) → p.grpc ≡ serving → Step p (record p { grpc = stopping (failed x) })
    wait_cancelled :
        p.grpc ≡ serving → Cancels p.main → Step p (record p { grpc = stopping cancelled })
    stop_returned :
        (e : End X)
        → p.grpc ≡ stopping e
        → Step p (record p { grpc = ended e; calls = p.calls ++ stopped ∷ [] })
    stop_failed :
        (e : End X) (x : X)
        → p.grpc ≡ stopping e
        → Step p (record p { grpc = ended (failed x); calls = p.calls ++ not_stopped ∷ [] })
    stop_cancelled :
        (e : End X)
        → p.grpc ≡ stopping e
        → Cancels p.main
        → Step p (record p { grpc = ended cancelled; calls = p.calls ++ not_stopped ∷ [] })
    http_returned :
        (c : HttpConfig P) → p.http ≡ listening c → Step p (record p { http = finished returned })
    http_failed :
        (c : HttpConfig P) (x : X)
        → p.http ≡ listening c
        → Step p (record p { http = finished (failed x) })
    http_cancelled :
        (c : HttpConfig P)
        → p.http ≡ listening c
        → Cancels p.main
        → Step p (record p { http = finished cancelled })
    interrupt : p.main ≡ gathering → Step p (record p { main = interrupting })
    gather_failed :
        (x : X)
        → Awaits p.main
        → Ended p (failed x)
        → Step p (record p { main = closing (crashed x) })
    gather_cancelled :
        p.main ≡ interrupting → Ended p cancelled → Step p (record p { main = closing interrupted })
    gather_returned :
        p.main ≡ gathering
        → p.grpc ≡ ended returned
        → p.http ≡ finished returned
        → Step p (record p { main = closing completed })
    -- both returned although they were cancelled
    gather_interrupted :
        p.main ≡ interrupting
        → p.grpc ≡ ended returned
        → p.http ≡ finished returned
        → Step p (record p { main = closing interrupted })
    exit :
        (e : Exit X) (d f : End X)
        → p.main ≡ closing e
        → p.grpc ≡ ended d
        → p.http ≡ finished f
        → Step p (record p { main = exited e })

  pub data Reach (setup : List Call) (config : HttpConfig P) : Process P X → Type 0 where
    here : Reach setup config (start setup config)
    next : {p q : Process P X} → Reach setup config p → Step p q → Reach setup config q
