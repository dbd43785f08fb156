-- ===== src/Serving/Tests.antt =====
-- The chat service whose HTTP port is taken.
use bibi_core.Base.{◌≤◌, ◌≡◌, refl, ◌⊎◌, inr, List, [], ◌∷◌, ◌++◌, Text, codes}
use bibi_core.Base.Decimal
use bibi_core.Settings.{Value, text, number, ServerConfig}
use bibi_core.Serving.{
  End, failed, cancelled, ended, HttpConfig, finished, Exit, crashed, gathering, exited, Process,
  start, Step, Reach, here, next, called, start_returned, wait_cancelled, stop_returned,
  http_failed, gather_failed, exit, did, started, stopped, serving, listening, add_servicer,
  enable_reflection, add_insecure_port, Call,
}
use bibi_core.Serving.Services.{address, setup, llm_setup, http_config, llm_process}
use bibi_core.Serving.Calls.{Unstarted, Stopped, exited_calls}
use bibi_core.Serving.Work.{work, IsForced, Steps, stay, more, winds_down}

abbrev server : ServerConfig Text
server = record {
  host = text (codes "0.0.0.0");
  port = number 5003;
  grpc_port = number 50053;
  log_level = codes "INFO";
}

abbrev shown : Value Text → Text
shown v = codes "?"

abbrev lower : Text → Text
lower t = t

address_run : address shown server ≡ codes "0.0.0.0:50053"
unfolding address Decimal.decimal
address_run = refl

abbrev calls_made : List Call
calls_made =
    add_servicer (codes "LLMChatServicer")
    ∷ enable_reflection (codes "llm.LLMChat" ∷ codes "grpc.reflection" ∷ [])
    ∷ add_insecure_port (codes "0.0.0.0:50053")
    ∷ []

abbrev taken : Text
taken = codes "address already in use"

abbrev configured : HttpConfig (Value Text)
unfolding http_config
configured = http_config lower server

abbrev serving_both : Process (Value Text) Text
serving_both = record {
  grpc = serving;
  http = listening configured;
  main = gathering;
  calls =
      did (add_servicer (codes "LLMChatServicer"))
      ∷ did (enable_reflection (codes "llm.LLMChat" ∷ codes "grpc.reflection" ∷ []))
      ∷ did (add_insecure_port (codes "0.0.0.0:50053"))
      ∷ started
      ∷ [];
}

serving_Reach : Reach calls_made configured serving_both
serving_Reach =
    next (next (next (next here (called _ _ refl)) (called _ _ refl)) (called _ _ refl))
      (start_returned refl)

abbrev crashed_http : Process (Value Text) Text
crashed_http = record serving_both { http = finished (failed taken) }

abbrev gone : Process (Value Text) Text
gone = record {
  grpc = ended cancelled;
  http = finished (failed taken);
  main = exited (crashed taken);
  calls = serving_both.calls ++ stopped ∷ [];
}

winding : Steps crashed_http 4 gone
winding =
    more
      (more (more (more stay (gather_failed taken tt (inr refl))) (wait_cancelled refl tt))
        (stop_returned cancelled refl))
      (exit (crashed taken) cancelled (failed taken) refl refl refl)

gone_Reach : Reach calls_made configured gone
gone_Reach =
    next
      (next
        (next
          (next (next serving_Reach (http_failed configured taken refl))
            (gather_failed taken tt (inr refl)))
          (wait_cancelled refl tt))
        (stop_returned cancelled refl))
      (exit (crashed taken) cancelled (failed taken) refl refl refl)

llm_started :
    llm_process shown (codes "llm.LLMChat") (codes "grpc.reflection") server lower Text
    ≡ start calls_made configured
unfolding llm_process llm_setup setup address http_config Decimal.decimal
llm_started = refl

exited_calls_example :
    ((d : End Text) × (gone.grpc ≡ ended d))
    × ((f : End Text) × (gone.http ≡ finished f))
    × (Unstarted calls_made gone.calls ⊎ Stopped calls_made gone.calls)
exited_calls_example = exited_calls calls_made (crashed taken) gone_Reach refl

winds_down_example :
    (4 ≤ work crashed_http)
    × (((e : Exit Text) × (gone.main ≡ exited e))
        ⊎ ((r : Process (Value Text) Text) × (st : Step gone r) × IsForced st))
winds_down_example = winds_down (inr (taken, inr refl)) winding
