-- ===== src/System/Serve.antt =====
-- The server as its clients and timers see it: each request to a route is one action of the engine, or
-- none, so that what holds of `run` holds of every history of requests and timers.
use ingestion_engine.Prelude.{◌≡◌, refl, sym, ◌∙◌, Option, none, some, List, [], ◌∷◌}
use ingestion_engine.State.{Engine, Env}
use ingestion_engine.Server.{
  Request, post_single, post_batch, read_metrics, read_health, read_logs, post_start, post_stop,
  post_config, post_shutdown, read_go_code, handle, default,
}
use ingestion_engine.System.{
  Action, single, many, measure, configure, start, stop, shutdown, step, run,
}

-- The action of a request. Two routes only read, and a malformed batch changes nothing.
abbrev pub action_of : Request → Option Action
action_of (post_single ev) = some (single ev)
action_of (post_batch none) = none
action_of (post_batch (some evs)) = some (many evs)
action_of read_metrics = some measure
action_of read_health = some measure
action_of read_logs = none
action_of (post_start rps scenario) = some (start (default rps 2500) (default scenario "steady"))
action_of post_stop = some stop
action_of (post_config u) = some (configure u)
action_of post_shutdown = some shutdown
action_of (read_go_code tree) = none

-- What reaches the process: a request, or the action of a timer.
pub data Input : Type 0 where
  request : Request → Input
  timer : Action → Input

unfoldable pub serve_one : Env → Input → Engine → Engine
serve_one env (request r) s = (handle env r s).1
serve_one env (timer a) s = step env a s

unfoldable pub serve : List (Env × Input) → Engine → Engine
unfolding serve_one
serve [] s = s
serve ((env, i) ∷ rest) s = serve rest (serve_one env i s)

abbrev pub action_of_input : Input → Option Action
action_of_input (request r) = action_of r
action_of_input (timer a) = some a

abbrev pub prepend : Env → Option Action → List (Env × Action) → List (Env × Action)
prepend env none rest = rest
prepend env (some a) rest = (env, a) ∷ rest

-- The actions of a history, in their order.
abbrev pub actions_of : List (Env × Input) → List (Env × Action)
actions_of [] = []
actions_of ((env, i) ∷ rest) = prepend env (action_of_input i) (actions_of rest)

run-prepend-request :
    (env : Env) (r : Request) (rest : List (Env × Action)) (s : Engine)
    → run (prepend env (action_of r) rest) s ≡ run rest (handle env r s).1
unfolding run step handle
run-prepend-request env (post_single ev) rest s = refl
run-prepend-request env (post_batch none) rest s = refl
run-prepend-request env (post_batch (some evs)) rest s = refl
run-prepend-request env read_metrics rest s = refl
run-prepend-request env read_health rest s = refl
run-prepend-request env read_logs rest s = refl
run-prepend-request env (post_start rps scenario) rest s = refl
run-prepend-request env post_stop rest s = refl
run-prepend-request env (post_config u) rest s = refl
run-prepend-request env post_shutdown rest s = refl
run-prepend-request env (read_go_code tree) rest s = refl

-- The engine after any history of requests and timers is the one that the actions of that history
-- lead to: two routes only read the engine, a batch that is no array changes nothing, and every other
-- request is one action.
pub serve-run :
    (history : List (Env × Input)) (s : Engine) → serve history s ≡ run (actions_of history) s
unfolding serve run
serve-run [] s = refl
serve-run ((env, request r) ∷ rest) s =
    serve-run rest (handle env r s).1 ∙ sym (run-prepend-request env r (actions_of rest) s)
serve-run ((env, timer a) ∷ rest) s = serve-run rest (step env a s)
