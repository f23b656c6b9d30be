-- ===== src/Tests/Pipe.antt =====
-- server.go, `pipeConns`, on two short streams.
use gocloak.Base.{◌≡◌, refl, true, ◌||◌, ℕ, List, [], ◌∷◌, some, codes}
use gocloak.Server.Pipe.Faithful.{wind_down, run_pipe-Delivers}
use gocloak.Server.Pipe.Flows.{Delivers}
use gocloak.Server.Pipe.{
  Pipe, PipeEvent, up_way, down_way, copies, read_ends, closes, is_returned, run_pipe, pipe_step,
  copy_round, new_pipe, pipe_result,
}

-- The backend answers a query, and takes half of the next one before it goes away.
abbrev events : List PipeEvent
events =
    copies up_way 5 5
    ∷ copies down_way 9 9
    ∷ copies up_way 5 2
    ∷ read_ends down_way
    ∷ closes down_way
    ∷ closes down_way
    ∷ []

abbrev pipe : Pipe
pipe = run_pipe events (new_pipe (codes "queryagain") [] (codes "answer") (1 ∷ 0 ∷ []))

run_pipe-Delivers_example :
    Delivers (codes "queryagain") [] pipe.up
    × Delivers (codes "answer") (1 ∷ 0 ∷ []) pipe.down
    × ((is_returned pipe.up.phase || is_returned pipe.down.phase) ≡ true
        → (pipe.peer_closed ≡ true) × (pipe.backend_closed ≡ true))
    × ((n m : ℕ)
        → pipe.peer_closed ≡ true
        → pipe.backend_closed ≡ true
        → let q =
            run_pipe (wind_down (codes "queryagain") [] (codes "answer") (1 ∷ 0 ∷ []) n m) pipe in
          pipe_result q ≡ some (q.down.count, q.up.count))
run_pipe-Delivers_example =
    run_pipe-Delivers (codes "queryagain") [] (codes "answer") (1 ∷ 0 ∷ []) events

counted : (pipe.up.count ≡ 7) × (pipe.down.count ≡ 6)
unfolding run_pipe pipe_step copy_round
counted = (refl, refl)
