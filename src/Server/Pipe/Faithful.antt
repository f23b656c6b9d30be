-- ===== src/Server/Pipe/Faithful.antt =====
-- server.go, `pipeConns`: the bytes of both ways, and how one goroutine ends the other.
use gocloak.Base.{
  ℕ, ◌≡◌, refl, sym, Bool, true, ◌||◌, Bytes, List, [], ◌∷◌, append-nil, some, arith, if-intro,
}
use gocloak.Server.Pipe.{
  Phase, copying, ended, half_closed, returned, Flow, Pipe, up_way, down_way, PipeEvent, copies,
  read_ends, closes, cancelled, is_returned, copy_round, end_read, next_close, closing, is_done,
  pipe_step, run_pipe, new_flow, new_pipe, pipe_result, at_first, at_second,
}
use gocloak.Server.Pipe.Flows.{Delivers, copy_round-Delivers, ended-Delivers}

-- A goroutine that is past its first `Close` has closed that connection, and one that has returned both.
abbrev HasClosed : Flow → Bool → Bool → Type 0
HasClosed f first second =
    (f.phase ≡ half_closed → first ≡ true) × (f.phase ≡ returned → (first ≡ true) × (second ≡ true))

copy_round-HasClosed :
    (source_closed destination_closed first second : Bool) (n m : ℕ) (f : Flow)
    → HasClosed f first second
    → HasClosed (copy_round source_closed destination_closed n m f) first second
unfolding copy_round
copy_round-HasClosed source_closed destination_closed first second n m f h = ground arith

end_read-HasClosed :
    (first second : Bool) (f : Flow)
    → HasClosed f first second
    → HasClosed (end_read f) first second
end_read-HasClosed first second f h = ground arith

closing-HasClosed :
    (first second : Bool) (f : Flow)
    → HasClosed f first second
    → HasClosed (closing f) (first || at_first f.phase) (second || at_second f.phase)
closing-HasClosed first second f h = at_phase f.phase refl
  where
    at_phase :
        (ph : Phase)
        → f.phase ≡ ph
        → (next_close ph ≡ half_closed → (first || at_first ph) ≡ true)
          × (next_close ph ≡ returned
              → ((first || at_first ph) ≡ true) × ((second || at_second ph) ≡ true))
    at_phase copying e = ground arith
    at_phase ended e = ground arith
    at_phase half_closed e = ground arith
    at_phase returned e = ground arith

more-HasClosed :
    (first second more_first more_second : Bool) (f : Flow)
    → HasClosed f first second
    → HasClosed f (first || more_first) (second || more_second)
more-HasClosed first second more_first more_second f h = ground arith

module _ (from_peer sent_backend from_backend sent_peer : Bytes) where
  record IsSound (p : Pipe) : Type 0 where
    up : Delivers from_peer sent_backend p.up
    down : Delivers from_backend sent_peer p.down
    up_closed : HasClosed p.up p.backend_closed p.peer_closed
    down_closed : HasClosed p.down p.peer_closed p.backend_closed

  end_read-Delivers :
      (source sent : Bytes) (f : Flow) → Delivers source sent f → Delivers source sent (end_read f)
  end_read-Delivers source sent f d =
      ended-Delivers source sent f (end_read f) d (ground arith) (ground arith) (λ on. ground arith)

  closing-Delivers :
      (source sent : Bytes) (f : Flow) → Delivers source sent f → Delivers source sent (closing f)
  closing-Delivers source sent f d =
      ended-Delivers source sent f (closing f) d refl refl (λ on. ground arith)

  pipe_step-IsSound : (e : PipeEvent) (p : Pipe) → IsSound p → IsSound (pipe_step e p)
  unfolding pipe_step
  pipe_step-IsSound (copies up_way n m) p s = record {
    up = copy_round-Delivers from_peer sent_backend p.peer_closed p.backend_closed n m p.up s.up;
    down = s.down;
    up_closed = copy_round-HasClosed p.peer_closed p.backend_closed _ _ n m p.up s.up_closed;
    down_closed = s.down_closed;
  }
  pipe_step-IsSound (copies down_way n m) p s = record {
    up = s.up;
    down =
        copy_round-Delivers from_backend sent_peer p.backend_closed p.peer_closed n m p.down s.down;
    up_closed = s.up_closed;
    down_closed = copy_round-HasClosed p.backend_closed p.peer_closed _ _ n m p.down s.down_closed;
  }
  pipe_step-IsSound (read_ends up_way) p s = record {
    up = end_read-Delivers from_peer sent_backend p.up s.up;
    down = s.down;
    up_closed = end_read-HasClosed _ _ p.up s.up_closed;
    down_closed = s.down_closed;
  }
  pipe_step-IsSound (read_ends down_way) p s = record {
    up = s.up;
    down = end_read-Delivers from_backend sent_peer p.down s.down;
    up_closed = s.up_closed;
    down_closed = end_read-HasClosed _ _ p.down s.down_closed;
  }
  pipe_step-IsSound (closes up_way) p s = record {
    up = closing-Delivers from_peer sent_backend p.up s.up;
    down = s.down;
    up_closed = closing-HasClosed _ _ p.up s.up_closed;
    down_closed = more-HasClosed _ _ _ _ p.down s.down_closed;
  }
  pipe_step-IsSound (closes down_way) p s = record {
    up = s.up;
    down = closing-Delivers from_backend sent_peer p.down s.down;
    up_closed = more-HasClosed _ _ _ _ p.up s.up_closed;
    down_closed = closing-HasClosed _ _ p.down s.down_closed;
  }
  pipe_step-IsSound cancelled p s =
      if-intro IsSound (is_done p) (λ done. s)
        (λ running. record {
          up = s.up;
          down = s.down;
          up_closed = ((λ h. refl), (λ h. (refl, refl)));
          down_closed = ((λ h. refl), (λ h. (refl, refl)));
        })

  run_pipe-IsSound : (es : List PipeEvent) (p : Pipe) → IsSound p → IsSound (run_pipe es p)
  unfolding run_pipe
  run_pipe-IsSound [] p s = s
  run_pipe-IsSound (e ∷ es) p s = run_pipe-IsSound es (pipe_step e p) (pipe_step-IsSound e p s)

  new_pipe-IsSound : IsSound (new_pipe from_peer sent_backend from_backend sent_peer)
  new_pipe-IsSound = record {
    up = new_flow-Delivers from_peer sent_backend;
    down = new_flow-Delivers from_backend sent_peer;
    up_closed = ((λ h. cc), (λ h. cc));
    down_closed = ((λ h. cc), (λ h. cc));
  }
    where
      new_flow-Delivers : (source sent : Bytes) → Delivers source sent (new_flow source sent)
      new_flow-Delivers source sent = record {
        got = [];
        rest = source;
        first_part = refl;
        delivered = sym (append-nil sent);
        count = refl;
        to_come = λ on. refl;
      }

  -- The next steps of each goroutine: a round of its copy, and its two calls of `Close`.
  abbrev pub wind_down : ℕ → ℕ → List PipeEvent
  wind_down n m =
      copies up_way n m
      ∷ closes up_way
      ∷ closes up_way
      ∷ copies down_way n m
      ∷ closes down_way
      ∷ closes down_way
      ∷ []

  closed_copy_returns :
      (destination_closed : Bool) (n m : ℕ) (f : Flow)
      → is_returned (next_close (next_close (copy_round true destination_closed n m f).phase))
        ≡ true
  unfolding copy_round
  closed_copy_returns destination_closed n m f = ground arith

  wind_down-is_done :
      (n m : ℕ) (p : Pipe)
      → p.peer_closed ≡ true
      → p.backend_closed ≡ true
      → is_done (run_pipe (wind_down n m) p) ≡ true
  unfolding run_pipe pipe_step
  wind_down-is_done n m p peer backend = ground (
    arith,
    closed_copy_returns p.backend_closed n m p.up,
    closed_copy_returns
        (p.peer_closed || at_first (copy_round p.peer_closed p.backend_closed n m p.up).phase) n m
        p.down,
  )

  -- Whatever the two goroutines and the context of `pipeConns` do, in any order: each side got a first part of
  -- what the other sent, byte for byte and behind what was written to it before, and the count of this way is
  -- the length of that part. When a goroutine has returned, both connections are closed. And when both are
  -- closed, by a goroutine or because the context is done, each goroutine has returned after one more round of
  -- its copy and its two calls of `Close`.
  pub run_pipe-Delivers :
      (es : List PipeEvent)
      → let p = run_pipe es (new_pipe from_peer sent_backend from_backend sent_peer) in
        Delivers from_peer sent_backend p.up
        × Delivers from_backend sent_peer p.down
        × ((is_returned p.up.phase || is_returned p.down.phase) ≡ true
            → (p.peer_closed ≡ true) × (p.backend_closed ≡ true))
        × ((n m : ℕ)
            → p.peer_closed ≡ true
            → p.backend_closed ≡ true
            → let q = run_pipe (wind_down n m) p in pipe_result q ≡ some (q.down.count, q.up.count))
  unfolding pipe_result
  run_pipe-Delivers es =
      let p = run_pipe es (new_pipe from_peer sent_backend from_backend sent_peer) in
      let s = run_pipe-IsSound es _ new_pipe-IsSound in
      (
        s.up,
        s.down,
        returned_closes p s,
        λ n m peer backend. rw (wind_down-is_done n m p peer backend) refl,
      )
    where
      returned_closes :
          (p : Pipe)
          → IsSound p
          → (is_returned p.up.phase || is_returned p.down.phase) ≡ true
          → (p.peer_closed ≡ true) × (p.backend_closed ≡ true)
      returned_closes p s h = ground (arith, s.up_closed, s.down_closed)
