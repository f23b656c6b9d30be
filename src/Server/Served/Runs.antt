-- ===== src/Server/Served/Runs.antt =====
-- server.go, `handleConn`: what it writes and how it ends, case by case.
use gocloak.Base.{
  ℕ, ◌≡◌, ◌≢◌, inl, inr, refl, ◌∙◌, ap, true, false, Bytes, [], ◌++◌, none, some, arith, ok,
  Option-cases,
}
use gocloak.Conn.{Conn}
use gocloak.Limiter.{allowed, refused, Cap, acquire}
use gocloak.Net.{Addr, AddrPort}
use gocloak.Policy.{resolve}
use gocloak.Server.Handler.{
  silent, answered, admit, verdict_admission, decide, still_in_force, register,
}
use gocloak.Server.Served.{
  Surroundings, Course, closes, proxies, respond, farewell, confirm, set_up, carry_out, attend,
  handle_conn, Handled,
}
use gocloak.Server.{Server, limiter_for}
use gocloak.Wire.Requests.{request_frame, read_hello_request-frame}
use gocloak.Wire.Responses.{response_frame}
use gocloak.Wire.{
  Status, valid_status, valid_service_name, write_hello_response, status_ok, status_denied,
  status_backend_unavailable, status_rate_limited,
}
use gocloak.Conn.{write}

-- The stream that the server reads: what the client has written, and what follows.
abbrev pub asked_by : Bytes → Bytes → Conn → Conn
asked_by written later conn = record conn { incoming = written ++ later }

respond-frame :
    (status : Status) (conn : Conn)
    → valid_status status ≡ true
    → conn.write_error ≡ none
    → conn.sent ≡ []
    → respond status conn ≡ ok (record conn { sent = response_frame status })
unfolding respond write_hello_response write
respond-frame status conn v w s = ground arith

abbrev pub outcome : Handled → Conn × Course
outcome (_, conn, course) = (conn, course)

-- The concurrency slot is given: the address has the limiter at `l`, and it lets the connection in.
abbrev pub LetIn : ℕ → Addr → Server → ℕ → Type 0
LetIn now ip s l = (limiter_for s ip ≡ some l) × ((acquire now (s.heap l)).1 ≡ allowed)

-- The server when the handler checks again.
abbrev pub at_check : Surroundings → ℕ → Addr → Server → Server
at_check around now ip s = around.while_dialling (around.while_reading (admit now (some ip) s).0)

-- A call that the server takes: what surrounds it, the caller's address, the service, and the bytes behind
-- the hello; nothing has been written yet, and writes go through.
pub record Call : Type 0 where
  pub around : Surroundings
  pub id : ℕ
  pub now : ℕ
  pub ip : Addr
  pub s : Server
  pub service : Bytes
  pub later : Bytes
  pub conn : Conn
  pub valid : valid_service_name service ≡ true
  pub fresh : conn.sent ≡ []
  pub opened : conn.write_error ≡ none

module _ (t : Call) where
  abbrev asked : Conn
  asked = asked_by (request_frame t.service) t.later t.conn

  abbrev heard : Conn
  heard = record t.conn { incoming = t.later }

  abbrev pub run : Conn × Course
  run = outcome (handle_conn t.around t.id t.now (some t.ip) t.s asked)

  pub run-unknown : limiter_for t.s t.ip ≡ none → run ≡ (asked, closes silent)
  unfolding handle_conn admit attend farewell
  run-unknown e = ground arith

  pub run-limited :
      (l : ℕ) (k : Cap)
      → limiter_for t.s t.ip ≡ some l
      → (acquire t.now (t.s.heap l)).1 ≡ refused k
      → run ≡ (
        record asked { sent = response_frame status_rate_limited },
        closes (answered status_rate_limited),
      )
  unfolding handle_conn admit verdict_admission attend farewell valid_status
  run-limited l k e v =
      ground (arith, respond-frame status_rate_limited asked refl t.opened t.fresh)

  run-in :
      (l : ℕ)
      → LetIn t.now t.ip t.s l
      → run
        ≡ outcome (
            carry_out t.around t.id t.ip l
              (decide t.around.policy t.ip (ok (t.service, heard)))
              (t.around.while_reading (admit t.now (some t.ip) t.s).0)
              heard)
  unfolding handle_conn admit verdict_admission attend
  run-in l (e, v) = ground (arith, read_hello_request-frame t.service t.later t.conn t.valid)

  pub run-denied :
      (l : ℕ)
      → LetIn t.now t.ip t.s l
      → resolve t.around.policy t.ip t.service ≡ none
      → run
        ≡ (record heard { sent = response_frame status_denied }, closes (answered status_denied))
  unfolding decide carry_out farewell valid_status
  run-denied l i r =
      ground (arith, run-in l i, respond-frame status_denied heard refl t.opened t.fresh)

  pub run-unavailable :
      (l : ℕ) (backend : AddrPort)
      → LetIn t.now t.ip t.s l
      → resolve t.around.policy t.ip t.service ≡ some backend
      → t.around.takes backend ≡ false
      → run ≡ (
        record heard { sent = response_frame status_backend_unavailable },
        closes (answered status_backend_unavailable),
      )
  unfolding decide carry_out farewell valid_status
  run-unavailable l backend i r takes =
      ground
        (arith, run-in l i, respond-frame status_backend_unavailable heard refl t.opened t.fresh)

  run-set_up :
      (l : ℕ) (backend : AddrPort)
      → LetIn t.now t.ip t.s l
      → resolve t.around.policy t.ip t.service ≡ some backend
      → t.around.takes backend ≡ true
      → run ≡ outcome (set_up t.id t.ip l backend (at_check t.around t.now t.ip t.s) heard)
  unfolding decide carry_out
  run-set_up l backend i r takes = ground (arith, run-in l i)

  pub run-proxied :
      (l : ℕ) (backend : AddrPort)
      → LetIn t.now t.ip t.s l
      → resolve t.around.policy t.ip t.service ≡ some backend
      → t.around.takes backend ≡ true
      → limiter_for (at_check t.around t.now t.ip t.s) t.ip ≡ some l
      → run ≡ (record heard { sent = response_frame status_ok }, proxies backend)
  unfolding set_up confirm still_in_force register limiter_for valid_status
  run-proxied l backend i r takes still =
      ground
        (arith, run-set_up l backend i r takes, respond-frame status_ok heard refl t.opened t.fresh)

  pub run-revoked :
      (l : ℕ) (backend : AddrPort)
      → LetIn t.now t.ip t.s l
      → resolve t.around.policy t.ip t.service ≡ some backend
      → t.around.takes backend ≡ true
      → limiter_for (at_check t.around t.now t.ip t.s) t.ip ≢ some l
      → run ≡ (heard, closes silent)
  unfolding set_up still_in_force register limiter_for
  run-revoked l backend i r takes gone =
      elim (Option-cases (limiter_for (at_check t.around t.now t.ip t.s) t.ip)) [
        | inl e ↦ ground (arith, run-set_up l backend i r takes)
        | inr (k, e) ↦
            ground (arith, run-set_up l backend i r takes, λ (is : k ≡ l). gone (e ∙ ap some is))
      ]
