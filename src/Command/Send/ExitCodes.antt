-- ===== src/Command/Send/ExitCodes.antt =====
-- cmd/gocloak-send/main.go: what the exit code says of the server's answer.
use gocloak.Base.{
  ℕ, ◌≡◌, ◌↔◌, inl, inr, refl, true, false, Bytes, ◌++◌, none, Result, ok, err, arith, Result-cases,
  Bool-cases, nat_beq, if◌then◌else◌,
}
use gocloak.Client.Hello.{exchanged}
use gocloak.Client.{hello, status_error}
use gocloak.Command.Send.{
  SendConfig, Network, report_error, dial, deliver, send_message, exit_ok, exit_error, exit_denied,
  exit_backend_unavailable, exit_rate_limited,
}
use gocloak.Conn.{Conn}
use gocloak.Msg.{send, MsgError}
use gocloak.Wire.Requests.{request_frame, write_hello_request-frame}
use gocloak.Wire.Responses.{response_frame, read_hello_response_iff, read_hello_response-IsResponse}
use gocloak.Wire.{
  Status, FrameError, status_ok, status_denied, status_backend_unavailable, status_rate_limited,
  valid_status, valid_service_name, write_hello_request, read_hello_response,
}

-- The stream begins with the answer of this status.
abbrev pub Answers : Status → Conn → Type 0
Answers status conn = (rest : Bytes) × (conn.incoming ≡ response_frame status ++ rest)

abbrev code_of : Status → ℕ
code_of status =
    if nat_beq status status_denied
    then exit_denied
    else if nat_beq status status_backend_unavailable
    then exit_backend_unavailable
    else if nat_beq status status_rate_limited
    then exit_rate_limited
    else exit_error

abbrev code_of_send : Result MsgError (Bytes × Conn) → ℕ
code_of_send (ok _) = exit_ok
code_of_send (err _) = exit_error

module _ (net : Network) (cfg : SendConfig) (conn : Conn) (client : net.client ≡ ok tt)
    (control : net.control ≡ ok conn) (writes : conn.write_error ≡ none)
    (named : valid_service_name cfg.service ≡ true) where
  abbrev asked : Conn
  asked = record conn { sent = conn.sent ++ request_frame cfg.service }

  wrote : write_hello_request cfg.service conn ≡ ok asked
  wrote = write_hello_request-frame cfg.service conn named writes

  unreadable :
      (x : FrameError)
      → read_hello_response asked ≡ err x
      → (send_message net cfg).exit ≡ exit_error
  unfolding send_message deliver dial hello report_error
  unreadable x e = ground (arith, wrote)

  refused :
      (status : Status) (c : Conn)
      → read_hello_response asked ≡ ok (status, c)
      → nat_beq status status_ok ≡ false
      → (send_message net cfg).exit ≡ code_of status
  unfolding send_message deliver dial hello report_error status_error
  refused status c e other = ground (arith, wrote)

  granted :
      (c : Conn)
      → read_hello_response asked ≡ ok (status_ok, c)
      → (send_message net cfg).exit
        ≡ (if net.deadline_fails then exit_error else code_of_send (send cfg.message c))
  unfolding send_message deliver dial hello report_error status_error
  granted c e = elim (Result-cases (send cfg.message c)) [
    | inl (r, s) ↦ ground (arith, wrote)
    | inr (x, s) ↦ ground (arith, wrote)
  ]

  answered :
      (status : Status) (rest : Bytes)
      → valid_status status ≡ true
      → conn.incoming ≡ response_frame status ++ rest
      → read_hello_response asked ≡ ok (status, record asked { incoming = rest })
  answered status rest v e = (read_hello_response_iff asked status rest).1 (v, e)

  -- A code that only a refusal has comes from the answer with its status.
  told :
      (status : Status)
      → (code_of status ≡ exit_error → ⊥)
      → (code_of status ≡ exit_ok → ⊥)
      → (send_message net cfg).exit ≡ code_of status
      → Answers status conn
  told status refuses fails h = elim (Result-cases (read_hello_response asked)) [
    | inr (x, e) ↦ absurd (ground (arith, unreadable x e, refuses))
    | inl ((s, c), e) ↦
        let read = read_hello_response-IsResponse asked s c e in
        elim (Bool-cases (nat_beq s status_ok)) [
          | inr other ↦
              let code = refused s c e other in
              let same : s ≡ status = ground (arith, refuses) in (c.incoming, rw (← same) read.1)
          | inl fine ↦
              let is_ok : s ≡ status_ok = ground arith in
              let code = granted c (ground arith) in
              elim (Result-cases (send cfg.message c)) [
                | inl (r, d) ↦ absurd (ground (arith, refuses, fails))
                | inr (x, d) ↦ absurd (ground (arith, refuses, fails))
              ]
        ]
  ]

  -- The message reached the service: the server granted it, and the message was acknowledged.
  abbrev pub Delivered : Type 0
  Delivered =
      (rest : Bytes) × (conn.incoming ≡ response_frame status_ok ++ rest)
      × (net.deadline_fails ≡ false)
      × ((r : Bytes × Conn) × (send cfg.message (exchanged cfg.service rest conn) ≡ ok r))

  delivers : (send_message net cfg).exit ≡ exit_ok → Delivered
  delivers h = elim (Result-cases (read_hello_response asked)) [
    | inr (x, e) ↦ absurd (ground (arith, unreadable x e))
    | inl ((s, c), e) ↦
        let read = read_hello_response-IsResponse asked s c e in
        elim (Bool-cases (nat_beq s status_ok)) [
          | inr other ↦ absurd (ground (arith, refused s c e other))
          | inl fine ↦
              let is_ok : s ≡ status_ok = ground arith in
              let code = granted c (ground arith) in
              elim (Result-cases (send cfg.message c)) [
                | inl (r, d) ↦ (c.incoming, rw (← is_ok) read.1, ground arith, (r, rw (← read.2) d))
                | inr (x, d) ↦ absurd (ground arith)
              ]
        ]
  ]

  -- gocloak-send with a valid service name, once the tunnel is up on a connection that can be written. It
  -- exits with 10, 11 or 12 exactly if the server's answer begins with the frame of denied, of backend
  -- unavailable or of rate limited; and with 0 exactly if the answer begins with the frame of OK, the
  -- deadline can be set, and the message is sent and its acknowledgement read.
  pub send_message_exit :
      ((send_message net cfg).exit ≡ exit_denied ↔ Answers status_denied conn)
      × ((send_message net cfg).exit ≡ exit_backend_unavailable
          ↔ Answers status_backend_unavailable conn)
      × ((send_message net cfg).exit ≡ exit_rate_limited ↔ Answers status_rate_limited conn)
      × ((send_message net cfg).exit ≡ exit_ok ↔ Delivered)
  unfolding valid_status
  send_message_exit = (
    (
      told status_denied (λ e. absurd (ground arith)) (λ e. absurd (ground arith)),
      λ (rest, e). refused status_denied _ (answered status_denied rest refl e) refl,
    ),
    (
      told status_backend_unavailable (λ e. absurd (ground arith)) (λ e. absurd (ground arith)),
      λ (rest, e).
          refused status_backend_unavailable _ (answered status_backend_unavailable rest refl e)
            refl,
    ),
    (
      told status_rate_limited (λ e. absurd (ground arith)) (λ e. absurd (ground arith)),
      λ (rest, e). refused status_rate_limited _ (answered status_rate_limited rest refl e) refl,
    ),
    (
      delivers,
      λ (rest, e, set, (r, sent)).
          ground
            (arith, granted (record asked { incoming = rest }) (answered status_ok rest refl e)),
    ),
  )
