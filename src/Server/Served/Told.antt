-- ===== src/Server/Served/Told.antt =====
-- client.go, `hello`, against server.go, `handleConn`: what the server decides is what the dial returns.
use gocloak.Base.{
  ℕ, ◌≡◌, ◌⊎◌, ◌≢◌, inl, inr, refl, ◌↔◌, ◌∙◌, ap, sym, subst, Bool-cases, true, false, Bytes, [],
  ◌++◌, Option, none, some, arith, nat_beq, Result, ok, err, ◌>>◌, Option-cases,
}
use gocloak.Client.Hello.{exchanged}
use gocloak.Client.{
  DialError, exchange_failed, denied, backend_unavailable, rate_limited, malformed_request,
  unexpected_status, invalid_service_name, status_error, hello,
}
use gocloak.Conn.{Conn}
use gocloak.Limiter.{Verdict, allowed, refused, Cap, acquire}
use gocloak.Net.{Addr, AddrPort}
use gocloak.Policy.{resolve}
use gocloak.Server.Served.{Surroundings, Course, proxies, handle_conn}
use gocloak.Server.{Server, limiter_for}
use gocloak.Wire.Names.{length_valid}
use gocloak.Wire.Requests.{request_frame, write_hello_request-frame}
use gocloak.Wire.Responses.{response_frame, read_hello_response-frame}
use gocloak.Wire.{
  FrameError, io, Status, valid_status, valid_service_name, write_hello_request,
  read_hello_response, status_ok, status_denied, status_backend_unavailable, status_rate_limited,
}
use gocloak.Conn.{write}
use gocloak.Conn.Reads.{read_full_short}
use gocloak.Server.Served.Runs.{
  Call, asked_by, LetIn, at_check, run, run-unknown, run-limited, run-denied, run-unavailable,
  run-proxied, run-revoked,
}

-- The client reads what the server has written.
abbrev pub answer_from : Conn → Conn → Conn
answer_from conn c = record c { incoming = conn.sent }

module _ (service : Bytes) (c : Conn) (valid : valid_service_name service ≡ true)
    (writes : c.write_error ≡ none) where
  wrote :
      (conn : Conn)
      → write_hello_request service (answer_from conn c)
        ≡ ok (record c { incoming = conn.sent; sent = c.sent ++ request_frame service })
  wrote conn = write_hello_request-frame service (answer_from conn c) valid writes

  hello-answered :
      (status : Status)
      → valid_status status ≡ true
      → (conn : Conn) → conn.sent ≡ response_frame status
      → hello service (answer_from conn c) ≡ (status_error status >> ok (exchanged service [] c))
  unfolding hello
  hello-answered status v conn sent =
      ground (arith, wrote conn, read_hello_response-frame status [] (exchanged service [] c) v)

  hello-silent :
      (conn : Conn)
      → conn.sent ≡ []
      → hello service (answer_from conn c) ≡ err (exchange_failed (io c.ending))
  unfolding hello read_hello_response
  hello-silent conn sent = ground (arith, wrote conn, read_full_short 2 (exchanged service [] c))

-- What a result of the dial tells of the server. A success: the peer was let in, the policy grants the
-- service at a backend that took the connection, the limiter is still the one in force, and the server has
-- become a proxy to this backend. An end of the stream: the address has no limiter, or it has another one
-- when the handler checks again.
abbrev pub Tells :
    Surroundings → ℕ → Addr → Server → Bytes → Conn → Course → Result DialError Conn → Type 0
Tells around now ip s service c course (ok c') =
    (c' ≡ exchanged service [] c)
    × (l : ℕ) × (backend : AddrPort) × LetIn now ip s l
    × (resolve around.policy ip service ≡ some backend)
    × (around.takes backend ≡ true)
    × (limiter_for (at_check around now ip s) ip ≡ some l)
    × (course ≡ proxies backend)
Tells around now ip s service c course (err denied) =
    (l : ℕ) × LetIn now ip s l × (resolve around.policy ip service ≡ none)
Tells around now ip s service c course (err backend_unavailable) =
    (l : ℕ) × (backend : AddrPort) × LetIn now ip s l
    × (resolve around.policy ip service ≡ some backend)
    × (around.takes backend ≡ false)
Tells around now ip s service c course (err rate_limited) =
    (l : ℕ) × (k : Cap) × (limiter_for s ip ≡ some l) × ((acquire now (s.heap l)).1 ≡ refused k)
Tells around now ip s service c course (err (exchange_failed x)) =
    (x ≡ io c.ending)
    × ((limiter_for s ip ≡ none)
        ⊎ ((l : ℕ) × (backend : AddrPort) × LetIn now ip s l
            × (resolve around.policy ip service ≡ some backend)
            × (around.takes backend ≡ true)
            × (limiter_for (at_check around now ip s) ip ≢ some l)))
Tells around now ip s service c course (err _) = ⊥

Verdict-cases : (v : Verdict) → (v ≡ allowed) ⊎ ((k : Cap) × (v ≡ refused k))
Verdict-cases allowed = inl refl
Verdict-cases (refused k) = inr (k, refl)

opt_eq : (o : Option ℕ) (l : ℕ) → (o ≡ some l) ⊎ (o ≢ some l)
opt_eq none l = inr (λ e. cc)
opt_eq (some k) l = elim (Bool-cases (nat_beq k l)) [
  | inl same ↦ inl (ground arith)
  | inr other ↦ inr (λ e. ground arith)
]

module _ (t : Call) (c : Conn) (writes : c.write_error ≡ none) where
  abbrev here : Conn × Course
  here = run t

  abbrev told : Result DialError Conn
  told = hello t.service (answer_from here.0 c)

  abbrev IsTold : Result DialError Conn → Type 0
  IsTold = Tells t.around t.now t.ip t.s t.service c here.1

  told-status :
      (status : Status) (x : Conn) (k : Course)
      → valid_status status ≡ true
      → x.sent ≡ response_frame status
      → here ≡ (x, k)
      → told ≡ (status_error status >> ok (exchanged t.service [] c))
  told-status status x k v sent e =
      hello-answered t.service c t.valid writes status v here.0
        (ap (λ (p : Conn × Course). p.0.sent) e ∙ sent)

  told-silent :
      (x : Conn) (k : Course)
      → x.sent ≡ []
      → here ≡ (x, k)
      → told ≡ err (exchange_failed (io c.ending))
  told-silent x k sent e =
      hello-silent t.service c t.valid writes here.0 (ap (λ (p : Conn × Course). p.0.sent) e ∙ sent)

  told-IsTold : (r : Result DialError Conn) → IsTold r → told ≡ r
  unfolding status_error valid_status
  told-IsTold (ok c') (same, l, backend, i, granted, takes, still, course) =
      told-status status_ok _ _ refl refl (run-proxied t l backend i granted takes still)
      ∙ ap ok (sym same)
  told-IsTold (err denied) (l, i, none_granted) =
      told-status status_denied _ _ refl refl (run-denied t l i none_granted)
  told-IsTold (err backend_unavailable) (l, backend, i, granted, takes) =
      told-status status_backend_unavailable _ _ refl refl
        (run-unavailable t l backend i granted takes)
  told-IsTold (err rate_limited) (l, k, e, v) =
      told-status status_rate_limited _ _ refl refl (run-limited t l k e v)
  told-IsTold (err (exchange_failed x)) (same, inl unknown) =
      told-silent _ _ t.fresh (run-unknown t unknown)
      ∙ ap (λ (y : FrameError). err (exchange_failed y)) (sym same)
  told-IsTold (err (exchange_failed x)) (same, inr (l, backend, i, granted, takes, gone)) =
      told-silent _ _ t.fresh (run-revoked t l backend i granted takes gone)
      ∙ ap (λ (y : FrameError). err (exchange_failed y)) (sym same)
  told-IsTold (err invalid_service_name) impossible = elim impossible [ ]
  told-IsTold (err malformed_request) impossible = elim impossible [ ]
  told-IsTold (err (unexpected_status _)) impossible = elim impossible [ ]

  known : (r : Result DialError Conn) → IsTold r → IsTold told
  known r t = subst IsTold (sym (told-IsTold r t)) t

  checked :
      (l : ℕ) (backend : AddrPort)
      → LetIn t.now t.ip t.s l
      → resolve t.around.policy t.ip t.service ≡ some backend
      → t.around.takes backend ≡ true
      → IsTold told
  checked l backend i granted takes =
      elim (opt_eq (limiter_for (at_check t.around t.now t.ip t.s) t.ip) l) [
        | inl still ↦ known (ok (exchanged t.service [] c)) (
          refl,
          l,
          backend,
          i,
          granted,
          takes,
          still,
          ap (λ (p : Conn × Course). p.1) (run-proxied t l backend i granted takes still),
        )
        | inr gone ↦
            known (err (exchange_failed (io c.ending)))
              (refl, inr (l, backend, i, granted, takes, gone))
      ]

  let_in : (l : ℕ) → LetIn t.now t.ip t.s l → IsTold told
  let_in l i = elim (Option-cases (resolve t.around.policy t.ip t.service)) [
    | inl none_granted ↦ known (err denied) (l, i, none_granted)
    | inr (backend, granted) ↦ elim (Bool-cases (t.around.takes backend)) [
      | inl takes ↦ checked l backend i granted takes
      | inr takes ↦ known (err backend_unavailable) (l, backend, i, granted, takes)
    ]
  ]

  always_told : IsTold told
  always_told = elim (Option-cases (limiter_for t.s t.ip)) [
    | inl unknown ↦ known (err (exchange_failed (io c.ending))) (refl, inl unknown)
    | inr (l, e) ↦ elim (Verdict-cases (acquire t.now (t.s.heap l)).1) [
      | inl v ↦ let_in l (e, v)
      | inr (k, v) ↦ known (err rate_limited) (l, k, e, v)
    ]
  ]

  told_iff : (r : Result DialError Conn) → (told ≡ r) ↔ IsTold r
  told_iff r = ((λ e. subst IsTold e always_told), told-IsTold r)

writes-frame :
    (service : Bytes) (c c1 : Conn)
    → write_hello_request service c ≡ ok c1
    → (valid_service_name service ≡ true)
      × (c.write_error ≡ none)
      × (c1.sent ≡ c.sent ++ request_frame service)
unfolding write_hello_request write
writes-frame service c c1 h = (ground arith, ground arith, ground (arith, length_valid service))

-- A client has written its hello on a fresh connection to the server, whose writes succeed, and reads
-- exactly what the handler writes before the pipe starts. Whatever the other goroutines do during the
-- handler's two waits, the dial's result is `r` exactly if `Tells` holds of `r`: success exactly if the peer
-- was let in, granted a backend that took the connection, and not revoked meanwhile; `denied`,
-- `backend_unavailable` and `rate_limited` exactly for a missing grant, a backend that did not take the
-- connection and a refusal of the limiter; the error of the stream's end for an unknown or a revoked peer;
-- no other error.
pub hello-handle_conn :
    (around : Surroundings) (id now : ℕ) (ip : Addr) (s : Server) (service later : Bytes)
    (conn c c1 : Conn) (r : Result DialError Conn)
    → conn.sent ≡ []
    → conn.write_error ≡ none
    → c.sent ≡ []
    → write_hello_request service c ≡ ok c1
    → (hello service
          (answer_from (handle_conn around id now (some ip) s (asked_by c1.sent later conn)).1 c)
        ≡ r)
      ↔ Tells around now ip s service c
          (handle_conn around id now (some ip) s (asked_by c1.sent later conn)).2
          r
hello-handle_conn around id now ip s service later conn c c1 r fresh opened unsent h =
    let (valid, writes, sent) = writes-frame service c c1 h in
    subst
      (λ (w : Bytes).
        (hello service
            (answer_from (handle_conn around id now (some ip) s (asked_by w later conn)).1 c)
          ≡ r)
        ↔ Tells around now ip s service c
            (handle_conn around id now (some ip) s (asked_by w later conn)).2 r)
      (sym (sent ∙ ap (λ (b : Bytes). b ++ request_frame service) unsent))
      (told_iff
        (record {
          around = around;
          id = id;
          now = now;
          ip = ip;
          s = s;
          service = service;
          later = later;
          conn = conn;
          valid = valid;
          fresh = fresh;
          opened = opened;
        })
        c writes r)
