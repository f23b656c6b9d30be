-- ===== src/Wire/Responses.antt =====
-- wire.go, `writeHelloResponse` and `readHelloResponse`: the client fails closed.
use gocloak.Base.{ℕ, ◌≡◌, ◌↔◌, refl, sym, subst, ◌∙◌, true, Bytes, [], ◌∷◌, ◌++◌, arith, ok, err}
use gocloak.Conn.{Conn, write, short_read}
use gocloak.Conn.Reads.{read_full-append, read_full_short}
use gocloak.Wire.{
  Status, io, valid_status, frame_version, write_hello_response, check_response,
  read_hello_response,
}

abbrev pub response_frame : Status → Bytes
response_frame status = frame_version ∷ status ∷ []

pub read_hello_response-frame :
    (status : Status) (rest : Bytes) (s : Conn)
    → valid_status status ≡ true
    → read_hello_response (record s { incoming = response_frame status ++ rest })
      ≡ ok (status, record s { incoming = rest })
unfolding read_hello_response check_response
read_hello_response-frame status rest s v =
    ground (arith, read_full-append 2 s (response_frame status) rest refl)

abbrev Header : Conn → Bytes → Type 0
Header s (version ∷ status ∷ body) =
    read_hello_response s ≡ check_response version status (record s { incoming = body })
Header s b = read_hello_response s ≡ err (io (short_read b s.ending))

read_hello_response-Header : (s : Conn) (b : Bytes) → s.incoming ≡ b → Header s b
unfolding read_hello_response
read_hello_response-Header s [] e = ground (arith, read_full_short 2 s)
read_hello_response-Header s (a ∷ []) e = ground (arith, read_full_short 2 s)
read_hello_response-Header s (version ∷ status ∷ body) e =
    ground (arith, read_full-append 2 s (version ∷ status ∷ []) body refl)

-- What an accepted response looks like.
abbrev pub IsResponse : Status → Conn → Conn → Type 0
IsResponse status s s' =
    (valid_status status ≡ true)
    × (s.incoming ≡ response_frame status ++ s'.incoming)
    × (s' ≡ record s { incoming = s'.incoming })

check_response-eq-ok :
    (version status' : ℕ) (s : Conn) (status : Status) (s' : Conn)
    → check_response version status' s ≡ ok (status, s')
    → (version ≡ frame_version) × (status ≡ status') × (s' ≡ s) × (valid_status status ≡ true)
unfolding check_response
check_response-eq-ok version status' s status s' h =
    (ground arith, ground arith, ground arith, ground arith)

pub read_hello_response-IsResponse :
    (s : Conn) (status : Status) (s' : Conn)
    → read_hello_response s ≡ ok (status, s')
    → IsResponse status s s'
read_hello_response-IsResponse s status s' h = go s.incoming refl
  where
    go : (b : Bytes) → s.incoming ≡ b → IsResponse status s s'
    go [] e = cc (read_hello_response-Header s [] e)
    go (a ∷ []) e = cc (read_hello_response-Header s (a ∷ []) e)
    go (version ∷ n ∷ body) e =
        let run = read_hello_response-Header s (version ∷ n ∷ body) e in
        let (v, n_is, s'_is, valid) =
          check_response-eq-ok version n (record s { incoming = body }) status s' (sym run ∙ h) in
        (valid, ground (arith, s'_is), ground (arith, s'_is))

-- `readHelloResponse` returns a status and leaves a rest to read exactly if the status is one of the five
-- and the stream is the version, this status and the rest.
pub read_hello_response_iff :
    (s : Conn) (status : Status) (rest : Bytes)
    → (read_hello_response s ≡ ok (status, record s { incoming = rest }))
      ↔ ((valid_status status ≡ true) × (s.incoming ≡ response_frame status ++ rest))
read_hello_response_iff s status rest = (
  (λ h. let r = read_hello_response-IsResponse s status _ h in (r.0, r.1)),
  λ (valid, splits).
      subst
        (λ (b : Bytes).
          read_hello_response (record s { incoming = b })
          ≡ ok (status, record s { incoming = rest }))
        (sym splits) (read_hello_response-frame status rest s valid),
)

-- Whatever status the server writes, the client reads back, and it leaves the bytes that follow unread.
pub read_hello_response-write_hello_response :
    (status : Status) (rest : Bytes) (w s : Conn) {w' : Conn}
    → write_hello_response status w ≡ ok w'
    → (frame : Bytes) × (w'.sent ≡ w.sent ++ frame)
      × (read_hello_response (record s { incoming = frame ++ rest })
          ≡ ok (status, record s { incoming = rest }))
unfolding write_hello_response write
read_hello_response-write_hello_response status rest w s h =
    (response_frame status, ground arith, ground (arith, read_hello_response-frame status rest s))
