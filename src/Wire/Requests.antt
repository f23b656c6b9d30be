-- ===== src/Wire/Requests.antt =====
-- wire.go, `writeHelloRequest` and `readHelloRequest`: they agree on the frame.
use gocloak.Base.{
  ℕ, ◌≤◌, ◌<◌, ◌≡◌, ◌↔◌, ◌≢◌, refl, sym, ap, subst, Result-cases, ◌∙◌, true, Bytes, [], ◌∷◌, ◌++◌,
  arith, length, ok, err, none, inl, inr,
}
use gocloak.Conn.{Conn, write, short_read}
use gocloak.Conn.Reads.{read_full-append, read_full-Reads, read_full_short, Reads}
use gocloak.Wire.{
  FrameError, io, malformed, Malformation, valid_service_name, frame_version, write_hello_request,
  read_name, read_hello_request, refused_name, refused_status,
}
use gocloak.Wire.Names.{length_valid}

-- The frame that names a service.
abbrev pub request_frame : Bytes → Bytes
request_frame name = frame_version ∷ length name ∷ name

read_name-append :
    (name rest : Bytes) (s : Conn)
    → valid_service_name name ≡ true
    → read_name frame_version (length name) (record s { incoming = name ++ rest })
      ≡ ok (name, record s { incoming = rest })
unfolding read_name
read_name-append name rest s v =
    ground (arith, length_valid name, read_full-append (length name) s name rest refl)

pub read_hello_request-frame :
    (name rest : Bytes) (s : Conn)
    → valid_service_name name ≡ true
    → read_hello_request (record s { incoming = request_frame name ++ rest })
      ≡ ok (name, record s { incoming = rest })
unfolding read_hello_request
read_hello_request-frame name rest s v = ground (
  arith,
  read_full-append 2 s (frame_version ∷ length name ∷ []) (name ++ rest) refl,
  read_name-append name rest s v,
)

pub write_hello_request-frame :
    (name : Bytes) (w : Conn)
    → valid_service_name name ≡ true
    → w.write_error ≡ none
    → write_hello_request name w ≡ ok (record w { sent = w.sent ++ request_frame name })
unfolding write_hello_request write
write_hello_request-frame name w v e = ground (arith, length_valid name)

-- Whatever the client writes for a service name, the server reads back as that name, and it leaves the
-- bytes that follow unread.
pub read_hello_request-write_hello_request :
    (name rest : Bytes) (w s : Conn) {w' : Conn}
    → write_hello_request name w ≡ ok w'
    → (frame : Bytes) × (w'.sent ≡ w.sent ++ frame)
      × (read_hello_request (record s { incoming = frame ++ rest })
          ≡ ok (name, record s { incoming = rest }))
unfolding write_hello_request write
read_hello_request-write_hello_request name rest w s h = (
  request_frame name,
  ground (arith, length_valid name),
  ground (arith, read_hello_request-frame name rest s),
)

read_name-eq-ok :
    (version n : ℕ) (s : Conn) (name : Bytes) (s' : Conn)
    → read_name version n s ≡ ok (name, s')
    → (version ≡ frame_version) × (valid_service_name name ≡ true) × Reads n s name s'
unfolding read_name
read_name-eq-ok version n s name s' h =
    (ground arith, ground arith, read_full-Reads n s name s' (ground arith))

-- An accepted request: its frame is the one that the client writes for the name, and nothing behind
-- the frame is read.
pub record Accepted (s : Conn) (name : Bytes) (s' : Conn) : Type 0 where
  pub valid : valid_service_name name ≡ true
  pub splits : s.incoming ≡ request_frame name ++ s'.incoming
  pub rest : s' ≡ record s { incoming = s'.incoming }

-- The header is missing, or the request is decided by the two bytes of it and the stream behind them.
abbrev Header : Conn → Bytes → Type 0
Header s (version ∷ n ∷ body) =
    read_hello_request s ≡ read_name version n (record s { incoming = body })
Header s b = read_hello_request s ≡ err (io (short_read b s.ending))

read_hello_request-Header : (s : Conn) (b : Bytes) → s.incoming ≡ b → Header s b
unfolding read_hello_request
read_hello_request-Header s [] e = ground (arith, read_full_short 2 s)
read_hello_request-Header s (a ∷ []) e = ground (arith, read_full_short 2 s)
read_hello_request-Header s (version ∷ n ∷ body) e =
    ground (arith, read_full-append 2 s (version ∷ n ∷ []) body refl)

pub read_hello_request-Accepted :
    (s : Conn) (name : Bytes) (s' : Conn)
    → read_hello_request s ≡ ok (name, s')
    → Accepted s name s'
read_hello_request-Accepted s name s' h = go s.incoming refl
  where
    go : (b : Bytes) → s.incoming ≡ b → Accepted s name s'
    go [] e = cc (read_hello_request-Header s [] e)
    go (a ∷ []) e = cc (read_hello_request-Header s (a ∷ []) e)
    go (version ∷ n ∷ body) e =
        let run = read_hello_request-Header s (version ∷ n ∷ body) e in
        let (v, valid, r) =
          read_name-eq-ok version n (record s { incoming = body }) name s' (sym run ∙ h) in
        record {
          valid = valid;
          splits = ground (arith, r.splits, r.size);
          rest = ground (arith, r.rest);
        }

-- `readHelloRequest` accepts exactly the streams that start with the frame of a valid service name.
pub read_hello_request_iff :
    (s : Conn) (name rest : Bytes)
    → (read_hello_request s ≡ ok (name, record s { incoming = rest }))
      ↔ ((valid_service_name name ≡ true) × (s.incoming ≡ request_frame name ++ rest))
read_hello_request_iff s name rest = (
  (λ h. let a = read_hello_request-Accepted s name _ h in (a.valid, a.splits)),
  λ (valid, splits).
      subst
        (λ (b : Bytes).
          read_hello_request (record s { incoming = b }) ≡ ok (name, record s { incoming = rest }))
        (sym splits) (read_hello_request-frame name rest s valid),
)

read_name-eq-err :
    (version n : ℕ) (s : Conn) (x : FrameError)
    → read_name version n s ≡ err x
    → (m : Malformation) × (x ≡ malformed m)
unfolding read_name
read_name-eq-err version n s (malformed m) h = (m, refl)
read_name-eq-err version n s (io x) h = absurd (ground arith)
read_name-eq-err version n s refused_name h = absurd (ground arith)
read_name-eq-err version n s (refused_status _) h = absurd (ground arith)

-- The stream holds a whole header, and does not start with the frame of a valid name.
abbrev pub IsMalformed : Bytes → Type 0
IsMalformed b =
    (2 ≤ length b)
    × ((name rest : Bytes) → valid_service_name name ≡ true → b ≢ request_frame name ++ rest)

-- A request is reported malformed, and so is owed an answer, exactly if a whole header arrived and no
-- frame of a valid name stands at the start of the stream, also where the stream ends or fails inside the
-- name. Exactly with less than a header the error is that of the read: the one of the connection if nothing
-- arrived, and after one byte the same, except that an EOF is an unexpected EOF.
pub read_hello_request-malformed_iff :
    (s : Conn)
    → (((m : Malformation) × (read_hello_request s ≡ err (malformed m))) ↔ IsMalformed s.incoming)
      × ((read_hello_request s ≡ err (io (short_read s.incoming s.ending)))
          ↔ (length s.incoming < 2))
read_hello_request-malformed_iff s = ((to, from), (long s.incoming refl, short s.incoming refl))
  where
    short :
        (b : Bytes)
        → s.incoming ≡ b
        → length b < 2
        → read_hello_request s ≡ err (io (short_read b s.ending))
    short [] e h = read_hello_request-Header s [] e
    short (a ∷ []) e h = read_hello_request-Header s (a ∷ []) e
    short (version ∷ n ∷ body) e h = absurd (omega arith)

    long :
        (b : Bytes)
        → s.incoming ≡ b
        → read_hello_request s ≡ err (io (short_read s.incoming s.ending))
        → length s.incoming < 2
    long [] e h = rw e (omega arith)
    long (a ∷ []) e h = rw e (omega arith)
    long (version ∷ n ∷ body) e h =
        let run = read_hello_request-Header s (version ∷ n ∷ body) e in
        let (m, is) = read_name-eq-err version n (record s { incoming = body }) _ (sym run ∙ h) in
        absurd (cc is)

    header :
        (b : Bytes)
        → s.incoming ≡ b
        → (m : Malformation) → read_hello_request s ≡ err (malformed m)
        → 2 ≤ length b
    header [] e m h = cc (read_hello_request-Header s [] e)
    header (a ∷ []) e m h = cc (read_hello_request-Header s (a ∷ []) e)
    header (version ∷ n ∷ body) e m h = omega arith

    to : ((m : Malformation) × (read_hello_request s ≡ err (malformed m))) → IsMalformed s.incoming
    to (m, h) = (
      header s.incoming refl m h,
      λ name rest v e. cc ((read_hello_request_iff s name rest).1 (v, e), h),
    )

    refused :
        (b : Bytes)
        → s.incoming ≡ b
        → 2 ≤ length b
        → (x : FrameError) → read_hello_request s ≡ err x
        → (m : Malformation) × (read_hello_request s ≡ err (malformed m))
    refused [] e two x h = absurd (omega arith)
    refused (a ∷ []) e two x h = absurd (omega arith)
    refused (version ∷ n ∷ body) e two x h =
        let run = read_hello_request-Header s (version ∷ n ∷ body) e in
        let (m, is) = read_name-eq-err version n (record s { incoming = body }) x (sym run ∙ h) in
        (m, h ∙ ap err is)

    from : IsMalformed s.incoming → (m : Malformation) × (read_hello_request s ≡ err (malformed m))
    from (two, bad) = elim (Result-cases (read_hello_request s)) [
      | inl ((name, s'), h) ↦
          let a = read_hello_request-Accepted s name s' h in
          absurd (bad name s'.incoming a.valid a.splits)
      | inr (x, h) ↦ refused s.incoming refl two x h
    ]
