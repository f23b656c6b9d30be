-- ===== src/Client/Hello.antt =====
-- client.go, `hello` and `clientTunnelIP`: when a dial succeeds, and which addresses a client may have.
use gocloak.Base.{◌≡◌, ◌↔◌, inl, inr, refl, true, Bytes, ◌++◌, none, arith, ok, Result-cases}
use gocloak.Client.{status_error, hello}
use gocloak.Conn.{Conn}
use gocloak.Wire.Requests.{request_frame, write_hello_request-frame}
use gocloak.Wire.Responses.{response_frame, read_hello_response_iff}
use gocloak.Wire.{
  status_ok, valid_status, valid_service_name, write_hello_request, read_hello_response,
}

-- What a dial leaves of a connection: the request is written, the answer is read.
abbrev pub exchanged : Bytes → Bytes → Conn → Conn
exchanged service rest c = record c { incoming = rest; sent = c.sent ++ request_frame service }

-- On a connection that can be written and for a valid service name, a dial succeeds, and leaves the bytes
-- behind the answer to the application, exactly if the server's answer is the frame of status OK.
pub hello_iff :
    (service rest : Bytes) (c : Conn)
    → valid_service_name service ≡ true
    → c.write_error ≡ none
    → (hello service c ≡ ok (exchanged service rest c))
      ↔ (c.incoming ≡ response_frame status_ok ++ rest)
unfolding hello status_error
hello_iff service rest c valid writes = (to, from)
  where
    c1 : Conn
    c1 = record c { sent = c.sent ++ request_frame service }

    wrote : write_hello_request service c ≡ ok c1
    wrote = write_hello_request-frame service c valid writes

    to :
        hello service c ≡ ok (exchanged service rest c)
        → c.incoming ≡ response_frame status_ok ++ rest
    to h = elim (Result-cases (read_hello_response c1)) [
      | inl ((status, c2), e) ↦
          let granted : status ≡ status_ok = ground (arith, wrote) in
          let same : c2 ≡ record c1 { incoming = rest } = ground (arith, wrote) in
          ((read_hello_response_iff c1 status_ok rest).0 (ground arith)).1
      | inr (x, e) ↦ absurd (ground (arith, wrote))
    ]

    from :
        c.incoming ≡ response_frame status_ok ++ rest
        → hello service c ≡ ok (exchanged service rest c)
    from e =
        let read = (read_hello_response_iff c1 status_ok rest).1 (unfold valid_status in refl, e) in
        ground (arith, wrote)
