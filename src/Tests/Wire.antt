-- ===== src/Tests/Wire.antt =====
-- wire.go on concrete frames.
use gocloak.Base.{◌≡◌, ◌↔◌, refl, true, Bytes, [], ◌∷◌, ◌++◌, ok, err, codes}
use gocloak.Conn.{Conn, write}
use gocloak.Tests.Data.{db, open_conn}
use gocloak.Wire.Names.{IsServiceName, valid_service_name_iff}
use gocloak.Conn.{short_read}
use gocloak.Base.{length, ◌<◌}
use gocloak.Wire.Requests.{
  request_frame, IsMalformed, read_hello_request_iff, read_hello_request-write_hello_request,
  read_hello_request-malformed_iff,
}
use gocloak.Wire.{
  io, status_denied, valid_service_name, valid_status, Malformation, malformed, write_hello_request,
  read_hello_request, write_hello_response,
}

valid_service_name_iff_example :
    (valid_service_name (codes "db-1") ≡ true) ↔ IsServiceName (codes "db-1")
valid_service_name_iff_example = valid_service_name_iff (codes "db-1")

abbrev request : Conn
request = open_conn (1 ∷ 2 ∷ b'd' ∷ b'b' ∷ 42 ∷ [])

read_hello_request_iff_example :
    (read_hello_request request ≡ ok (db, record request { incoming = 42 ∷ [] }))
    ↔ ((valid_service_name db ≡ true) × (request.incoming ≡ request_frame db ++ (42 ∷ [])))
read_hello_request_iff_example = read_hello_request_iff request db (42 ∷ [])

read_hello_request-malformed_iff_example :
    (((m : Malformation) × (read_hello_request request ≡ err (malformed m)))
      ↔ IsMalformed request.incoming)
    × ((read_hello_request request ≡ err (io (short_read request.incoming request.ending)))
        ↔ (length request.incoming < 2))
read_hello_request-malformed_iff_example = read_hello_request-malformed_iff request

wrote : write_hello_request db (open_conn []) ≡ ok (record (open_conn []) { sent = 1 ∷ 2 ∷ db })
unfolding write_hello_request valid_service_name write
wrote = refl

read_hello_request-write_hello_request_example :
    (frame : Bytes) × ((1 ∷ 2 ∷ db) ≡ [] ++ frame)
    × (read_hello_request (record (open_conn []) { incoming = frame ++ (42 ∷ []) })
        ≡ ok (db, record (open_conn []) { incoming = 42 ∷ [] }))
read_hello_request-write_hello_request_example =
    read_hello_request-write_hello_request db (42 ∷ []) (open_conn []) (open_conn []) wrote

abbrev response : Conn
response = open_conn (1 ∷ 1 ∷ [])

answered :
    write_hello_response status_denied (open_conn [])
    ≡ ok (record (open_conn []) { sent = 1 ∷ 1 ∷ [] })
unfolding write_hello_response valid_status write
answered = refl
