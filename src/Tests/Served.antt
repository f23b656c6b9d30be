-- ===== src/Tests/Served.antt =====
-- client.go and server.go together: a listed peer dials its service.
use gocloak.Base.{◌≡◌, ◌↔◌, refl, true, [], Result, ok}
use gocloak.Client.Hello.{exchanged}
use gocloak.Client.{DialError, hello}
use gocloak.Conn.{Conn, write}
use gocloak.Server.Served.Runs.{asked_by}
use gocloak.Server.Served.Told.{answer_from, Tells, hello-handle_conn}
use gocloak.Server.Served.{Surroundings, Handled, handle_conn}
use gocloak.Base.{some}
use gocloak.Tests.Data.{db, laptop, open_conn}
use gocloak.Tests.Policy.{policy}
use gocloak.Tests.Server.{one_peer}
use gocloak.Wire.Requests.{request_frame}
use gocloak.Wire.{write_hello_request, valid_service_name}

abbrev quiet : Surroundings
quiet = record {
  while_reading = λ s. s;
  policy = policy;
  takes = λ backend. true;
  while_dialling = λ s. s;
}

abbrev caller : Conn
caller = open_conn []

abbrev called : Conn
called = record caller { sent = request_frame db }

abbrev handled : Handled
handled = handle_conn quiet 7 0 (some laptop) one_peer (asked_by called.sent [] (open_conn []))

abbrev granted : Result DialError Conn
granted = ok (exchanged db [] caller)

calls : write_hello_request db caller ≡ ok called
unfolding write_hello_request write valid_service_name
calls = refl

hello-handle_conn_example :
    (hello db (answer_from handled.1 caller) ≡ granted)
    ↔ Tells quiet 0 laptop one_peer db caller handled.2 granted
hello-handle_conn_example =
    hello-handle_conn quiet 7 0 laptop one_peer db [] (open_conn []) caller called granted refl refl
      refl calls
