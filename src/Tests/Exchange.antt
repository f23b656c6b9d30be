-- ===== src/Tests/Exchange.antt =====
-- client.go, `Dial` on a connection: the budget ends between the read of the answer and `stop`.
use gocloak.Base.{◌≡◌, refl, true, false, some, ok, err, [], ◌∷◌}
use gocloak.Client.Exchange.HandedOver.{dial_connected-hands_over}
use gocloak.Client.Exchange.{
  Surroundings, ExchangeError, budget_over, frame_failed, is_over, stops, writes, dial_connected,
}
use gocloak.Client.{hello, status_error}
use gocloak.Conn.{Conn, write, read_full}
use gocloak.Tests.Data.{db, open_conn}
use gocloak.Wire.{
  FrameError, write_hello_request, read_hello_response, valid_service_name, check_response,
  valid_status,
}

abbrev late : Surroundings
late = record {
  over_at = some 5;
  close_delay = 100;
  write_deadline_fails = false;
  read_deadline_fails = false;
  clear_fails = false;
}

abbrev line : Conn
line = open_conn (1 ∷ 0 ∷ 42 ∷ [])

not_handed_over : (dial_connected late db line).result ≡ err budget_over
unfolding dial_connected write_hello_request read_hello_response valid_service_name check_response
    valid_status write read_full status_error
not_handed_over = refl

dial_connected-hands_over_example :
    let d = dial_connected late db line in
    ((c' : Conn) → d.result ≡ ok c' → (d.closed ≡ false) × (hello db line ≡ ok c'))
    × ((e : ExchangeError) → d.result ≡ err e → d.closed ≡ true)
    × ((c' : Conn)
        → is_over late stops ≡ false
        → late.write_deadline_fails ≡ false
        → late.read_deadline_fails ≡ false
        → late.clear_fails ≡ false
        → hello db line ≡ ok c'
        → d.result ≡ ok c')
    × ((f : FrameError) → d.result ≡ err (frame_failed f) → is_over late writes ≡ false)
dial_connected-hands_over_example = dial_connected-hands_over late db line
