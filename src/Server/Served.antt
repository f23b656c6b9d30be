-- ===== src/Server/Served.antt =====
-- server.go, `handleConn` as one run, from accept to the start of `pipeConns`. The other goroutines get
-- their turn at two places, while the handler waits for the hello and while it dials the backend.
pub mod Runs
pub mod Told
use gocloak.Base.{ℕ, Bool, Bytes, Option, Result, ok, err, if◌then◌else◌}
use gocloak.Conn.{Conn}
use gocloak.Net.{Addr, AddrPort}
use gocloak.Policy.{Policy}
use gocloak.Server.Handler.{
  Ending, silent, answered, Admission, turned_away, admitted, admit, Decision, refuse, dial, decide,
  register, still_in_force, leave, leave_unregistered,
}
use gocloak.Server.{Server}
use gocloak.Wire.{
  Status, FrameError, status_ok, status_backend_unavailable, read_hello_request,
  write_hello_response,
}

-- What the handler meets: the work of other goroutines on the server during its two waits, the policy
-- in force between them, and whether a backend takes the connection.
pub record Surroundings : Type 0 where
  pub while_reading : Server → Server
  pub policy : Policy
  pub takes : AddrPort → Bool
  pub while_dialling : Server → Server

-- How the setup ends: the connection is closed, or it becomes a proxy to a backend.
pub data Course : Type 0 where
  closes : Ending → Course
  proxies : AddrPort → Course

-- `respond`; the error of `SetWriteDeadline` counts as one of the write.
unfoldable pub respond : Status → Conn → Result FrameError Conn
respond status conn = write_hello_response status conn

abbrev or_as_it_was : Conn → Result FrameError Conn → Conn
or_as_it_was conn (ok conn') = conn'
or_as_it_was conn (err _) = conn

-- A last status frame, the error of which the source ignores.
unfoldable pub farewell : Ending → Conn → Conn
farewell silent conn = conn
farewell (answered status) conn = or_as_it_was conn (respond status conn)

abbrev pub Handled : Type 0
Handled = Server × Conn × Course

-- The last step before the pipe: status OK.
unfoldable pub confirm : ℕ → ℕ → AddrPort → Server → Conn → Handled
confirm c l backend s conn = elim (respond status_ok conn) [
  | ok conn' ↦ (s, conn', proxies backend)
  | err _ ↦ (leave c l s, conn, closes silent)
]

-- Behind the backend's connection: registered first, then checked again.
unfoldable pub set_up : ℕ → Addr → ℕ → AddrPort → Server → Conn → Handled
set_up c ip l backend s conn =
    if still_in_force ip l (register c l s)
    then confirm c l backend (register c l s) conn
    else (leave c l (register c l s), conn, closes silent)

-- Behind the hello.
unfoldable pub carry_out : Surroundings → ℕ → Addr → ℕ → Decision → Server → Conn → Handled
carry_out around c ip l (refuse e) s conn = (leave_unregistered l s, farewell e conn, closes e)
carry_out around c ip l (dial service backend) s conn =
    if around.takes backend then set_up c ip l backend (around.while_dialling s) conn else (
      leave_unregistered l (around.while_dialling s),
      farewell (answered status_backend_unavailable) conn,
      closes (answered status_backend_unavailable),
    )

abbrev unread : Conn → Result FrameError (Bytes × Conn) → Conn
unread conn (ok (_, conn')) = conn'
unread conn (err _) = conn

-- Behind the admission: the hello is read, and the policy decides.
unfoldable pub attend : Surroundings → ℕ → Admission → Server → Conn → Handled
attend around c (turned_away e) s conn = (s, farewell e conn, closes e)
attend around c (admitted ip l) s conn =
    let request = read_hello_request conn in
    carry_out around c ip l (decide around.policy ip request) (around.while_reading s)
      (unread conn request)

-- `handleConn`, on the connection named `c`, at time `now`.
unfoldable pub handle_conn : Surroundings → ℕ → ℕ → Option Addr → Server → Conn → Handled
handle_conn around c now remote s conn =
    let (s', admission) = admit now remote s in attend around c admission s' conn
