-- ===== src/Tests/System.antt =====
-- server.go: one connection of one peer, from its accept to the proxy.
use gocloak.Base.{
  ◌≡◌, refl, true, false, [], ◌∷◌, some, Any, contains, nat_eq, lookup, insert, bytes_beq,
}
use gocloak.Conn.{Conn, read_full}
use gocloak.Limiter.{new_peer_limiter, set_limits, acquire, refill, spend, track}
use gocloak.Net.{unmap, addr_beq}
use gocloak.Policy.{resolve}
use gocloak.Server.Handler.{admit, verdict_admission, decide, register, still_in_force}
use gocloak.Server.Holders.{IsHolder, refresh_peers-IsHolder}
use gocloak.Server.System.Revocation.{IsStarted, revocation}
use gocloak.Server.System.{
  Phase, unborn, proxying, System, Step, Reach, here, next, after_admit, after_decide, after_check,
  at_phase,
}
use gocloak.Server.System
use gocloak.Server.{limiter_for, refresh_peers, rebuild, refresh_peer, keep_or_make, same_peer}
use gocloak.Tests.Config.{config}
use gocloak.Tests.Data.{db, laptop, backend, open_conn}
use gocloak.Tests.Server.{peers, no_peers, no_peers-IsServer, one_peer, one_peer-IsServer}
use gocloak.Wire.{read_hello_request, read_name, valid_service_name}

abbrev pub start : System
start = record {
  server = one_peer;
  config = config;
  listed = peers;
  phase = λ c. unborn;
  closed = λ c. false;
  pending = [];
  closing = [];
}

pub starts : IsStarted start
starts = record {
  server_ok = one_peer-IsServer;
  listed = λ ip l h. refresh_peers-IsHolder 0 peers no_peers ip l no_peers-IsServer h;
  nobody = λ c. refl;
}

abbrev request : Conn
request = open_conn (1 ∷ 2 ∷ b'd' ∷ b'b' ∷ [])

abbrev pub accepted : System
accepted = after_admit 7 (admit 1 (some laptop) start.server) start

abbrev pub decided : System
decided =
    after_decide 7 laptop 0 (decide accepted.config.policy laptop (read_hello_request request))
      accepted

abbrev pub dialled : System
dialled = at_phase 7 (System.dialled laptop 0 db backend) decided

abbrev pub tracked : System
tracked = record (at_phase 7 (System.tracked laptop 0 db backend) dialled) {
  server = register 7 0 dialled.server;
}

abbrev pub proxied : System
proxied = after_check 7 laptop 0 db backend (still_in_force laptop 0 tracked.server) tracked

admission : accepted.phase 7 ≡ System.reading laptop 0
unfolding after_admit admit verdict_admission acquire refill spend limiter_for refresh_peers rebuild
    refresh_peer keep_or_make same_peer new_peer_limiter set_limits lookup insert unmap addr_beq
admission = refl

decision : decided.phase 7 ≡ System.dialling laptop 0 db backend
unfolding after_admit admit verdict_admission acquire refill spend limiter_for refresh_peers rebuild
    refresh_peer keep_or_make same_peer new_peer_limiter set_limits lookup insert unmap addr_beq
    after_decide decide read_hello_request read_full read_name valid_service_name resolve bytes_beq
decision = refl

pub passed : proxied.phase 7 ≡ proxying laptop 0 db backend
unfolding after_admit admit verdict_admission acquire refill spend limiter_for refresh_peers rebuild
    refresh_peer keep_or_make same_peer new_peer_limiter set_limits lookup insert unmap addr_beq
    after_decide decide read_hello_request read_full read_name valid_service_name resolve bytes_beq
    register track contains after_check still_in_force
passed = refl

quiet : (proxied.pending ≡ []) × (proxied.closing ≡ [])
unfolding after_admit admit verdict_admission acquire refill spend limiter_for refresh_peers rebuild
    refresh_peer keep_or_make same_peer new_peer_limiter set_limits lookup insert unmap addr_beq
    after_decide decide read_hello_request read_full read_name valid_service_name resolve bytes_beq
    register track contains after_check still_in_force
quiet = (refl, refl)

opened : proxied.closed 7 ≡ false
unfolding after_admit admit verdict_admission acquire refill spend limiter_for refresh_peers rebuild
    refresh_peer keep_or_make same_peer new_peer_limiter set_limits lookup insert unmap addr_beq
    after_decide decide read_hello_request read_full read_name valid_service_name resolve bytes_beq
    register track contains after_check still_in_force
opened = refl

pub run : Reach start proxied
run =
    next
      (next
        (next
          (next (next here (System.accepts 7 1 (some laptop) refl))
            (System.hellos 7 laptop 0 request admission))
          (System.dials 7 laptop 0 db backend decision))
        (System.tracks 7 laptop 0 db backend refl))
      (System.checks 7 laptop 0 db backend refl)

revocation_example :
    (limiter_for proxied.server laptop ≡ some 0)
    × (contains (proxied.server.heap 0).live 7 ≡ true)
    × Any (IsHolder (unmap laptop) (proxied.server.heap 0).public_key) proxied.listed
revocation_example = revocation 7 laptop 0 db backend starts run quiet passed opened
