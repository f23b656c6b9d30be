-- ===== src/Tests/Shutdown.antt =====
-- server.go: the shutdown closes the one connection that is proxied.
use gocloak.Base.{◌≡◌, refl, true, [], ◌∷◌, contains, nat_eq, lookup, insert, bytes_beq}
use gocloak.Conn.{read_full}
use gocloak.Limiter.{new_peer_limiter, set_limits, acquire, refill, spend, track, drain_live}
use gocloak.Net.{unmap, addr_beq}
use gocloak.Policy.{resolve}
use gocloak.Server.Handler.{admit, verdict_admission, decide, register, still_in_force}
use gocloak.Server.System.Shutdown.Closed.{close_live_conns-closes}
use gocloak.Server.System.Shutdown.{close_live_conns, WindsDown, shuts, then_step}
use gocloak.Server.System.{System, Step, after_admit, after_decide, after_check, after_drain}
use gocloak.Server.System
use gocloak.Server.{
  limiter_for, refresh_peers, rebuild, refresh_peer, keep_or_make, same_peer, close_live, update,
}
use gocloak.Tests.Data.{db, laptop, backend}
use gocloak.Tests.System.{proxied, starts, run, passed}
use gocloak.Wire.{read_hello_request, read_name, valid_service_name}

abbrev shutting : System
shutting = close_live_conns proxied

abbrev drained : System
drained = after_drain [] (close_live 0 shutting.server) shutting

abbrev closed : System
closed = record drained { closing = []; closed = update drained.closed 7 true }

pending : shutting.pending ≡ 0 ∷ []
unfolding close_live_conns after_admit admit verdict_admission acquire refill spend limiter_for
    refresh_peers rebuild refresh_peer keep_or_make same_peer new_peer_limiter set_limits lookup
    insert unmap addr_beq after_decide decide read_hello_request read_full read_name
    valid_service_name resolve bytes_beq register track contains after_check still_in_force
pending = refl

closing : drained.closing ≡ 7 ∷ []
unfolding close_live_conns after_admit admit verdict_admission acquire refill spend limiter_for
    refresh_peers rebuild refresh_peer keep_or_make same_peer new_peer_limiter set_limits lookup
    insert unmap addr_beq after_decide decide read_hello_request read_full read_name
    valid_service_name resolve bytes_beq register track contains after_check still_in_force
    after_drain close_live drain_live
closing = refl

winds_down : WindsDown shutting closed
winds_down =
    then_step (then_step shuts (System.drains 0 [] pending) refl) (System.closes 7 [] closing) refl

quiet : closed.pending ≡ []
unfolding after_drain close_live
quiet = refl

close_live_conns-closes_example : closed.closed 7 ≡ true
close_live_conns-closes_example =
    close_live_conns-closes 7 laptop 0 db backend starts run passed winds_down (quiet, refl)
