-- ===== src/Tests/Dialing.antt =====
-- client.go: two dials of one client whose endpoint has moved, and a client that is opened.
use gocloak.Base.{ℕ, ◌≡◌, refl, true, false, List, [], ◌∷◌, none, some, codes, pos, has_prefix}
use gocloak.Client.Dialing.Changes.{in_section, below, NoRepeat}
use gocloak.Client.Dialing.Settled.{run_dials-settles}
use gocloak.Client.Dialing.{
  Fixed, Event, called, retried, semaphore_taken, resumed, attempt_made, Client, new_client,
  run_dials,
}
use gocloak.Client.Open.Pinned.{Bare, Pinned, open_client-Pinned}
use gocloak.Client.Open.{open_client}
use gocloak.Client.{Names, ClientConfig}
use gocloak.Device.Open.{Stack, device_text}
use gocloak.Net.{AddrPort, from4}
use gocloak.Tests.Apply.{Peers, simulator, texts, interface, key}
use gocloak.Tests.Data.{db, laptop, parsers}
use gocloak.Tests.Secret.{host}

abbrev names : Names
names = record {
  split_host_port = λ s. some (codes "vpn.test", codes "51820");
  parse_port = λ s. some 51820;
  lookup_ip = λ host. some (from4 192 0 2 7 ∷ []);
}

abbrev fixed : Fixed
fixed = record {
  server_pub_key = codes "AAAA";
  host = codes "vpn.test";
  port = 51820;
  literal = false;
}

abbrev old : AddrPort
old = record { addr = from4 192 0 2 1; port = 51820 }

abbrev events : List (ℕ × Event)
events =
    (0, called db)
    ∷ (1, called db)
    ∷ (0, retried)
    ∷ (1, retried)
    ∷ (0, semaphore_taken)
    ∷ (1, semaphore_taken)
    ∷ (0, resumed names)
    ∷ (0, resumed names)
    ∷ (0, resumed names)
    ∷ (1, semaphore_taken)
    ∷ (1, resumed names)
    ∷ (0, attempt_made)
    ∷ (1, attempt_made)
    ∷ []

abbrev none_up : Peers
none_up = λ k. false

abbrev after : Client Peers
after = run_dials parsers texts simulator fixed events (new_client old none_up)

run_dials-settles_example :
    ((i j : ℕ) → in_section (after.dials i) ≡ true → in_section (after.dials j) ≡ true → i ≡ j)
    × (((i : ℕ) → in_section (after.dials i) ≡ false)
        → (after.refreshing ≡ false) × (after.given ≡ after.addr))
    × (after.refreshed ≡ below after.generation)
    × NoRepeat after.lookups
    × (fixed.literal ≡ true → after.lookups ≡ [])
run_dials-settles_example = run_dials-settles parsers texts simulator fixed old none_up events

abbrev pub stack : Stack Peers
stack = record {
  tun_fails = λ ip mtu. false;
  new_device = none_up;
  up = λ w. (w, false);
  port_text = λ port. codes "0";
}

bare : Bare texts simulator stack interface
unfolding interface device_text has_prefix
bare = record { configured = λ key port k. refl; up = λ w k. refl }

abbrev client_config : ClientConfig
client_config = record {
  endpoint = codes "vpn.test:51820";
  server_pub_key = codes "AAAA";
  private_key = codes "env:KEY";
  preshared_key = codes "env:PSK";
  tunnel_ip = laptop;
  mtu = pos 0;
  dial_timeout = pos 0;
}

open_client-Pinned_example :
    Pinned texts simulator stack interface bare key
      (codes "AAAA")
      (open_client texts simulator stack parsers names host none client_config)
open_client-Pinned_example =
    open_client-Pinned texts simulator stack interface bare key parsers names host none
      client_config
