-- ===== src/Tests/Data.antt =====
-- The data of the tests: one peer that may reach one service.
use gocloak.Base.{ℕ, Bytes, [], ◌∷◌, none, some, codes, bytes_beq, if◌then◌else◌, pos}
use gocloak.Config.Peers.{PeerYaml, PeerConfig}
use gocloak.Config.{Parsers}
use gocloak.Conn.{Conn, eof}
use gocloak.Net.{Addr, AddrPort, from4}
use gocloak.Policy.{PeerPolicy}

abbrev pub db : Bytes
db = codes "db"

abbrev pub laptop : Addr
laptop = from4 10 99 0 2

abbrev pub backend : AddrPort
backend = record { addr = from4 127 0 0 1; port = 5432 }

abbrev pub laptop_policy : PeerPolicy
laptop_policy = record { tunnel_ip = laptop; allow = (db, backend) ∷ [] }

abbrev pub zeros : ℕ → Bytes
zeros Prim.Native.Nat.zero = []
zeros (Prim.Native.Nat.suc n) = 0 ∷ zeros n

-- The parsers of the standard library on the texts of the tests.
abbrev pub parsers : Parsers
parsers = record {
  parse_addr = λ s.
      if bytes_beq s (codes "10.99.0.2")
      then some laptop
      else if bytes_beq s (codes "10.99.0.1")
      then some (from4 10 99 0 1)
      else none;
  parse_addr_port = λ s. if bytes_beq s (codes "127.0.0.1:5432") then some backend else none;
  decode_base64 = λ s.
      if bytes_beq s (codes "AAAA")
      then some (zeros 32)
      else if bytes_beq s (codes "BBBB")
      then some (1 ∷ zeros 31)
      else none;
}

abbrev pub laptop_yaml : PeerYaml
laptop_yaml = record {
  name = codes "laptop";
  public_key = codes "AAAA";
  psk = codes "env:PSK";
  tunnel_ip = codes "10.99.0.2";
  limits = record { max_concurrent = pos 0; dials_per_second = pos 5 };
  allow = (db, codes "127.0.0.1:5432") ∷ [];
}

abbrev pub laptop_peer : PeerConfig
laptop_peer = record {
  name = codes "laptop";
  public_key = codes "AAAA";
  psk = codes "env:PSK";
  tunnel_ip = laptop;
  limits = record { max_concurrent = 32; dials_per_second = 5 };
  allow = (db, backend) ∷ [];
}

abbrev pub open_conn : Bytes → Conn
open_conn incoming = record { incoming = incoming; ending = eof; sent = []; write_error = none }
