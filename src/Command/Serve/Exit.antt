-- ===== src/Command/Serve/Exit.antt =====
-- cmd/gocloak/main.go, `serve`: when the daemon exits with 0.
use gocloak.Base.{
  ℕ, ◌≡◌, ◌≢◌, ◌↔◌, refl, false, Bytes, [], ◌∷◌, Option, none, some, Result, ok, arith,
  Result-cases, Option-cases, inl, inr,
}
use gocloak.Command.Serve.{new_log_handler, load_server_config, serve_config, run_serve}
use gocloak.Command.{parsed}
use gocloak.Config.Peers.{LoadError, PeersConfig}
use gocloak.Config.Reload.{FileId}
use gocloak.Config.Server.{ServerYaml, ServerFileConfig, check_server_config}
use gocloak.Config.Yaml.{Documents, decode_strict}
use gocloak.Config.{Parsers, parse_tunnel_ip}
use gocloak.Device.Open.{Stack}
use gocloak.Device.{Texts, Wireguard}
use gocloak.Limiter.{Limiter}
use gocloak.Secret.{SecretResolver, Host, is_empty}
use gocloak.Server.Run.{Session, run}
use gocloak.Server.Start.Accepted.{new_server-IsServerConfig, new_server-check_server_config}
use gocloak.Server.Start.{server_config_from, new_server}

nonempty : (s : Bytes) → s ≢ [] → is_empty s ≡ false
nonempty [] h = absurd (h refl)
nonempty (c ∷ s) h = refl

-- A configuration that loads has one of the two log formats, and `NewServer` accepts it if the peers load.
load_server_config-accepted :
    (lib : Parsers) (file : Option (Documents ServerYaml)) (fc : ServerFileConfig)
    → load_server_config lib file ≡ ok fc
    → (raw : ServerYaml) × (check_server_config lib raw ≡ ok fc)
unfolding load_server_config
load_server_config-accepted lib none fc h = absurd (ground arith)
load_server_config-accepted lib (some docs) fc h = elim (Result-cases (decode_strict docs)) [
  | inr (x, e) ↦ absurd (ground arith)
  | inl (raw, e) ↦ elim (Result-cases (check_server_config lib raw)) [
    | inr (x, f) ↦ absurd (ground arith)
    | inl (c, f) ↦ (raw, ground arith)
  ]
]

load_server_config-log_format :
    (lib : Parsers) (raw : ServerYaml) (fc : ServerFileConfig)
    → check_server_config lib raw ≡ ok fc
    → (new_log_handler fc.log_format ≡ none → ⊥)
unfolding check_server_config new_log_handler
load_server_config-log_format lib raw fc h none_yet =
    elim (Result-cases (parse_tunnel_ip lib raw.tunnel_ip)) [
      | inr (x, e) ↦ absurd (ground arith)
      | inl (addr, e) ↦ absurd (ground arith)
    ]

module _ {W : Type 0} (lib : Parsers) (texts : Texts) (dev : Wireguard W) (stack : Stack W)
    (h : Host) (external : Option SecretResolver) (heap : ℕ → Limiter) (path : Bytes)
    (file : Option (Documents ServerYaml)) (checked loaded : Result LoadError PeersConfig)
    (s : Session) (now : ℕ) (id : FileId) where
  -- server.yaml and the peers file load, and a server with what the file says runs to its end.
  abbrev pub Runs : Type 0
  Runs =
      (fc : ServerFileConfig) × (load_server_config lib file ≡ ok fc)
      × ((peers : PeersConfig) × (checked ≡ ok peers))
      × ((run lib texts dev stack h external heap (server_config_from (some fc)) false s now id
            loaded).0
          ≡ none)

  -- `serve` with a path exits with 0 exactly if server.yaml loads, the peers file loads for `NewServer`, and
  -- `Run` on the configuration that the file gives returns no error. No server.yaml that loads is refused
  -- for its log format or by the checks of `NewServer`.
  pub run_serve_exit :
      path ≢ []
      → (run_serve lib texts dev stack h external heap (parsed path) file checked loaded s now id
          ≡ 0)
        ↔ Runs
  unfolding run_serve serve_config
  run_serve_exit some_path = (to, from)
    where
      given : is_empty path ≡ false
      given = nonempty path some_path

      to :
          run_serve lib texts dev stack h external heap (parsed path) file checked loaded s now id
            ≡ 0
          → Runs
      to e = elim (Result-cases (load_server_config lib file)) [
        | inr (x, f) ↦ absurd (ground (arith, given))
        | inl (fc, f) ↦
            let (raw, valid) = load_server_config-accepted lib file fc f in
            elim (Option-cases (new_log_handler fc.log_format)) [
              | inl none_yet ↦ absurd (load_server_config-log_format lib raw fc valid none_yet)
              | inr (handler, g) ↦
                  elim (Result-cases (new_server (server_config_from (some fc)) checked)) [
                    | inr (x, n) ↦ absurd (ground (arith, given))
                    | inl (c, n) ↦
                        let (_, (peers, peers_load)) =
                          new_server-IsServerConfig (server_config_from (some fc)) c checked n in
                        let accepted = new_server-check_server_config lib raw fc peers valid in
                        let same : c ≡ server_config_from (some fc) = ground arith in
                        elim (Option-cases
                          (run lib texts dev stack h external heap (server_config_from (some fc))
                            false s now id loaded).0) [
                              | inl ends ↦ (fc, f, (peers, peers_load), ends)
                              | inr (failure, fails) ↦ absurd (ground (arith, given))
                            ]
                  ]
            ]
      ]

      from :
          Runs
          → run_serve lib texts dev stack h external heap (parsed path) file checked loaded s now id
            ≡ 0
      from (fc, loads, (peers, peers_load), ends) =
          let (raw, valid) = load_server_config-accepted lib file fc loads in
          let accepted = new_server-check_server_config lib raw fc peers valid in
          elim (Option-cases (new_log_handler fc.log_format)) [
            | inl none_yet ↦ absurd (load_server_config-log_format lib raw fc valid none_yet)
            | inr (handler, g) ↦ ground (arith, given)
          ]
