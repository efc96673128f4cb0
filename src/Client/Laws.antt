-- ===== src/Client/Laws.antt =====
-- What the client writes is what the daemon reads.
use platform_packages_module.Prelude.{ℕ, List, ◌≡◌, Option, none, some, Text, codes, take, ◌∙◌, ap}
use platform_packages_module.Config.{UprobestatsConfig}
use platform_packages_module.Resolver.{read_config}
use platform_packages_module.Client.{Platform, config_path, start_uprobestats}

-- The functions as they are documented, where a file can be written: a file holds what was written
-- to it, and neither its mode nor a property changes what a file holds.
pub record IsPlatform (p : Platform) : Type 0 where
  pub file : p.World → Text → Option Text
  pub writes :
      (w : p.World) (content filename : Text)
      → file (p.write_string_to_file w content filename) filename ≡ some content
  pub keeps_mode :
      (w : p.World) (filename other : Text) (mode : ℕ)
      → file (p.chmod w filename mode) other ≡ file w other
  pub keeps_property :
      (w : p.World) (key value filename : Text)
      → file (p.set_property w key value) filename ≡ file w filename

-- After the client has started the daemon, the daemon's reading of its configuration gives what the
-- parser makes of the bytes that the client was given.
start_uprobestats-read_config :
    (p : Platform) (d : IsPlatform p) (w : p.World) (config : List ℕ) (size : ℕ)
    (parse : Text → Option UprobestatsConfig)
    → read_config (d.file (start_uprobestats p w config size)) parse config_path
      ≡ parse (take size config)
unfolding start_uprobestats read_config
start_uprobestats-read_config p d w config size parse =
    let w1 = p.write_string_to_file w (take size config) config_path in
    let w2 = p.chmod w1 config_path 0x1a4 in
    let held =
      d.keeps_property w2 (codes "ctl.start") (codes "uprobestats") config_path
      ∙ d.keeps_mode w1 config_path config_path 0x1a4
      ∙ d.writes w (take size config) config_path in
    ap
      (λ (o : Option Text). elim o as (λ _. Option UprobestatsConfig) [
        | none ↦ none
        | some s ↦ parse s
      ])
      held
