-- ===== src/Client.antt =====
-- lib/uprobestats_client.cpp: how the daemon is started with a configuration. The functions of the
-- platform are given; what they return is not looked at.
pub mod Laws
use platform_packages_module.Prelude.{ℕ, List, Option, some, Bool, Text, codes, take}

pub record Platform : Type 1 where
  pub World : Type 0
  pub write_string_to_file : World → (content filename : Text) → World
  pub chmod : World → (filename : Text) → (mode : ℕ) → World
  pub set_property : World → (key value : Text) → World

-- Where the daemon reads its configuration.
abbrev pub config_path : Text
config_path = codes "/data/misc/uprobestats-configs/config"

-- `AUprobestatsClient_startUprobestats`: `config` is the memory from the pointer on. The mode is 0644.
unfoldable pub start_uprobestats :
    (p : Platform) → p.World → (config : List ℕ) → (size : ℕ) → p.World
start_uprobestats p w config size =
    let w1 = p.write_string_to_file w (take size config) config_path in
    let w2 = p.chmod w1 config_path 0x1a4 in
    p.set_property w2 (codes "ctl.start") (codes "uprobestats")
