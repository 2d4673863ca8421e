-- ===== src/Config/Schema.antt =====
-- package/zebrafish-config/src/schema.rs: the records of the schema. `u16` and `u8` are natural
-- numbers, whose ranges `Schema.Sections` checks when it reads them.
pub mod Codec
pub mod Sections
pub mod Whole
pub mod RoundTrip
use zebrafish.Prelude.{ℕ, Bool, List, [], Option, none, Text}

-- `[machine]`
pub record Machine : Type 0 where
  pub id : Text

pub record Console : Type 0 where
  pub keymap : Option Text
  pub font : Option Text

pub record Flag : Type 0 where
  pub enabled : Bool

pub record Hostname : Type 0 where
  pub name : Text

pub record Ssh : Type 0 where
  pub port : Option ℕ
  pub keys : List Text

-- `[ipv4]` and `[ipv6]`
pub record IpConfig : Type 0 where
  pub address : Option Text
  pub broadcast : Option Text
  pub subnet : Option Text
  pub netmask : Option ℕ
  pub gateway : Option Text
  pub dns : List Text

pub record WireGuardPeer : Type 0 where
  pub public_key : Text
  pub endpoint : Option Text
  pub allowed_ips : List Text
  pub persistent_keepalive : Option ℕ

pub record WireGuardInterface : Type 0 where
  pub name : Option Text
  pub private_key : Option Text
  pub address : Option Text
  pub listen_port : Option ℕ
  pub peers : List WireGuardPeer

pub record NbdClient : Type 0 where
  pub address : Text
  pub port : ℕ
  pub device : Text
  pub export : Option Text
  pub timeout : Option ℕ

pub record NbdServer : Type 0 where
  pub address : Text
  pub device : Text

pub record ZfsKey : Type 0 where
  pub dataset : Text
  pub key : Text

pub record ZfsMount : Type 0 where
  pub name : Text

pub record DockerRegistry : Type 0 where
  pub hostname : Text
  pub username : Text
  pub password : Text

-- The whole file.
pub record Config : Type 0 where
  pub machine : Option Machine
  pub console : Option Console
  pub headless : Option Flag
  pub rescue : Option Flag
  pub hostname : Option Hostname
  pub ssh : Option Ssh
  pub ipv4 : Option IpConfig
  pub ipv6 : Option IpConfig
  pub wg : List WireGuardInterface
  pub wg_server : List WireGuardInterface
  pub nbd_client : List NbdClient
  pub nbd_server : List NbdServer
  pub zfs_key : List ZfsKey
  pub zfs_mount : List ZfsMount
  pub docker_registry : List DockerRegistry

-- `Config::default()`
abbrev pub default : Config
default = record {
  machine = none;
  console = none;
  headless = none;
  rescue = none;
  hostname = none;
  ssh = none;
  ipv4 = none;
  ipv6 = none;
  wg = [];
  wg_server = [];
  nbd_client = [];
  nbd_server = [];
  zfs_key = [];
  zfs_mount = [];
  docker_registry = [];
}
