-- ===== src/Config/Schema/RoundTrip.antt =====
-- package/zebrafish-config/src/schema.rs: a configuration is read back as it was written.
use zebrafish.Prelude.{ℕ, ◌<◌, Option, none, some, List, [], ◌∷◌, Text, text_eq, ◌≡◌, refl}
use zebrafish.Config.Schema.{
  Machine, Console, Flag, Hostname, Ssh, IpConfig, WireGuardPeer, WireGuardInterface, NbdClient,
  NbdServer, ZfsKey, ZfsMount, DockerRegistry, Config,
}
use zebrafish.Config.Schema.Codec.{
  IsLawful, FitsOption, FitsList, text_codec, unsigned_codec, text_codec-IsLawful,
  unsigned_codec-IsLawful, struct_codec-IsLawful, optional-put_optional, list-put_list,
}
use zebrafish.Config.Schema.Sections.{
  machine_fields, machine_of, machine_codec, console_fields, console_of, console_codec, flag_fields,
  flag_of, flag_codec, hostname_fields, hostname_of, hostname_codec, ssh_fields, ssh_of, ssh_codec,
  ip_config_fields, ip_config_of, ip_config_codec, peer_fields, peer_of, peer_codec,
  interface_fields, interface_of, interface_codec, nbd_client_fields, nbd_client_of,
  nbd_client_codec, nbd_server_fields, nbd_server_of, nbd_server_codec, zfs_key_fields, zfs_key_of,
  zfs_key_codec, zfs_mount_fields, zfs_mount_of, zfs_mount_codec, registry_fields, registry_of,
  registry_codec,
}
use zebrafish.Config.Schema.Whole.{config_fields, config_of, config_codec, to_value, from_value}

-- The numbers of a struct are in the range of their types.
abbrev FitsText : Text → Type 0
FitsText s = Unit {0}

abbrev FitsU16 : ℕ → Type 0
FitsU16 n = n < 65536

abbrev FitsU8 : ℕ → Type 0
FitsU8 n = n < 256

abbrev pub FitsMachine : Machine → Type 0
FitsMachine x = Unit {0}

abbrev pub FitsConsole : Console → Type 0
FitsConsole x = Unit {0}

abbrev pub FitsFlag : Flag → Type 0
FitsFlag x = Unit {0}

abbrev pub FitsHostname : Hostname → Type 0
FitsHostname x = Unit {0}

abbrev pub FitsSsh : Ssh → Type 0
FitsSsh x = FitsOption FitsU16 x.port

abbrev pub FitsIpConfig : IpConfig → Type 0
FitsIpConfig x = FitsOption FitsU8 x.netmask

abbrev pub FitsWireGuardPeer : WireGuardPeer → Type 0
FitsWireGuardPeer x = FitsOption FitsU16 x.persistent_keepalive

abbrev pub FitsWireGuardInterface : WireGuardInterface → Type 0
FitsWireGuardInterface x = FitsOption FitsU16 x.listen_port × FitsList FitsWireGuardPeer x.peers

abbrev pub FitsNbdClient : NbdClient → Type 0
FitsNbdClient x = FitsU16 x.port × FitsOption FitsU16 x.timeout

abbrev pub FitsNbdServer : NbdServer → Type 0
FitsNbdServer x = Unit {0}

abbrev pub FitsZfsKey : ZfsKey → Type 0
FitsZfsKey x = Unit {0}

abbrev pub FitsZfsMount : ZfsMount → Type 0
FitsZfsMount x = Unit {0}

abbrev pub FitsDockerRegistry : DockerRegistry → Type 0
FitsDockerRegistry x = Unit {0}

abbrev pub FitsConfig : Config → Type 0
FitsConfig x =
    FitsOption FitsIpConfig x.ipv4
    × FitsOption FitsIpConfig x.ipv6
    × FitsList FitsNbdClient x.nbd_client
    × FitsOption FitsSsh x.ssh
    × FitsList FitsWireGuardInterface x.wg
    × FitsList FitsWireGuardInterface x.wg_server

-- A vector or option of values that always fit.
FitsOption-Unit : {A : Type 0} (o : Option A) → FitsOption (λ a. Unit {0}) o
FitsOption-Unit none = tt
FitsOption-Unit (some a) = tt

FitsList-Unit : {A : Type 0} (xs : List A) → FitsList (λ a. Unit {0}) xs
FitsList-Unit [] = tt
FitsList-Unit (x ∷ xs) = (tt, FitsList-Unit xs)

module _ (F D : Type 0) where
  machine_codec-IsLawful : IsLawful (machine_codec {F = F} {D = D}) FitsMachine
  unfolding machine_codec text_eq
  machine_codec-IsLawful = struct_codec-IsLawful FitsMachine machine_fields machine_of λ x h. refl

  console_codec-IsLawful : IsLawful (console_codec {F = F} {D = D}) FitsConsole
  unfolding console_codec text_eq
  console_codec-IsLawful = struct_codec-IsLawful FitsConsole console_fields console_of λ x h. rw (
    optional-put_optional text_codec (λ s. Unit {0}) (text_codec-IsLawful F D) x.font
        (FitsOption-Unit x.font),
    optional-put_optional text_codec (λ s. Unit {0}) (text_codec-IsLawful F D) x.keymap
        (FitsOption-Unit x.keymap),
  )

  flag_codec-IsLawful : IsLawful (flag_codec {F = F} {D = D}) FitsFlag
  unfolding flag_codec text_eq
  flag_codec-IsLawful = struct_codec-IsLawful FitsFlag flag_fields flag_of λ x h. refl

  hostname_codec-IsLawful : IsLawful (hostname_codec {F = F} {D = D}) FitsHostname
  unfolding hostname_codec text_eq
  hostname_codec-IsLawful =
      struct_codec-IsLawful FitsHostname hostname_fields hostname_of λ x h. refl

  ssh_codec-IsLawful : IsLawful (ssh_codec {F = F} {D = D}) FitsSsh
  unfolding ssh_codec text_eq
  ssh_codec-IsLawful = struct_codec-IsLawful FitsSsh ssh_fields ssh_of λ x h. rw (
    list-put_list text_codec (λ s. Unit {0}) (text_codec-IsLawful F D) x.keys
        (FitsList-Unit x.keys),
    optional-put_optional (unsigned_codec 65536) FitsU16 (unsigned_codec-IsLawful F D 65536) x.port
        h,
  )

  ip_config_codec-IsLawful : IsLawful (ip_config_codec {F = F} {D = D}) FitsIpConfig
  unfolding ip_config_codec text_eq
  ip_config_codec-IsLawful = struct_codec-IsLawful FitsIpConfig ip_config_fields ip_config_of λ x h.
      rw (
        optional-put_optional text_codec (λ s. Unit {0}) (text_codec-IsLawful F D) x.address
            (FitsOption-Unit x.address),
        optional-put_optional text_codec (λ s. Unit {0}) (text_codec-IsLawful F D) x.broadcast
            (FitsOption-Unit x.broadcast),
        list-put_list text_codec (λ s. Unit {0}) (text_codec-IsLawful F D) x.dns
            (FitsList-Unit x.dns),
        optional-put_optional text_codec (λ s. Unit {0}) (text_codec-IsLawful F D) x.gateway
            (FitsOption-Unit x.gateway),
        optional-put_optional (unsigned_codec 256) FitsU8 (unsigned_codec-IsLawful F D 256)
            x.netmask h,
        optional-put_optional text_codec (λ s. Unit {0}) (text_codec-IsLawful F D) x.subnet
            (FitsOption-Unit x.subnet),
      )

  peer_codec-IsLawful : IsLawful (peer_codec {F = F} {D = D}) FitsWireGuardPeer
  unfolding peer_codec text_eq
  peer_codec-IsLawful = struct_codec-IsLawful FitsWireGuardPeer peer_fields peer_of λ x h. rw (
    list-put_list text_codec (λ s. Unit {0}) (text_codec-IsLawful F D) x.allowed_ips
        (FitsList-Unit x.allowed_ips),
    optional-put_optional text_codec (λ s. Unit {0}) (text_codec-IsLawful F D) x.endpoint
        (FitsOption-Unit x.endpoint),
    optional-put_optional (unsigned_codec 65536) FitsU16 (unsigned_codec-IsLawful F D 65536)
        x.persistent_keepalive h,
  )

  interface_codec-IsLawful : IsLawful (interface_codec {F = F} {D = D}) FitsWireGuardInterface
  unfolding interface_codec text_eq
  interface_codec-IsLawful =
      struct_codec-IsLawful FitsWireGuardInterface interface_fields interface_of λ x h. rw (
        optional-put_optional text_codec (λ s. Unit {0}) (text_codec-IsLawful F D) x.address
            (FitsOption-Unit x.address),
        optional-put_optional (unsigned_codec 65536) FitsU16 (unsigned_codec-IsLawful F D 65536)
            x.listen_port h.0,
        optional-put_optional text_codec (λ s. Unit {0}) (text_codec-IsLawful F D) x.name
            (FitsOption-Unit x.name),
        list-put_list peer_codec FitsWireGuardPeer peer_codec-IsLawful x.peers h.1,
        optional-put_optional text_codec (λ s. Unit {0}) (text_codec-IsLawful F D) x.private_key
            (FitsOption-Unit x.private_key),
      )

  nbd_client_codec-IsLawful : IsLawful (nbd_client_codec {F = F} {D = D}) FitsNbdClient
  unfolding nbd_client_codec text_eq
  nbd_client_codec-IsLawful =
      struct_codec-IsLawful FitsNbdClient nbd_client_fields nbd_client_of λ x h. rw (
        optional-put_optional text_codec (λ s. Unit {0}) (text_codec-IsLawful F D) x.export
            (FitsOption-Unit x.export),
        unsigned_codec-IsLawful F D 65536 x.port h.0,
        optional-put_optional (unsigned_codec 65536) FitsU16 (unsigned_codec-IsLawful F D 65536)
            x.timeout h.1,
      )

  nbd_server_codec-IsLawful : IsLawful (nbd_server_codec {F = F} {D = D}) FitsNbdServer
  unfolding nbd_server_codec text_eq
  nbd_server_codec-IsLawful =
      struct_codec-IsLawful FitsNbdServer nbd_server_fields nbd_server_of λ x h. refl

  zfs_key_codec-IsLawful : IsLawful (zfs_key_codec {F = F} {D = D}) FitsZfsKey
  unfolding zfs_key_codec text_eq
  zfs_key_codec-IsLawful = struct_codec-IsLawful FitsZfsKey zfs_key_fields zfs_key_of λ x h. refl

  zfs_mount_codec-IsLawful : IsLawful (zfs_mount_codec {F = F} {D = D}) FitsZfsMount
  unfolding zfs_mount_codec text_eq
  zfs_mount_codec-IsLawful =
      struct_codec-IsLawful FitsZfsMount zfs_mount_fields zfs_mount_of λ x h. refl

  registry_codec-IsLawful : IsLawful (registry_codec {F = F} {D = D}) FitsDockerRegistry
  unfolding registry_codec text_eq
  registry_codec-IsLawful =
      struct_codec-IsLawful FitsDockerRegistry registry_fields registry_of λ x h. refl

  config_codec-IsLawful : IsLawful (config_codec {F = F} {D = D}) FitsConfig
  unfolding config_codec text_eq
  config_codec-IsLawful = struct_codec-IsLawful FitsConfig config_fields config_of λ x h. rw (
    optional-put_optional console_codec (λ s. Unit {0}) console_codec-IsLawful x.console
        (FitsOption-Unit x.console),
    list-put_list registry_codec (λ s. Unit {0}) registry_codec-IsLawful x.docker_registry
        (FitsList-Unit x.docker_registry),
    optional-put_optional flag_codec (λ s. Unit {0}) flag_codec-IsLawful x.headless
        (FitsOption-Unit x.headless),
    optional-put_optional hostname_codec (λ s. Unit {0}) hostname_codec-IsLawful x.hostname
        (FitsOption-Unit x.hostname),
    optional-put_optional ip_config_codec FitsIpConfig ip_config_codec-IsLawful x.ipv4 h.0,
    optional-put_optional ip_config_codec FitsIpConfig ip_config_codec-IsLawful x.ipv6 h.1,
    optional-put_optional machine_codec (λ s. Unit {0}) machine_codec-IsLawful x.machine
        (FitsOption-Unit x.machine),
    list-put_list nbd_client_codec FitsNbdClient nbd_client_codec-IsLawful x.nbd_client h.2,
    list-put_list nbd_server_codec (λ s. Unit {0}) nbd_server_codec-IsLawful x.nbd_server
        (FitsList-Unit x.nbd_server),
    optional-put_optional flag_codec (λ s. Unit {0}) flag_codec-IsLawful x.rescue
        (FitsOption-Unit x.rescue),
    optional-put_optional ssh_codec FitsSsh ssh_codec-IsLawful x.ssh h.3,
    list-put_list interface_codec FitsWireGuardInterface interface_codec-IsLawful x.wg h.4,
    list-put_list interface_codec FitsWireGuardInterface interface_codec-IsLawful x.wg_server h.5,
    list-put_list zfs_key_codec (λ s. Unit {0}) zfs_key_codec-IsLawful x.zfs_key
        (FitsList-Unit x.zfs_key),
    list-put_list zfs_mount_codec (λ s. Unit {0}) zfs_mount_codec-IsLawful x.zfs_mount
        (FitsList-Unit x.zfs_mount),
  )

  -- A configuration whose ports, timeouts and prefix lengths are in the range of their types is read
  -- back from the value that it is written as, with every section and every field.
  pub from_value-to_value :
      (c : Config) → FitsConfig c → from_value (to_value {F = F} {D = D} c) ≡ some c
  unfolding to_value from_value
  from_value-to_value c h = config_codec-IsLawful c h
