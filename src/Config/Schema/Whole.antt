-- ===== src/Config/Schema/Whole.antt =====
-- package/zebrafish-config/src/schema.rs: the whole configuration as a TOML value.
use zebrafish.Prelude.{List, [], ◌∷◌, Option, some, Text, text, ◌>>=◌}
use zebrafish.Config.Value.{Value}
use zebrafish.Config.Schema.{Config}
use zebrafish.Config.Schema.Codec.{Codec, struct_codec, optional, list, put_optional, put_list}
use zebrafish.Config.Schema.Sections.{
  machine_codec, console_codec, flag_codec, hostname_codec, ssh_codec, ip_config_codec,
  interface_codec, nbd_client_codec, nbd_server_codec, zfs_key_codec, zfs_mount_codec,
  registry_codec,
}

module _ {F D : Type 0} where
  abbrev pub config_fields : Config → List (Text × Option (Value F D))
  config_fields x =
      (text "console", put_optional console_codec x.console)
      ∷ (text "docker-registry", put_list registry_codec x.docker_registry)
      ∷ (text "headless", put_optional flag_codec x.headless)
      ∷ (text "hostname", put_optional hostname_codec x.hostname)
      ∷ (text "ipv4", put_optional ip_config_codec x.ipv4)
      ∷ (text "ipv6", put_optional ip_config_codec x.ipv6)
      ∷ (text "machine", put_optional machine_codec x.machine)
      ∷ (text "nbd-client", put_list nbd_client_codec x.nbd_client)
      ∷ (text "nbd-server", put_list nbd_server_codec x.nbd_server)
      ∷ (text "rescue", put_optional flag_codec x.rescue)
      ∷ (text "ssh", put_optional ssh_codec x.ssh)
      ∷ (text "wg", put_list interface_codec x.wg)
      ∷ (text "wg-server", put_list interface_codec x.wg_server)
      ∷ (text "zfs-key", put_list zfs_key_codec x.zfs_key)
      ∷ (text "zfs-mount", put_list zfs_mount_codec x.zfs_mount)
      ∷ []

  abbrev pub config_of : (Text → Option (Value F D)) → Option Config
  config_of get = do
    console' ← optional console_codec (get (text "console"))
    docker_registry' ← list registry_codec (get (text "docker-registry"))
    headless' ← optional flag_codec (get (text "headless"))
    hostname' ← optional hostname_codec (get (text "hostname"))
    ipv4' ← optional ip_config_codec (get (text "ipv4"))
    ipv6' ← optional ip_config_codec (get (text "ipv6"))
    machine' ← optional machine_codec (get (text "machine"))
    nbd_client' ← list nbd_client_codec (get (text "nbd-client"))
    nbd_server' ← list nbd_server_codec (get (text "nbd-server"))
    rescue' ← optional flag_codec (get (text "rescue"))
    ssh' ← optional ssh_codec (get (text "ssh"))
    wg' ← list interface_codec (get (text "wg"))
    wg_server' ← list interface_codec (get (text "wg-server"))
    zfs_key' ← list zfs_key_codec (get (text "zfs-key"))
    zfs_mount' ← list zfs_mount_codec (get (text "zfs-mount"))
    some (record {
      console = console';
      docker_registry = docker_registry';
      headless = headless';
      hostname = hostname';
      ipv4 = ipv4';
      ipv6 = ipv6';
      machine = machine';
      nbd_client = nbd_client';
      nbd_server = nbd_server';
      rescue = rescue';
      ssh = ssh';
      wg = wg';
      wg_server = wg_server';
      zfs_key = zfs_key';
      zfs_mount = zfs_mount';
    })

  unfoldable pub config_codec : Codec F D Config
  config_codec = struct_codec config_fields config_of

  -- `Value::try_from` of a configuration, and the reading of one from a value.
  unfoldable pub to_value : Config → Value F D
  unfolding config_codec
  to_value c = config_codec.encode c

  unfoldable pub from_value : Value F D → Option Config
  unfolding config_codec
  from_value v = config_codec.decode v

  -- `Config::from_toml`, over the parser of TOML text.
  unfoldable pub from_toml : (Text → Option (Value F D)) → Text → Option Config
  from_toml parse_toml s = parse_toml s >>= from_value
