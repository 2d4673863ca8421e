-- ===== src/Config/Schema/Sections.antt =====
-- package/zebrafish-config/src/schema.rs: how serde writes each struct as a TOML value and reads it
-- back, by the attributes of its fields. The keys stand in the order in which the `toml` crate
-- keeps them.
use zebrafish.Prelude.{false, List, [], ◌∷◌, Option, some, Text, text, ◌>>=◌}
use zebrafish.Config.Value.{Value}
use zebrafish.Config.Schema.{
  Machine, Console, Flag, Hostname, Ssh, IpConfig, WireGuardPeer, WireGuardInterface, NbdClient,
  NbdServer, ZfsKey, ZfsMount, DockerRegistry,
}
use zebrafish.Config.Schema.Codec.{
  Codec, text_codec, bool_codec, unsigned_codec, struct_codec, required, optional, or_default, list,
  put_optional, put_list,
}

module _ {F D : Type 0} where
  abbrev pub machine_fields : Machine → List (Text × Option (Value F D))
  machine_fields x = (text "id", some (text_codec.encode x.id)) ∷ []

  abbrev pub machine_of : (Text → Option (Value F D)) → Option Machine
  machine_of get = do id' ← required text_codec (get (text "id")); some (record { id = id' })

  unfoldable pub machine_codec : Codec F D Machine
  machine_codec = struct_codec machine_fields machine_of

  abbrev pub console_fields : Console → List (Text × Option (Value F D))
  console_fields x =
      (text "font", put_optional text_codec x.font)
      ∷ (text "keymap", put_optional text_codec x.keymap)
      ∷ []

  abbrev pub console_of : (Text → Option (Value F D)) → Option Console
  console_of get = do
    font' ← optional text_codec (get (text "font"))
    keymap' ← optional text_codec (get (text "keymap"))
    some (record { font = font'; keymap = keymap' })

  unfoldable pub console_codec : Codec F D Console
  console_codec = struct_codec console_fields console_of

  abbrev pub flag_fields : Flag → List (Text × Option (Value F D))
  flag_fields x = (text "enabled", some (bool_codec.encode x.enabled)) ∷ []

  abbrev pub flag_of : (Text → Option (Value F D)) → Option Flag
  flag_of get = do
    enabled' ← or_default bool_codec false (get (text "enabled"))
    some (record { enabled = enabled' })

  unfoldable pub flag_codec : Codec F D Flag
  flag_codec = struct_codec flag_fields flag_of

  abbrev pub hostname_fields : Hostname → List (Text × Option (Value F D))
  hostname_fields x = (text "name", some (text_codec.encode x.name)) ∷ []

  abbrev pub hostname_of : (Text → Option (Value F D)) → Option Hostname
  hostname_of get = do
    name' ← required text_codec (get (text "name"))
    some (record { name = name' })

  unfoldable pub hostname_codec : Codec F D Hostname
  hostname_codec = struct_codec hostname_fields hostname_of

  abbrev pub ssh_fields : Ssh → List (Text × Option (Value F D))
  ssh_fields x =
      (text "keys", put_list text_codec x.keys)
      ∷ (text "port", put_optional (unsigned_codec 65536) x.port)
      ∷ []

  abbrev pub ssh_of : (Text → Option (Value F D)) → Option Ssh
  ssh_of get = do
    keys' ← list text_codec (get (text "keys"))
    port' ← optional (unsigned_codec 65536) (get (text "port"))
    some (record { keys = keys'; port = port' })

  unfoldable pub ssh_codec : Codec F D Ssh
  ssh_codec = struct_codec ssh_fields ssh_of

  abbrev pub ip_config_fields : IpConfig → List (Text × Option (Value F D))
  ip_config_fields x =
      (text "address", put_optional text_codec x.address)
      ∷ (text "broadcast", put_optional text_codec x.broadcast)
      ∷ (text "dns", put_list text_codec x.dns)
      ∷ (text "gateway", put_optional text_codec x.gateway)
      ∷ (text "netmask", put_optional (unsigned_codec 256) x.netmask)
      ∷ (text "subnet", put_optional text_codec x.subnet)
      ∷ []

  abbrev pub ip_config_of : (Text → Option (Value F D)) → Option IpConfig
  ip_config_of get = do
    address' ← optional text_codec (get (text "address"))
    broadcast' ← optional text_codec (get (text "broadcast"))
    dns' ← list text_codec (get (text "dns"))
    gateway' ← optional text_codec (get (text "gateway"))
    netmask' ← optional (unsigned_codec 256) (get (text "netmask"))
    subnet' ← optional text_codec (get (text "subnet"))
    some (record {
      address = address';
      broadcast = broadcast';
      dns = dns';
      gateway = gateway';
      netmask = netmask';
      subnet = subnet';
    })

  unfoldable pub ip_config_codec : Codec F D IpConfig
  ip_config_codec = struct_codec ip_config_fields ip_config_of

  abbrev pub peer_fields : WireGuardPeer → List (Text × Option (Value F D))
  peer_fields x =
      (text "allowed_ips", put_list text_codec x.allowed_ips)
      ∷ (text "endpoint", put_optional text_codec x.endpoint)
      ∷ (text "persistent_keepalive", put_optional (unsigned_codec 65536) x.persistent_keepalive)
      ∷ (text "public_key", some (text_codec.encode x.public_key))
      ∷ []

  abbrev pub peer_of : (Text → Option (Value F D)) → Option WireGuardPeer
  peer_of get = do
    allowed_ips' ← list text_codec (get (text "allowed_ips"))
    endpoint' ← optional text_codec (get (text "endpoint"))
    persistent_keepalive' ← optional (unsigned_codec 65536) (get (text "persistent_keepalive"))
    public_key' ← required text_codec (get (text "public_key"))
    some (record {
      allowed_ips = allowed_ips';
      endpoint = endpoint';
      persistent_keepalive = persistent_keepalive';
      public_key = public_key';
    })

  unfoldable pub peer_codec : Codec F D WireGuardPeer
  peer_codec = struct_codec peer_fields peer_of

  abbrev pub interface_fields : WireGuardInterface → List (Text × Option (Value F D))
  interface_fields x =
      (text "address", put_optional text_codec x.address)
      ∷ (text "listen_port", put_optional (unsigned_codec 65536) x.listen_port)
      ∷ (text "name", put_optional text_codec x.name)
      ∷ (text "peers", put_list peer_codec x.peers)
      ∷ (text "private_key", put_optional text_codec x.private_key)
      ∷ []

  abbrev pub interface_of : (Text → Option (Value F D)) → Option WireGuardInterface
  interface_of get = do
    address' ← optional text_codec (get (text "address"))
    listen_port' ← optional (unsigned_codec 65536) (get (text "listen_port"))
    name' ← optional text_codec (get (text "name"))
    peers' ← list peer_codec (get (text "peers"))
    private_key' ← optional text_codec (get (text "private_key"))
    some (record {
      address = address';
      listen_port = listen_port';
      name = name';
      peers = peers';
      private_key = private_key';
    })

  unfoldable pub interface_codec : Codec F D WireGuardInterface
  interface_codec = struct_codec interface_fields interface_of

  abbrev pub nbd_client_fields : NbdClient → List (Text × Option (Value F D))
  nbd_client_fields x =
      (text "address", some (text_codec.encode x.address))
      ∷ (text "device", some (text_codec.encode x.device))
      ∷ (text "export", put_optional text_codec x.export)
      ∷ (text "port", some ((unsigned_codec 65536).encode x.port))
      ∷ (text "timeout", put_optional (unsigned_codec 65536) x.timeout)
      ∷ []

  abbrev pub nbd_client_of : (Text → Option (Value F D)) → Option NbdClient
  nbd_client_of get = do
    address' ← required text_codec (get (text "address"))
    device' ← required text_codec (get (text "device"))
    export' ← optional text_codec (get (text "export"))
    port' ← required (unsigned_codec 65536) (get (text "port"))
    timeout' ← optional (unsigned_codec 65536) (get (text "timeout"))
    some (record {
      address = address';
      device = device';
      export = export';
      port = port';
      timeout = timeout';
    })

  unfoldable pub nbd_client_codec : Codec F D NbdClient
  nbd_client_codec = struct_codec nbd_client_fields nbd_client_of

  abbrev pub nbd_server_fields : NbdServer → List (Text × Option (Value F D))
  nbd_server_fields x =
      (text "address", some (text_codec.encode x.address))
      ∷ (text "device", some (text_codec.encode x.device))
      ∷ []

  abbrev pub nbd_server_of : (Text → Option (Value F D)) → Option NbdServer
  nbd_server_of get = do
    address' ← required text_codec (get (text "address"))
    device' ← required text_codec (get (text "device"))
    some (record { address = address'; device = device' })

  unfoldable pub nbd_server_codec : Codec F D NbdServer
  nbd_server_codec = struct_codec nbd_server_fields nbd_server_of

  abbrev pub zfs_key_fields : ZfsKey → List (Text × Option (Value F D))
  zfs_key_fields x =
      (text "dataset", some (text_codec.encode x.dataset))
      ∷ (text "key", some (text_codec.encode x.key))
      ∷ []

  abbrev pub zfs_key_of : (Text → Option (Value F D)) → Option ZfsKey
  zfs_key_of get = do
    dataset' ← required text_codec (get (text "dataset"))
    key' ← required text_codec (get (text "key"))
    some (record { dataset = dataset'; key = key' })

  unfoldable pub zfs_key_codec : Codec F D ZfsKey
  zfs_key_codec = struct_codec zfs_key_fields zfs_key_of

  abbrev pub zfs_mount_fields : ZfsMount → List (Text × Option (Value F D))
  zfs_mount_fields x = (text "name", some (text_codec.encode x.name)) ∷ []

  abbrev pub zfs_mount_of : (Text → Option (Value F D)) → Option ZfsMount
  zfs_mount_of get = do
    name' ← required text_codec (get (text "name"))
    some (record { name = name' })

  unfoldable pub zfs_mount_codec : Codec F D ZfsMount
  zfs_mount_codec = struct_codec zfs_mount_fields zfs_mount_of

  abbrev pub registry_fields : DockerRegistry → List (Text × Option (Value F D))
  registry_fields x =
      (text "hostname", some (text_codec.encode x.hostname))
      ∷ (text "password", some (text_codec.encode x.password))
      ∷ (text "username", some (text_codec.encode x.username))
      ∷ []

  abbrev pub registry_of : (Text → Option (Value F D)) → Option DockerRegistry
  registry_of get = do
    hostname' ← required text_codec (get (text "hostname"))
    password' ← required text_codec (get (text "password"))
    username' ← required text_codec (get (text "username"))
    some (record { hostname = hostname'; password = password'; username = username' })

  unfoldable pub registry_codec : Codec F D DockerRegistry
  registry_codec = struct_codec registry_fields registry_of
