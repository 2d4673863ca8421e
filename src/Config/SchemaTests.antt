-- ===== src/Config/SchemaTests.antt =====
-- Tests of the schema, and its theorem at a concrete input.
use zebrafish.Prelude.{false, [], ◌∷◌, none, some, ◌≡◌, refl, arith, Text, text, text_eq}
use zebrafish.Prelude.Int.{pos}
use zebrafish.Config.Value.{Value, integer, table, no_entries, entry, get_entry}
use zebrafish.Config.Schema.{WireGuardInterface, WireGuardPeer, Config, default}
use zebrafish.Config.Schema.Codec.{entries_of, encode_items, decode_items}
use zebrafish.Config.Schema.Sections.{
  machine_codec, console_codec, flag_codec, hostname_codec, ssh_codec, ip_config_codec, peer_codec,
  interface_codec, nbd_client_codec, nbd_server_codec, zfs_key_codec, zfs_mount_codec,
  registry_codec,
}
use zebrafish.Config.Schema.Whole.{to_value, from_value, config_codec}
use zebrafish.Config.Schema.RoundTrip.{from_value-to_value}

coding : Unit {0}
unfolding to_value from_value config_codec machine_codec console_codec flag_codec hostname_codec
    ssh_codec ip_config_codec peer_codec interface_codec nbd_client_codec nbd_server_codec
    zfs_key_codec zfs_mount_codec registry_codec entries_of encode_items decode_items get_entry
    text_eq
coding = tt

abbrev peer : WireGuardPeer
peer = record {
  public_key = text "dJG2";
  endpoint = some (text "88.99.163.115:49427");
  allowed_ips = text "10.0.3.1/32" ∷ [];
  persistent_keepalive = some 25;
}

abbrev network : WireGuardInterface
network = record {
  name = some (text "wg0");
  private_key = none;
  address = some (text "10.0.3.2/24");
  listen_port = some 49427;
  peers = peer ∷ [];
}

abbrev system : Config
system = record default {
  machine = some (record { id = text "a71d" });
  ssh = some (record { port = some 12488; keys = text "ssh-ed25519" ∷ [] });
  wg = network ∷ [];
}

from_value-to_value_example : from_value (to_value {F = Text} {D = Text} system) ≡ some system
from_value-to_value_example = from_value-to_value Text Text system (omega arith)

-- A section that is there without the key is not enabled; a port out of range is refused.
abbrev section_of : Text → Value Text Text → Value Text Text
section_of k v = table (entry k v no_entries)

readings :
    (from_value (section_of (text "headless") (table no_entries))
      ≡ some (record default { headless = some (record { enabled = false }) }))
    × (from_value (section_of (text "ssh") (section_of (text "port") (integer (pos 65536)))) ≡ none)
    × (from_value (section_of (text "machine") (section_of (text "id") (integer (pos 42)))) ≡ none)
    × (from_value (section_of (text "machine") (table no_entries)) ≡ none)
    × (from_value {F = Text} {D = Text} (table no_entries) ≡ some default)
unfolding coding
readings = (refl, refl, refl, refl, refl)
