-- ===== src/Lib.antt =====
-- A verification of the two Rust programs of the repository. The rest of it (Buildroot packages,
-- kernel and boot loader configuration, shell scripts of the image) is not modelled.
--
-- zebrafish-config (package/zebrafish-config/src) reads and edits the TOML files that configure a
-- system: /etc/zebrafish.toml, and zebrafish.toml beside the kernel on the EFI partition, which
-- holds the section [machine]. Every command parses a dotted key path, picks a file, loads it,
-- and either looks a value up or changes the document and writes it back.
--   Config.KeyPath    path.rs: `KeyPath::parse` as its loop over the characters, on a scanner state
--                     with the segments, the current text and the flag `in_index`; `section`.
--   Config.Value      path.rs: `walk_segments` on a TOML value (`toml::Value` as a data type).
--   Config.Schema     schema.rs: the structs, and in Config.Schema.Sections what the serde attributes
--                     of their fields say of writing a struct as a TOML value and reading it
--                     back; `from_toml`, over the parser of TOML text, which is a parameter.
--   Config.Shell      list.rs: `emit_shell` and `shell_quote`. `to_uppercase` and the printing of
--                     floats and dates are parameters. Config.Shell.Quote has a shell's reading
--                     of a word, written independently.
--   Config.TomlEdit   the crate toml_edit, which is not part of the repository: a record of the
--                     operations that the program calls and a record of their documented laws.
--                     Config.TomlEdit.Model is a table that meets the laws.
--   Config.Write      set.rs, remove.rs, add.rs: `apply_set`, `parse_value`, `remove_in_doc` and the
--                     push of `add`, as functions from a document to a document or an error.
--                     An `unwrap` of nothing is the error `panicked`.
--   Config.Files      store.rs, load.rs: the choice of files, loading, merging, and
--                     `write_document` as a sequence of file system calls. `Runs` is the step
--                     relation of such a sequence in a process that may be killed anywhere; a write
--                     that is cut short leaves any text. `Cut` is what a power cut leaves.
--   Config.Commands   the `run_inner` of set.rs, remove.rs and get.rs, and the `add_inner` of
--                     add.rs.
--   Config.Listing    the `run_inner` of list.rs. Config.Validate: validate.rs.
--   Config.Efi        efi.rs: `find_efi_partition` and `is_mounted`. Config.Efi.Mount: `mount_efi`,
--                     `kernel_dir` on a tree of directories, and `discover_efi_dir`.
--   Config.CommandLine  cli.rs: the options and the arguments of the commands.
--   Config.Program    main.rs, edit.rs, the `run_inner` of path.rs and the `run` of each command: the
--                     dispatch to the commands, and what a run of the program prints, ends with
--                     and writes to the configuration files.
--
-- zebrafish-dns (package/zebrafish-dns/src) forwards DNS queries over HTTPS. The server gives each
-- query to `DohClient::resolve`, which asks the cache, and else the upstream server, whose answer
-- it puts into the cache. The NSS module lets programs of the system ask the local server.
--   Dns.Hickory       the crate hickory-proto, and Dns.Lru the crate lru, as records of operations
--                     and of the laws that their documentation gives;
--                     Dns.Lru.Bounded is a list of bounded length that meets the laws of the latter.
--   Dns.Cache         cache.rs. The clock is a number of nanoseconds, the mutex is `none` when it
--                     is poisoned. `Reaches` is the relation of all sequences of `get` and `put`;
--                     the mutex puts the calls of all tasks in one order. Dns.Cache.Spec is its
--                     specification, a map that may forget. Dns.Cache.Aged says what becomes
--                     of the TTLs of a response, written apart from `adjust_ttls`.
--   Dns.Doh           doh.rs: `resolve`, with what other tasks do to the cache while the answer is
--                     awaited as a function, and `BootstrapConnector::call`.
--                     Dns.Doh.Client: `DohClient::new`.
--   Dns.Server        server.rs: `handle_tcp_connection` as a function from the bytes received to the
--                     bytes written and the lines logged, and `build_servfail`. Dns.Server.Udp: the
--                     tasks of `serve_udp`, each with the reply it sends and the lines it logs.
--                     Dns.Server.Tasks: the same tasks interleaved, as events on a world with the
--                     shared cache, the tasks that wait for the upstream server and those that have
--                     ended; `Reach` is the relation of all orders of events. Dns.Server.Listen:
--                     `run`. Dns.Server.Conversation puts `resolve` under a TCP connection, with
--                     a record for each call of what it meets.
--   Dns.QueryLog      query_log.rs: `days_to_date`. Dns.QueryLog.Calendar is the calendar,
--                     Dns.QueryLog.Timestamp `rfc3339`, Dns.QueryLog.Entry the logger.
--   Dns.Nss           nss.rs: the entry points, with the stores they make in the caller's buffer.
--                     Dns.Nss.Lookup: the message of `query_local_dns` and the forwarder's reply.
--   Dns.Config        config.rs: the records, `doh_url` and `bootstrap_addrs`. Dns.Config.Reading: how
--                     serde reads the records from a TOML value.
--   Dns.Startup       main.rs: the choice of the configuration and the parts made from it.
--                     Dns.Startup.Serving runs the tasks of the server on them.
--
-- Numbers are natural numbers. A `usize` is parsed with a check for 64 bits, an `i64` with its
-- range, and casts to `u16`, `u32` and `i32` wrap around. The loops are recursions on their
-- input. Three use fuel: the decimal text of a number, where the number itself is enough; the
-- loop of a TCP connection, where one more than the number of bytes is enough; and
-- the search for the kernel, where one more than the number of directories is enough.
--
-- Not modelled: sockets and the scheduler of tokio, the HTTP client, the programs lsblk, mount and
-- the editor, of which only the results are read. What the search for the EFI partition does to the
-- machine, in commands that look for it with --efi, is part of Config.Efi.Mount and not of the
-- calls in Config.Program. Also not modelled: directories on the disk, and the log of `tracing`. The arguments are
-- parsed by clap, and --quiet and --verbose are read by nothing. The tree under the mount point has no cycles, as a
-- vfat file system has no links. Writing to a TCP connection is assumed to succeed. The loops
-- that accept connections and receive datagrams are endless: what is modelled is the task for
-- each. A task is only interleaved where it waits for the upstream server, since between its
-- other steps it shares nothing; TCP connections share the cache in the same way, but are not among
-- the interleaved tasks. Pointers in nss.rs have eight bytes.
pub mod Prelude
pub mod Config
pub mod Dns
