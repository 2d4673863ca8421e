-- ===== src/Dns/QueryLog/Entry.antt =====
-- package/zebrafish-dns/src/query_log.rs: `QueryLogger` and the entry that `log` writes. The JSON
-- text of an entry and the texts of a query's name, type and class are made by crates.
use zebrafish.Prelude.{
  ℕ, ◌%◌, Bool, true, false, not, ◌||◌, List, [], ◌∷◌, ◌++◌, Option, none, some, Text, text,
  text_eq, Bytes, length, is_empty, if◌then◌else◌,
}
use zebrafish.Dns.Hickory.{Hickory}
use zebrafish.Dns.Doh.{DnsResult}

pub record QueryLogEntry : Type 0 where
  pub timestamp : Text
  pub client_ip : Text
  pub client_port : ℕ
  pub protocol : Text
  pub query_id : ℕ
  pub qname : Text
  pub qtype : Text
  pub qclass : Text
  pub response_code : Text
  pub answer_count : ℕ
  pub authority_count : ℕ
  pub additional_count : ℕ
  pub query_size : ℕ
  pub response_size : ℕ
  pub was_cached : Bool
  pub status : Option ℕ
  pub latency_ms : Option ℕ
  pub total_latency_ms : ℕ
  pub pid : ℕ

pub data Output : Type 0 where
  sink stdout : Output
  file : Text → Output

-- The writer, and whether its lock can be taken.
pub record QueryLogger : Type 0 where
  pub enabled : Bool
  pub output : Output
  pub unlocked : Bool
  pub process : ℕ

abbrev pub disabled : QueryLogger
disabled = record { enabled = false; output = sink; unlocked = true; process = 0 }

abbrev logger_to : ℕ → Output → QueryLogger
logger_to id to = record { enabled = true; output = to; unlocked = true; process = id }

-- `QueryLogger::new`; `opens` says which files can be opened to append to.
unfoldable pub new_logger : (Text → Bool) → ℕ → Option Text → Option QueryLogger
new_logger opens id none = some (logger_to id stdout)
new_logger opens id (some path) =
    if is_empty path || text_eq path (text "-")
    then some (logger_to id stdout)
    else if opens path
    then some (logger_to id (file path))
    else none

-- The address that a query came from.
pub record Source : Type 0 where
  pub ip : Text
  pub port : ℕ

-- How hickory shows a query and a response code.
pub record Display (H : Hickory) : Type 0 where
  pub name_text : H.Query → Text
  pub type_text : H.Query → Text
  pub class_text : H.Query → Text
  pub code_text : ℕ → Text

module _ (H : Hickory) (display : Display H) where
  abbrev pub id_in : Option H.Message → ℕ
  id_in none = 0
  id_in (some m) = (H.header m).header_id

  abbrev pub first_query : Option H.Message → Option H.Query
  first_query none = none
  first_query (some m) = elim (H.queries m) [ [] ↦ none | q ∷ qs ↦ some q ]

  -- `unwrap_or_default` of a text.
  abbrev pub shown : {A : Type 0} → (A → Text) → Option A → Text
  shown f none = []
  shown f (some a) = f a

  -- `len() as u16`, and 0 without a message.
  abbrev pub counted : (H.Message → List H.Record) → Option H.Message → ℕ
  counted records none = 0
  counted records (some m) = length (records m) % 65536

  -- The entry of `log`, at the time that `timestamp` shows.
  unfoldable pub log_entry_of : Text → ℕ → Source → Text → Bytes → DnsResult → ℕ → QueryLogEntry
  log_entry_of now pid src protocol query r total_ms = record {
    timestamp = now;
    client_ip = src.ip;
    client_port = src.port;
    protocol = protocol;
    query_id = id_in (H.from_vec query);
    qname = shown display.name_text (first_query (H.from_vec query));
    qtype = shown display.type_text (first_query (H.from_vec query));
    qclass = shown display.class_text (first_query (H.from_vec query));
    response_code =
        shown (λ m. display.code_text (H.header m).response_code) (H.from_vec r.response);
    answer_count = counted H.answers (H.from_vec r.response);
    authority_count = counted H.name_servers (H.from_vec r.response);
    additional_count = counted H.additionals (H.from_vec r.response);
    query_size = length query;
    response_size = length r.response;
    was_cached = r.cached;
    status = r.upstream_status;
    latency_ms = r.upstream_latency_ms;
    total_latency_ms = total_ms;
    pid = pid;
  }

module _ (to_json : QueryLogEntry → Option Text) where
  abbrev json_line : Option Text → List Text
  json_line none = []
  json_line (some json) = (json ++ text "\n") ∷ []

  -- What `log_entry` writes.
  unfoldable pub log_entry : QueryLogger → QueryLogEntry → List Text
  log_entry logger entry =
      if not logger.enabled then [] else if logger.unlocked then json_line (to_json entry) else []

module _ (H : Hickory) (display : Display H) (to_json : QueryLogEntry → Option Text) where
  unfoldable pub log : QueryLogger → Text → Source → Text → Bytes → DnsResult → ℕ → List Text
  log logger now src protocol query r total_ms =
      if not logger.enabled
      then []
      else log_entry to_json logger
          (log_entry_of H display now logger.process src protocol query r total_ms)
