-- ===== src/Dns/Hickory.antt =====
-- The parts of the hickory-proto crate that package/zebrafish-dns uses: DNS messages and their
-- wire format. The crate is not part of the repository, so it is a record of operations.
use zebrafish.Prelude.{ℕ, ◌<◌, Bool, List, Option, some, Bytes, ◌≡◌}

-- What `build_servfail` sets of a `Header`; the response codes by number.
pub record Header : Type 0 where
  pub header_id : ℕ
  pub is_response : Bool
  pub op_code : ℕ
  pub response_code : ℕ
  pub recursion_desired : Bool
  pub recursion_available : Bool

pub record Hickory : Type 1 where
  pub Message : Type 0
  pub Query : Type 0
  pub Record : Type 0
  -- `Message::from_vec` and `to_vec`.
  pub from_vec : Bytes → Option Message
  pub to_vec : Message → Option Bytes
  -- The header of a message and its sections.
  pub header : Message → Header
  pub queries : Message → List Query
  pub answers : Message → List Record
  pub additionals : Message → List Record
  pub name_servers : Message → List Record
  pub with_answers : Message → List Record → Message
  -- `name().to_lowercase().to_string()`, and the type and class as numbers.
  pub lowercase_name : Query → Bytes
  pub query_type : Query → ℕ
  pub query_class : Query → ℕ
  pub ttl : Record → ℕ
  pub set_ttl : ℕ → Record → Record
  pub is_opt : Record → Bool
  -- `Message::new` with a header and the queries added.
  pub message : Header → List Query → Message

-- What the documentation says of the calls that `adjust_ttls` makes: a message that was read and
-- given other answers is read back as it was when it is written; it has the answers that were put
-- in, and a record has the TTL that was put in, which is a `u32`.
pub record Laws (H : Hickory) : Type 0 where
  pub from_vec-to_vec :
      (raw b : Bytes) (m : H.Message) (rs : List H.Record)
      → H.from_vec raw ≡ some m
      → H.to_vec (H.with_answers m rs) ≡ some b
      → H.from_vec b ≡ some (H.with_answers m rs)
  pub answers-with_answers :
      (raw : Bytes) (m : H.Message) (rs : List H.Record)
      → H.from_vec raw ≡ some m
      → H.answers (H.with_answers m rs) ≡ rs
  pub ttl-set_ttl : (n : ℕ) (r : H.Record) → n < 4294967296 → H.ttl (H.set_ttl n r) ≡ n
