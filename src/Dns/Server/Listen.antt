-- ===== src/Dns/Server/Listen.antt =====
-- package/zebrafish-dns/src/server.rs: `DnsServer::run` up to the tasks that it waits for. Whether
-- the text of an address parses and a socket can be bound to it are parameters.
use zebrafish.Prelude.{
  ℕ, Bool, true, false, List, [], ◌∷◌, ◌++◌, Option, none, some, Text, text, is_empty,
  if◌then◌else◌, ◌≡◌, ◌⊎◌, ◌↔◌, refl, ap, sym, ◌∙◌, inl, inr, Contains, here, there,
  Contains-append, Contains-append_left, Contains-append_right, Bool-cases,
}
use zebrafish.Prelude.Decimal.{to_string}
use zebrafish.Dns.QueryLog.Entry.{QueryLogger}

pub data Transport : Type 0 where
  udp tcp : Transport

-- The client is left out: `run` only hands it on to the tasks.
pub record DnsServer : Type 0 where
  pub listen_addr_v4 : Text
  pub listen_addr_v6 : Text
  pub listen_port : ℕ
  pub logger : Option QueryLogger

-- `DnsServer::new`.
abbrev pub new_server : Text → Text → ℕ → Option QueryLogger → DnsServer
new_server listen_addr_v4 listen_addr_v6 listen_port logger = record {
  listen_addr_v4 = listen_addr_v4;
  listen_addr_v6 = listen_addr_v6;
  listen_port = listen_port;
  logger = logger;
}

-- Why `run` returns; it never returns without an error.
pub data RunError : Type 0 where
  no_listener all_exited : RunError

Contains-single : {B : Type 0} {x y : B} → Contains x (y ∷ []) → x ≡ y
Contains-single here = refl
Contains-single (there c) = elim c [ ]

module _ {A : Type 0} (parse : Text → Option A) (bind : Transport → A → Bool) where
  abbrev pub bound : Transport → Option A → List (Transport × A)
  bound t none = []
  bound t (some a) = if bind t a then (t, a) ∷ [] else []

  -- The two sockets of one address.
  unfoldable pub listen_on : Text → List (Transport × A)
  listen_on address = bound udp (parse address) ++ bound tcp (parse address)

  abbrev pub address_v4 : DnsServer → Text
  address_v4 s = s.listen_addr_v4 ++ (b':' ∷ to_string s.listen_port)

  abbrev pub address_v6 : DnsServer → Text
  address_v6 s = b'[' ∷ (s.listen_addr_v6 ++ (text "]:" ++ to_string s.listen_port))

  unfoldable pub listeners : DnsServer → List (Transport × A)
  listeners s =
      listen_on (address_v4 s)
      ++ (if is_empty s.listen_addr_v6 then [] else listen_on (address_v6 s))

  abbrev pub run_error : List (Transport × A) → RunError
  run_error [] = no_listener
  run_error (l ∷ ls) = all_exited

  -- `run`: the sockets that are served, and the error after their tasks have ended.
  unfoldable pub run : DnsServer → List (Transport × A) × RunError
  run s = (listeners s, run_error (listeners s))

  -- The text of an address parses to it, and a socket can be bound.
  abbrev pub IsBound : Text → Transport → A → Type 0
  IsBound address t a = (parse address ≡ some a) × (bind t a ≡ true)

  -- A socket for one of the addresses of the configuration.
  abbrev pub IsListener : DnsServer → Transport → A → Type 0
  IsListener s t a =
      IsBound (address_v4 s) t a
      ⊎ ((is_empty s.listen_addr_v6 ≡ false) × IsBound (address_v6 s) t a)

  single_sound :
      (u t : Transport) (b a : A)
      → bind u b ≡ true
      → Contains {A = Transport × A} (t, a) ((u, b) ∷ [])
      → (some b ≡ some a) × (bind t a ≡ true)
  single_sound u t b a works c =
      let same : ◌≡◌ {A = Transport × A} (t, a) (u, b) = Contains-single c in
      (ap (λ p. some p.1) (sym same), ap (λ p. bind p.0 p.1) same ∙ works)

  bound_sound :
      (u t : Transport) (a : A) (o : Option A)
      → Contains (t, a) (bound u o)
      → (o ≡ some a) × (bind t a ≡ true)
  bound_sound u t a none c = elim c [ ]
  bound_sound u t a (some b) c = elim (Bool-cases (bind u b)) [
    | inl works ↦ single_sound u t b a works (rw works at c)
    | inr fails ↦ elim (rw fails at c) [ ]
  ]

  bound_complete : (t : Transport) (a : A) → bind t a ≡ true → Contains (t, a) (bound t (some a))
  bound_complete t a works = rw works here

  listen_on_sound :
      (address : Text) (t : Transport) (a : A)
      → Contains (t, a) (listen_on address)
      → IsBound address t a
  unfolding listen_on
  listen_on_sound address t a c =
      elim (Contains-append (bound udp (parse address)) (bound tcp (parse address)) c) [
        | inl d ↦ bound_sound udp t a (parse address) d
        | inr d ↦ bound_sound tcp t a (parse address) d
      ]

  listen_on_complete :
      (address : Text) (t : Transport) (a : A)
      → IsBound address t a
      → Contains (t, a) (listen_on address)
  unfolding listen_on
  listen_on_complete address udp a (parsed, works) =
      Contains-append_left (bound tcp (parse address)) (rw parsed (bound_complete udp a works))
  listen_on_complete address tcp a (parsed, works) =
      Contains-append_right (bound udp (parse address)) (rw parsed (bound_complete tcp a works))

  listeners_sound :
      (s : DnsServer) (t : Transport) (a : A) → Contains (t, a) (listeners s) → IsListener s t a
  unfolding listeners
  listeners_sound s t a c = elim (Bool-cases (is_empty s.listen_addr_v6)) [
    | inl none_given ↦ elim (Contains-append (listen_on (address_v4 s)) [] (rw none_given at c)) [
      | inl d ↦ inl (listen_on_sound (address_v4 s) t a d)
      | inr d ↦ elim d [ ]
    ]
    | inr given ↦
        elim (Contains-append (listen_on (address_v4 s)) (listen_on (address_v6 s))
          (rw given at c)) [
            | inl d ↦ inl (listen_on_sound (address_v4 s) t a d)
            | inr d ↦ inr (given, listen_on_sound (address_v6 s) t a d)
          ]
  ]

  listeners_complete :
      (s : DnsServer) (t : Transport) (a : A) → IsListener s t a → Contains (t, a) (listeners s)
  unfolding listeners
  listeners_complete s t a (inl h) =
      Contains-append_left (if is_empty s.listen_addr_v6 then [] else listen_on (address_v6 s))
        (listen_on_complete (address_v4 s) t a h)
  listeners_complete s t a (inr (given, h)) =
      Contains-append_right (listen_on (address_v4 s))
        (rw given (listen_on_complete (address_v6 s) t a h))

  run_error_cases :
      (ls : List (Transport × A))
      → ((run_error ls ≡ no_listener) × ((t : Transport) (a : A) → ¬ Contains (t, a) ls))
        ⊎ ((run_error ls ≡ all_exited) × (t : Transport) × (a : A) × Contains (t, a) ls)
  run_error_cases [] = inl (refl, λ t a c. elim c [ ])
  run_error_cases ((t, a) ∷ ls) = inr (refl, t, a, here)

  -- `run` serves exactly the sockets, over UDP and TCP, of the configured addresses that parse and
  -- can be bound, an IPv6 address only if one is configured. It fails before it serves if there
  -- is no such socket, and else it ends only when the tasks of all sockets have ended.
  pub run-IsListener :
      (s : DnsServer)
      → ((t : Transport) (a : A) → Contains (t, a) (run s).0 ↔ IsListener s t a)
        × ((((run s).1 ≡ no_listener) × ((t : Transport) (a : A) → ¬ IsListener s t a))
            ⊎ (((run s).1 ≡ all_exited) × (t : Transport) × (a : A) × IsListener s t a))
  unfolding run
  run-IsListener s = (
    λ t a. (listeners_sound s t a, listeners_complete s t a),
    elim (run_error_cases (listeners s)) [
      | inl (failed, nothing) ↦ inl (failed, λ t a h. nothing t a (listeners_complete s t a h))
      | inr (ended, t, a, c) ↦ inr (ended, t, a, listeners_sound s t a c)
    ],
  )
