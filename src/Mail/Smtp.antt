-- ===== src/Mail/Smtp.antt =====
-- mail/tlsSender.go, with the interfaces of smtpclient.go and smtpclientfactory.go. A session is the list of the commands
-- that were sent, the first one first; what the server replies to a command can depend on all that came before it.
pub mod Plan
pub mod Sessions
use ces_importer.Base.{
  String, ◌<>◌, Bool, true, false, Option, none, some, List, [], ◌∷◌, ◌++◌, Error, plain, wrap,
  Result, ok, err, if◌then◌else◌,
}

-- `smtp.PlainAuth` with no identity
pub record Auth : Type 0 where
  pub username : String
  pub password : String
  pub host : String

-- `tls.Config`; a root store is of a type `P`, and no roots are those of the system.
pub record TlsConfig (P : Type 0) : Type 0 where
  pub server_name : String
  pub root_cas : Option P
  pub insecure_skip_verify : Bool

-- The calls of `SMTPClient` that the server sees. `Data` begins the message, `write` and `close` are those of its writer.
pub data Command (P : Type 0) : Type 0 where
  hello : String → Command P
  start_tls : TlsConfig P → Command P
  auth : Auth → Command P
  mail : String → Command P
  rcpt : String → Command P
  data_ : Command P
  write : String → Command P
  close : Command P
  quit : Command P

abbrev pub Session : Type 0 → Type 0
Session P = List (Command P)

-- A connection's end: the errors of the commands, and the extensions that it has.
pub record Server (P : Type 0) : Type 0 where
  pub reply : Command P → Session P → Option Error
  pub extension : String → Session P → Bool

-- `SMTPClientFactory`
pub record Factory (P : Type 0) : Type 0 where
  pub new_tls_client : String → TlsConfig P → Result (Server P)
  pub new_client : String → Result (Server P)

-- What `os.ReadFile` answers.
pub data ReadFile : Type 0 where
  content : String → ReadFile
  not_exist : ReadFile
  read_error : Error → ReadFile

pub record System (P : Type 0) : Type 0 where
  pub factory : Factory P
  pub hostname : String
  -- `strings.Split(addr, ":")[0]`
  pub server_name : String → String
  pub read_file : String → ReadFile
  pub system_cert_pool : Result P
  pub new_cert_pool : P
  pub append_certs : P → String → Bool × P
  pub custom_ca_path : String

module _ {P : Type 0} where
  abbrev pub replied : String → Command P → Session P → Option Error → Option Error × Session P
  replied message c log none = (none, log ++ c ∷ [])
  replied message c log (some e) = (some (wrap message e), log ++ c ∷ [])

  -- A command with the message that its error is wrapped in.
  abbrev pub send : Server P → String → Command P → Session P → Option Error × Session P
  send server message c log = replied message c log (server.reply c log)

  -- What follows if there was no error.
  abbrev pub next :
      Option Error × Session P → (Session P → Option Error × Session P) → Option Error × Session P
  next (none, log) k = k log
  next (some e, log) k = (some e, log)

  -- The loop over the recipients.
  unfoldable pub set_recipients : Server P → List String → Session P → Option Error × Session P
  set_recipients server [] log = (none, log)
  set_recipients server (r ∷ t) log =
      next (send server ("failed to set recipient " <> r) (rcpt r) log)
        (λ l. set_recipients server t l)

  unfoldable pub prepare_mail :
      Server P → String → List String → String → Session P → Option Error × Session P
  prepare_mail server f t msg log = next (send server "failed to set sender" (mail f) log) (λ l1.
      next (set_recipients server t l1) (λ l2.
        next (send server "failed to get writer from mail server" data_ l2) (λ l3.
          next (send server "failed to write message" (write msg) l3)
            (λ l4. send server "failed to close message writer" close l4))))

  -- The authentication, if there is one and the server offers it.
  unfoldable pub authenticate : Server P → Option Auth → Session P → Option Error × Session P
  authenticate server none log = (none, log)
  authenticate server (some a) log =
      if server.extension "AUTH" log
      then send server "failed to authenticate" (auth a) log
      else (none, log)

  -- From the start of TLS to the end of the message.
  unfoldable pub start_tls_and_mail :
      Server P
      → TlsConfig P
      → Option Auth
      → String
      → List String
      → String
      → Session P
      → Option Error × Session P
  start_tls_and_mail server tls a from to msg log =
      next (send server "failed to init starttls" (start_tls tls) log)
        (λ l1. next (authenticate server a l1) (λ l2. prepare_mail server from to msg l2))

  -- The deferred `Quit`, whose error is only logged.
  abbrev pub then_quit : Option Error × Session P → Option Error × Session P
  then_quit (e, log) = (e, log ++ quit ∷ [])

abbrev base_pool : {P : Type 0} → Result P → P → P
base_pool (ok pool) new = pool
base_pool (err _) new = new

module _ {P : Type 0} (sys : System P) where
  unfoldable pub create_tls_config : String → Bool → Result (TlsConfig P)
  create_tls_config server_name skip = elim (sys.read_file sys.custom_ca_path) [
    | not_exist ↦
        ok (record { server_name = server_name; root_cas = none; insecure_skip_verify = skip })
    | read_error e ↦ err (wrap "failed to read custom CA file" e)
    | content ca_cert ↦ ok (record {
      server_name = server_name;
      root_cas =
          some (sys.append_certs (base_pool sys.system_cert_pool sys.new_cert_pool) ca_cert).1;
      insecure_skip_verify = skip;
    })
  ]

  -- The session is that of the connection that it opens; it is empty if there is none.
  unfoldable pub send_mail_with_tls :
      Bool → String → Option Auth → String → List String → String → Option Error × Session P
  send_mail_with_tls skip addr a from to msg =
      elim (create_tls_config (sys.server_name addr) skip) [
        | err e ↦ (some (wrap "failed to create TLS config" e), [])
        | ok tls ↦ elim (sys.factory.new_tls_client addr tls) [
          | err e ↦ (some (wrap "failed to create smtp tls client" e), [])
          | ok server ↦ then_quit (prepare_mail server from to msg [])
        ]
      ]

  unfoldable pub send_mail_with_start_tls :
      Bool → String → Option Auth → String → List String → String → Option Error × Session P
  send_mail_with_start_tls skip addr a from to msg = elim (sys.factory.new_client addr) [
    | err e ↦ (some (wrap "failed to create smtp client" e), [])
    | ok server ↦ then_quit (
        next (send server "failed to register conn" (hello sys.hostname) []) (λ l.
          if server.extension "STARTTLS" l
          then elim (create_tls_config (sys.server_name addr) skip) [
            | err e ↦ (some (wrap "failed to create TLS config" e), l)
            | ok tls ↦ start_tls_and_mail server tls a from to msg l
          ]
          else (some (plain "SMTP server does not support STARTTLS"), l)))
  ]
