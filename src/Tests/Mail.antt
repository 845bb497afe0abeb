-- ===== src/Tests/Mail.antt =====
-- A session with a mail server that refuses the second recipient.
use ces_importer.Base.{
  String, ◌==◌, ◌≡◌, refl, true, false, Option, none, some, List, [], ◌∷◌, Error, plain, wrap, ok,
  str_dec, if◌then◌else◌,
}
use ces_importer.Mail.Smtp.{
  Auth, Command, hello, start_tls, auth, mail, rcpt, quit, Session, Server, not_exist, System,
  send_mail_with_start_tls, start_tls_and_mail, authenticate, prepare_mail, set_recipients,
  create_tls_config,
}
use ces_importer.Mail.Smtp.Sessions.{StartTls, send_mail_with_start_tls-StartTls}

abbrev reply : Command String → Session String → Option Error
reply (rcpt to) log = if to == "nobody" then some (plain "no such user") else none
reply _ log = none

abbrev mail_server : Server String
mail_server = record { reply = reply; extension = λ name log. true }

abbrev sys : System String
sys = record {
  factory = record {
    new_tls_client = λ addr tls. ok mail_server;
    new_client = λ addr. ok mail_server;
  };
  hostname = "importer";
  server_name = λ addr. "mail.example";
  read_file = λ path. not_exist;
  system_cert_pool = ok "system";
  new_cert_pool = "";
  append_certs = λ pool ca. (true, pool);
  custom_ca_path = "/etc/custom-certs/mail/ca.crt";
}

abbrev login : Auth
login = record { username = "user"; password = "password"; host = "mail.example" }

abbrev recipients : List String
recipients = "admin" ∷ "nobody" ∷ "other" ∷ []

session_runs :
    send_mail_with_start_tls sys false "mail.example:587" (some login) "from" recipients "text" ≡ (
      some (wrap "failed to set recipient nobody" (plain "no such user")),
      hello "importer"
          ∷ start_tls (record {
            server_name = "mail.example";
            root_cas = none;
            insecure_skip_verify = false;
          })
          ∷ auth login
          ∷ mail "from"
          ∷ rcpt "admin"
          ∷ rcpt "nobody"
          ∷ quit
          ∷ [],
    )
unfolding send_mail_with_start_tls start_tls_and_mail authenticate prepare_mail set_recipients
    create_tls_config str_dec
session_runs = refl

send_mail_with_start_tls-StartTls_example :
    StartTls sys false "mail.example:587"
      (some login)
      "from"
      recipients
      "text"
      (send_mail_with_start_tls sys false "mail.example:587" (some login) "from" recipients "text")
send_mail_with_start_tls-StartTls_example =
    send_mail_with_start_tls-StartTls sys false "mail.example:587" (some login) "from" recipients
      "text"
