-- ===== src/Mail/Smtp/Sessions.antt =====
-- The commands of a session with the mail server, in their order.
use ces_importer.Base.{
  sym, ◌∙◌, String, ◌≡◌, refl, Bool, true, false, Option, none, some, List, [], ◌∷◌, ◌++◌, Error,
  ok, err, Option-cases, Result-cases, Bool-cases, inl, inr,
}
use ces_importer.Mail.Smtp.{
  Auth, Command, hello, start_tls, auth, quit, TlsConfig, Session, Server, System, send, next,
  then_quit, replied, create_tls_config, authenticate, start_tls_and_mail, send_mail_with_start_tls,
}
use ces_importer.Mail.Smtp.Plan.{
  Plan, run, next-cong, next-none, run-append, Goes, run-Goes, mail_plan, prepare_mail-run,
}

module _ {P : Type 0} where
  -- The authentication, if there is one and the server offers it.
  abbrev auth_plan : Option Auth → Bool → Plan P
  auth_plan (some a) true = ("failed to authenticate", auth a) ∷ []
  auth_plan (some a) false = []
  auth_plan none offered = []

  abbrev start_tls_plan : TlsConfig P → Option Auth → Bool → String → List String → String → Plan P
  start_tls_plan tls a offered from to msg =
      ("failed to init starttls", start_tls tls) ∷ (auth_plan a offered ++ mail_plan from to msg)

  authenticate-run :
      (server : Server P) (a : Option Auth) (log : Session P)
      → authenticate server a log ≡ run server (auth_plan a (server.extension "AUTH" log)) log
  unfolding authenticate run
  authenticate-run server none log = refl
  authenticate-run server (some a) log = elim (Bool-cases (server.extension "AUTH" log)) [
    | inl p ↦ rw p (sym (next-none (send server "failed to authenticate" (auth a) log)))
    | inr p ↦ rw p refl
  ]

  replied-cong :
      (m : String) (c : Command P) (log : Session P) (reply : Option Error)
      (k k' : Session P → Option Error × Session P)
      → k (log ++ c ∷ []) ≡ k' (log ++ c ∷ [])
      → next (replied m c log reply) k ≡ next (replied m c log reply) k'
  replied-cong m c log none k k' same = same
  replied-cong m c log (some e) k k' same = refl

  start_tls_and_mail-run :
      (server : Server P) (tls : TlsConfig P) (a : Option Auth) (from : String) (to : List String)
      (msg : String) (log : Session P)
      → start_tls_and_mail server tls a from to msg log
        ≡ run server
            (start_tls_plan tls a (server.extension "AUTH" (log ++ start_tls tls ∷ [])) from to msg)
            log
  unfolding start_tls_and_mail run
  start_tls_and_mail-run server tls a from to msg log =
      replied-cong "failed to init starttls" (start_tls tls) log (server.reply (start_tls tls) log)
        _ _
        (rw (authenticate-run) (
          next-cong
            (run server (auth_plan a (server.extension "AUTH" (log ++ start_tls tls ∷ [])))
              (log ++ start_tls tls ∷ []))
            (prepare_mail-run server from to msg)
          ∙ sym (
              run-append server (auth_plan a (server.extension "AUTH" (log ++ start_tls tls ∷ [])))
                (mail_plan from to msg) (log ++ start_tls tls ∷ []))))

module _ {P : Type 0} (sys : System P) (skip : Bool) (addr : String) (a : Option Auth)
    (from : String) (to : List String) (msg : String) where
  -- How a session goes: without a connection nothing is sent; an error in the greeting, a server without
  -- STARTTLS or a configuration that cannot be made breaks it off; else it follows the plan: TLS, the
  -- authentication where the server offers it then, and the mail.
  pub data StartTls : Option Error × Session P → Type 0 where
    unconnected : (e e' : Error) → sys.factory.new_client addr ≡ err e → StartTls (some e', [])
    greeting_refused :
        (server : Server P) (e e' : Error)
        → sys.factory.new_client addr ≡ ok server
        → server.reply (hello sys.hostname) [] ≡ some e
        → StartTls (some e', hello sys.hostname ∷ quit ∷ [])
    not_offered :
        (server : Server P) (e' : Error)
        → sys.factory.new_client addr ≡ ok server
        → server.reply (hello sys.hostname) [] ≡ none
        → server.extension "STARTTLS" (hello sys.hostname ∷ []) ≡ false
        → StartTls (some e', hello sys.hostname ∷ quit ∷ [])
    not_configured :
        (server : Server P) (e e' : Error)
        → sys.factory.new_client addr ≡ ok server
        → server.reply (hello sys.hostname) [] ≡ none
        → server.extension "STARTTLS" (hello sys.hostname ∷ []) ≡ true
        → create_tls_config sys (sys.server_name addr) skip ≡ err e
        → StartTls (some e', hello sys.hostname ∷ quit ∷ [])
    follows :
        (server : Server P) (tls : TlsConfig P) (r : Option Error × Session P)
        → sys.factory.new_client addr ≡ ok server
        → server.reply (hello sys.hostname) [] ≡ none
        → server.extension "STARTTLS" (hello sys.hostname ∷ []) ≡ true
        → create_tls_config sys (sys.server_name addr) skip ≡ ok tls
        → Goes server
            (start_tls_plan tls a
              (server.extension "AUTH" (hello sys.hostname ∷ start_tls tls ∷ []))
              from
              to
              msg)
            (hello sys.hostname ∷ [])
            r
        → StartTls (then_quit r)

  -- A session with STARTTLS sends nothing without a connection. If the greeting is refused, STARTTLS is not offered or the TLS configuration cannot be made, then the session
  -- ends with an error and nothing but the greeting and `Quit` was sent. Otherwise it follows its plan: the start of TLS with the configuration made, the authentication
  -- if there is one and the server offers it once TLS is on, the sender, the recipients in their order and the message. Each command is sent only if
  -- the server's replies to those before it were no errors, the first error ends the session and is its result, and there is no error exactly if all of the plan was sent
  -- and accepted. With a connection, the last command is `Quit`.
  pub send_mail_with_start_tls-StartTls :
      StartTls (send_mail_with_start_tls sys skip addr a from to msg)
  unfolding send_mail_with_start_tls
  send_mail_with_start_tls-StartTls = elim (Result-cases (sys.factory.new_client addr)) [
    | inr (e, p) ↦ rw (p, send_mail_with_start_tls) (unconnected e _ p)
    | inl (server, p) ↦
        let greeted = hello sys.hostname ∷ [] in
        elim (Option-cases (server.reply (hello sys.hostname) [])) [
          | inr (e, q) ↦ rw (p, q, send_mail_with_start_tls, next) (greeting_refused server e _ p q)
          | inl q ↦ elim (Bool-cases (server.extension "STARTTLS" greeted)) [
            | inr t ↦ rw (p, q, t, send_mail_with_start_tls, next) (not_offered server _ p q t)
            | inl t ↦ elim (Result-cases (create_tls_config sys (sys.server_name addr) skip)) [
              | inr (e, u) ↦
                  rw (p, q, t, u, send_mail_with_start_tls, next)
                    (not_configured server e _ p q t u)
              | inl (tls, u) ↦
                  rw
                    (
                      p,
                      q,
                      t,
                      u,
                      send_mail_with_start_tls,
                      next,
                      start_tls_and_mail-run server tls a from to msg greeted,
                    )
                    (follows server tls _ p q t u (run-Goes server _ greeted))
            ]
          ]
        ]
  ]
