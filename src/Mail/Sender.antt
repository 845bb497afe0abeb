-- ===== src/Mail/Sender.antt =====
-- mail/mailer.go: the composition of the report on a migration and its sending.
pub mod Readable
use ces_importer.Base.{
  ℕ, String, ◌<>◌, ◌==◌, Bool, true, false, ◌||◌, Option, none, some, List, [], ◌∷◌, Error, plain,
  wrap, Result, ok, err, leb, if◌then◌else◌,
}
use ces_importer.Configuration.Types.{Smtp}
use ces_importer.Mail.Smtp.{Auth}
use ces_importer.Mail.Report.{
  Headers, Write, Multipart, Formats, state_migration_success, state_migration_failure,
  build_subject, format_as_url, build_message_id, and_then, or_wrap, join_texts, succeeded,
}

-- `smtp.SendMail`, `sendMailWithTls` or `sendMailWithStartTLS`
abbrev pub SenderService : Type 0 → Type 0
SenderService W = String → Option Auth → String → List String → String → W → Option Error × W

-- `get_global_config` is the repository's `Get` and then the configuration's `Get` of a key.
pub record Sender (W B : Type 0) : Type 0 where
  pub config : Smtp
  pub source_instance : String
  pub sender_service : SenderService W
  pub read_file : String → Result String
  pub attachments : List String
  pub get_global_config : W → Result (String → Option String) × W
  pub multipart : Multipart B
  pub formats : Formats

module _ {W B : Type 0} (s : Sender W B) where
  unfoldable pub auth : Option Auth
  auth =
      if (s.config.username == "") || (s.config.password == "")
      then none
      else some (record {
        username = s.config.username;
        password = s.config.password;
        host = s.config.server;
      })

  unfoldable pub server : String
  server = s.config.server <> ":" <> s.formats.decimal s.config.port

  unfoldable pub get_target_instance : W → Result String × W
  get_target_instance w =
      let (cfg, w1) = s.get_global_config w in
      elim cfg [
        | err e ↦ (err (wrap "failed to get global config" e), w1)
        | ok get ↦ elim (get "fqdn") [
          | none ↦ (err (plain "global config does not contain key fqdn"), w1)
          | some fqdn ↦ (ok fqdn, w1)
        ]
      ]

  abbrev result_text : Option Error → String
  result_text none = state_migration_success
  result_text (some e) = state_migration_failure

  abbrev error_message : Option Error → String
  error_message none = ""
  error_message (some e) = "Die Fehlermeldung ist: " <> s.formats.error_text e <> "\n\n"

  unfoldable pub body_text : Option Error → ℕ → ℕ → Bool → String → String
  body_text migration_result start end_ is_final target_instance =
      "Die "
      <> (if is_final then "finale Migration" else "Delta-Migration")
      <> " von der Instanz "
      <> format_as_url s.source_instance
      <> " zu der Instanz "
      <> format_as_url target_instance
      <> " war "
      <> result_text migration_result
      <> ".\n\nStartzeitpunkt: "
      <> s.formats.time_text start
      <> "\nEndzeitpunkt: "
      <> s.formats.time_text end_
      <> "\n\n"
      <> error_message migration_result
      <> "Alle weiteren Informationen finden Sie in der Log-Datei im Anhang."

  abbrev text_headers : Headers
  text_headers =
      ("Content-Type", "text/plain; charset=utf-8")
      ∷ ("Content-Transfer-Encoding", "quoted-printable")
      ∷ []

  -- The part with the text, once the target instance is known.
  unfoldable pub write_text : String → Write B
  write_text text b =
      and_then "failed to create text part" (s.multipart.create_part text_headers b) (λ b1.
        and_then "failed to write body-text" (s.multipart.write_quoted text b1)
          (λ b2. or_wrap "failed to close quoted-printable writer" (s.multipart.close_quoted b2)))

  unfoldable pub write_body_text : Option Error → ℕ → ℕ → Bool → B → W → Option Error × B × W
  write_body_text migration_result start end_ is_final b w =
      let (target, w1) = get_target_instance w in
      elim target [
        | err e ↦ (some (wrap "failed to get target instance" e), b, w1)
        | ok t ↦
            let (failure, b1) = write_text (body_text migration_result start end_ is_final t) b in
            (failure, b1, w1)
      ]

  abbrev attachment_headers : String → Headers
  attachment_headers filename =
      ("Content-Type", "application/octet-stream")
      ∷ ("Content-Disposition", "attachment; filename=\"" <> s.formats.base_name filename <> "\"")
      ∷ ("Content-Transfer-Encoding", "base64")
      ∷ []

  unfoldable pub write_attachment : String → Write B
  write_attachment filename b = elim (s.read_file filename) [
    | err e ↦ (some (wrap "failed to read file for attachment" e), b)
    | ok file_data ↦
        and_then "failed to create attachment part"
          (s.multipart.create_part (attachment_headers filename) b)
          (λ b1.
            or_wrap "failed to write attachment"
              (s.multipart.write (s.formats.base64 file_data) b1))
  ]

  -- The loop over the attachments; its errors are only logged.
  unfoldable pub write_attachments : List String → B → B
  write_attachments [] b = b
  write_attachments (file ∷ files) b = write_attachments files (write_attachment file b).1

  -- The headers, in the order of their keys.
  unfoldable pub headers : Bool → String → Headers
  headers migration_successful target_instance =
      ("Content-Type", "multipart/mixed; boundary=" <> s.multipart.boundary)
      ∷ ("Date", s.formats.date)
      ∷ ("From", s.config.from)
      ∷ ("MIME-Version", "1.0")
      ∷ ("Message-ID", build_message_id s.formats target_instance)
      ∷ ("Subject", build_subject migration_successful s.source_instance)
      ∷ ("To", join_texts s.config.to)
      ∷ []

  unfoldable pub write_headers : Headers → B → B
  write_headers [] b = b
  write_headers ((key, value) ∷ hs) b =
      write_headers hs (s.multipart.write_string (key <> ": " <> value <> "\r\n") b)

  -- What `Send` does once mail is enabled and a server is configured; `attach` is its loop over the attachments.
  unfoldable pub compose_and_send : (B → B) → Bool → Option Error → ℕ → ℕ → W → Option Error × W
  compose_and_send attach is_final migration_result start end_ w =
      let (target, w1) = get_target_instance w in
      elim target [
        | err e ↦ (some (wrap "failed to get target instance" e), w1)
        | ok t ↦
            let begun =
              s.multipart.write_string "\r\n"
                (write_headers (headers (succeeded migration_result) t) s.multipart.empty) in
            let (failure, body, w2) =
              write_body_text migration_result start end_ is_final begun w1 in
            elim failure [
              | some e ↦ (some (wrap "failed to write body text" e), w2)
              | none ↦
                  let (unclosed, whole) = s.multipart.close (attach body) in
                  elim unclosed [
                    | some e ↦ (some (wrap "failed to close multipart writer" e), w2)
                    | none ↦
                        s.sender_service server auth s.config.from s.config.to
                          (s.multipart.bytes whole) w2
                  ]
            ]
      ]

  unfoldable pub send : Bool → Option Error → ℕ → ℕ → W → Option Error × W
  send is_final migration_result start end_ w =
      let sent =
        compose_and_send (write_attachments s.attachments) is_final migration_result start end_ w in
      if s.config.enabled
      then if (s.config.server == "") || leb s.config.port 0 then (none, w) else sent
      else (none, w)

-- The services that `CreateSender` chooses from.
pub data Service : Type 0 where
  implicit_tls start_tls send_mail : Service

unfoldable pub choose_service : String → Result Service
choose_service tls_mode =
    if (tls_mode == "implicit") || (tls_mode == "true")
    then ok implicit_tls
    else if tls_mode == "starttls"
    then ok start_tls
    else if (tls_mode == "none") || (tls_mode == "false") || (tls_mode == "")
    then ok send_mail
    else err (plain ("invalid tlsMode(implicit, starttls, none): " <> tls_mode))
