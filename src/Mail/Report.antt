-- ===== src/Mail/Report.antt =====
-- mail/mailer.go: the parts of the report on a migration. The multipart writer and its buffer, the formats of `fmt` and `time` and the
-- encodings are parameters; a buffer is of a type `B`, times are numbers.
use ces_importer.Base.{
  ℕ, String, ◌<>◌, Bool, true, false, Option, none, some, List, [], ◌∷◌, Error, wrap, if◌then◌else◌,
}

abbrev pub Headers : Type 0
Headers = List (String × String)

-- A call that changes the buffer, and can fail.
abbrev pub Write : Type 0 → Type 0
Write B = B → Option Error × B

-- `bytes.Buffer`, `multipart.Writer` and `quotedprintable.Writer`, for which `write` is that of the part made last.
pub record Multipart (B : Type 0) : Type 0 where
  pub empty : B
  pub boundary : String
  pub write_string : String → B → B
  pub create_part : Headers → Write B
  pub write : String → Write B
  pub write_quoted : String → Write B
  pub close_quoted : Write B
  pub close : Write B
  pub bytes : B → String

-- Texts that other packages make.
pub record Formats : Type 0 where
  pub decimal : ℕ → String
  pub error_text : Error → String
  pub time_text : ℕ → String
  pub base64 : String → String
  pub base_name : String → String
  -- the time and the random number of a message id, and the date
  pub identifier : String
  pub date : String

abbrev pub state_migration_success : String
state_migration_success = "erfolgreich"

abbrev pub state_migration_failure : String
state_migration_failure = "nicht erfolgreich"

unfoldable pub build_subject : Bool → String → String
build_subject success source_instance =
    "Die Migration der Instanz "
    <> source_instance
    <> " war "
    <> (if success then state_migration_success else state_migration_failure)
    <> "."

unfoldable pub format_as_url : String → String
format_as_url instance_ = "https://" <> instance_

unfoldable pub build_message_id : Formats → String → String
build_message_id formats fqdn = "<" <> formats.identifier <> "@" <> fqdn <> ">"

-- What follows if there was no error; an error gets the message.
abbrev pub and_then : {B : Type 0} → String → Option Error × B → Write B → Option Error × B
and_then message (none, b) k = k b
and_then message (some e, b) k = (some (wrap message e), b)

abbrev pub or_wrap : {B : Type 0} → String → Option Error × B → Option Error × B
or_wrap message (none, b) = (none, b)
or_wrap message (some e, b) = (some (wrap message e), b)

-- `strings.Join(…, ", ")`
abbrev pub join_texts : List String → String
join_texts [] = ""
join_texts (t ∷ []) = t
join_texts (t ∷ u ∷ ts) = t <> ", " <> join_texts (u ∷ ts)

abbrev pub succeeded : Option Error → Bool
succeeded none = true
succeeded (some e) = false
