-- ===== src/Mail/Sender/Readable.antt =====
-- Attachments that cannot be read.
use ces_importer.Base.{
  ℕ, String, ◌≡◌, refl, Bool, true, false, Option, List, [], ◌∷◌, Error, Result, ok, err,
  Result-cases, inl, inr, if◌then◌else◌,
}
use ces_importer.Mail.Sender.{
  Sender, write_attachment, write_attachments, write_body_text, write_text, get_target_instance,
  headers, compose_and_send, send, server, auth, body_text, write_headers,
}

abbrev is_ok : Result String → Bool
is_ok (ok _) = true
is_ok (err _) = false

-- The files that can be read.
abbrev pub readable : (String → Result String) → List String → List String
readable read_file [] = []
readable read_file (f ∷ fs) =
    let rest = readable read_file fs in if is_ok (read_file f) then f ∷ rest else rest

module _ {W B : Type 0} (s : Sender W B) where
  -- The sender with those attachments alone that can be read.
  abbrev pub with_readable : Sender W B
  with_readable = record s { attachments = readable s.read_file s.attachments }

  write_attachments-readable :
      (fs : List String) (b : B)
      → write_attachments with_readable (readable s.read_file fs) b ≡ write_attachments s fs b
  unfolding write_attachments write_attachment
  write_attachments-readable [] b = refl
  write_attachments-readable (f ∷ fs) b = elim (Result-cases (s.read_file f)) [
    | inr (e, p) ↦ rw (p, write_attachment) (write_attachments-readable fs b)
    | inl (d, p) ↦ rw p (write_attachments-readable fs (write_attachment s f b).1)
  ]

  compose_and_send-attachments :
      (attach : B → B) (is_final : Bool) (result : Option Error) (start end_ : ℕ) (w : W)
      → compose_and_send with_readable attach is_final result start end_ w
        ≡ compose_and_send s attach is_final result start end_ w
  unfolding compose_and_send write_body_text write_text get_target_instance headers server auth
      body_text write_headers
  compose_and_send-attachments attach is_final result start end_ w = refl

  -- Log files that cannot be read do not keep the report from being sent: `Send` does what it would do with those attachments alone that can be read.
  pub send-readable :
      (is_final : Bool) (result : Option Error) (start end_ : ℕ) (w : W)
      → send s is_final result start end_ w ≡ send with_readable is_final result start end_ w
  unfolding send
  send-readable is_final result start end_ w =
      let same : write_attachments with_readable (readable s.read_file s.attachments)
          ≡ write_attachments s s.attachments =
        (λ i b. write_attachments-readable s.attachments b i) in
      let sent =
        compose_and_send-attachments (write_attachments s s.attachments) is_final result start end_
          w in
      rw (same, sent) refl
