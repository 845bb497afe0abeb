-- ===== src/Mail/Smtp/Plan.antt =====
-- A plan: commands that are sent one after the other, as long as none of them fails.
use ces_importer.Base.{
  sym, ◌∙◌, String, ◌<>◌, ◌≡◌, refl, Option, none, some, List, [], ◌∷◌, ◌++◌, Error, wrap,
  Option-cases, inl, inr,
}
use ces_importer.Mail.Smtp.{
  Command, mail, rcpt, data_, write, close, Session, Server, send, next, set_recipients,
  prepare_mail,
}

abbrev pub Plan : Type 0 → Type 0
Plan P = List (String × Command P)

module _ {P : Type 0} where
  unfoldable pub run : Server P → Plan P → Session P → Option Error × Session P
  run server [] log = (none, log)
  run server ((message, c) ∷ plan) log = next (send server message c log) (λ l. run server plan l)

  pub next-cong :
      (r : Option Error × Session P) {k k' : Session P → Option Error × Session P}
      → ((l : Session P) → k l ≡ k' l)
      → next r k ≡ next r k'
  next-cong (none, l) same = same l
  next-cong (some e, l) same = refl

  next_assoc :
      (r : Option Error × Session P) (k k' : Session P → Option Error × Session P)
      → next (next r k) k' ≡ next r (λ l. next (k l) k')
  next_assoc (none, l) k k' = refl
  next_assoc (some e, l) k k' = refl

  pub next-none : (r : Option Error × Session P) → next r (λ l. (none, l)) ≡ r
  next-none (none, l) = refl
  next-none (some e, l) = refl

  pub run-append :
      (server : Server P) (p q : Plan P) (log : Session P)
      → run server (p ++ q) log ≡ next (run server p log) (λ l. run server q l)
  unfolding run
  run-append server [] q log = refl
  run-append server ((m, c) ∷ p) q log =
      next-cong (send server m c log) (run-append server p q)
      ∙ sym (next_assoc (send server m c log) (λ l. run server p l) (λ l. run server q l))

  -- How a plan goes from a log on: a command whose reply is no error is followed by the next one, the first
  -- error ends the plan, in the command's message, and without an error all of it is sent.
  pub data Goes (server : Server P) : Plan P → Session P → Option Error × Session P → Type 0 where
    done : (log : Session P) → Goes server [] log (none, log)
    refused :
        (m : String) (c : Command P) (plan : Plan P) (log : Session P) (e : Error)
        → server.reply c log ≡ some e
        → Goes server ((m, c) ∷ plan) log (some (wrap m e), log ++ c ∷ [])
    accepted :
        (m : String) (c : Command P) (plan : Plan P) (log : Session P)
        (r : Option Error × Session P)
        → server.reply c log ≡ none
        → Goes server plan (log ++ c ∷ []) r
        → Goes server ((m, c) ∷ plan) log r

  pub run-Goes :
      (server : Server P) (plan : Plan P) (log : Session P)
      → Goes server plan log (run server plan log)
  unfolding run
  run-Goes server [] log = done log
  run-Goes server ((m, c) ∷ plan) log = elim (Option-cases (server.reply c log)) [
    | inl p ↦ rw p (accepted m c plan log _ p (run-Goes server plan (log ++ c ∷ [])))
    | inr (e, p) ↦ rw p (refused m c plan log e p)
  ]

  abbrev recipients_plan : List String → Plan P
  recipients_plan [] = []
  recipients_plan (r ∷ t) = ("failed to set recipient " <> r, rcpt r) ∷ recipients_plan t

  set_recipients-run :
      (server : Server P) (t : List String) (log : Session P)
      → set_recipients server t log ≡ run server (recipients_plan t) log
  unfolding set_recipients run
  set_recipients-run server [] log = refl
  set_recipients-run server (r ∷ t) log =
      next-cong (send server ("failed to set recipient " <> r) (rcpt r) log)
        (set_recipients-run server t)

  abbrev message_plan : String → Plan P
  message_plan msg =
      ("failed to get writer from mail server", data_)
      ∷ ("failed to write message", write msg)
      ∷ ("failed to close message writer", close)
      ∷ []

  abbrev pub mail_plan : String → List String → String → Plan P
  mail_plan f t msg = ("failed to set sender", mail f) ∷ (recipients_plan t ++ message_plan msg)

  pub prepare_mail-run :
      (server : Server P) (f : String) (t : List String) (msg : String) (log : Session P)
      → prepare_mail server f t msg log ≡ run server (mail_plan f t msg) log
  unfolding prepare_mail run
  prepare_mail-run server f t msg log =
      next-cong (send server "failed to set sender" (mail f) log) (λ l1. rw (set_recipients-run) (
        next-cong (run server (recipients_plan t) l1) (λ l2.
          next-cong (send server "failed to get writer from mail server" data_ l2) (λ l3.
            next-cong (send server "failed to write message" (write msg) l3)
              (λ l4. sym (next-none (send server "failed to close message writer" close l4)))))
        ∙ sym (run-append server (recipients_plan t) (message_plan msg) l1)))
