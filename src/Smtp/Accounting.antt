-- ===== src/Smtp/Accounting.antt =====
-- What an accepted message means (spamallam/app/smtp/server.py, `handle_DATA`).
use spamallam.Prelude.{◌≡◌, refl, ◌⊎◌, inl, inr, true, Option, none, some, Option-cases, Bytes}
use spamallam.Pipeline.Run.{Action, deliver, drop, tempfail, Journal}
use spamallam.Pipeline.Analyzer.Base.{Request, Decision}
use spamallam.Pipeline.Analyzer.Verdict.{process}
use spamallam.Pipeline.Analyzer.Saving.{IsHeld}
use spamallam.Pipeline.Analyzer.Outcome.{control_reason}
use spamallam.Pipeline.Analyzer.Threats.{IsThreat}
use spamallam.Pipeline.Analyzer.Process.{cleaned, msg_headers, IsPassage}
use spamallam.Pipeline.Analyzer.Guarantees.{
  IsWhole, IsCheckedDelivery, drop_is_accounted, delivery_is_checked,
}
use spamallam.Smtp.{Front, Session, Envelope, accepted, relayed, request_of, reply_to, handle_data}

module _ (front : Front) (session : Session) (envelope : Envelope) (j : Journal) where
  abbrev pub req : Request
  req = request_of front session envelope

  abbrev pub raw : Bytes
  raw = envelope.content

  abbrev pub after : Journal
  after = (handle_data front session envelope j).1

  -- The message went to the relay, which took it.
  abbrev pub IsRelayed : Decision → Type 0
  IsRelayed d =
      (front.reinject req.envelope_from req.rcpt_tos d.message ≡ none)
      × ((p : IsPassage front.env req raw j d after) × IsCheckedDelivery front.env req
            (cleaned front.env req raw) p.scored (msg_headers front.env req raw) p.wl_rule j d
            after)

  -- The message was dropped, and there is an account of it.
  abbrev pub IsDiscarded : Decision → Type 0
  IsDiscarded d =
      (p : IsPassage front.env req raw j d after) × (IsThreat front.env p.scored p.wl_rule
        ⊎ (IsHeld front.env req (cleaned front.env req raw) p.scored (msg_headers front.env req raw)
              (control_reason front.env req (cleaned front.env req raw) p.scored
                (msg_headers front.env req raw))
              j after
            × IsWhole req (cleaned front.env req raw) j after))

  reinject_of_accepted : (o : Option _) → accepted (relayed o) ≡ true → o ≡ none
  reinject_of_accepted none e = refl
  reinject_of_accepted (some text) e = cc

  account :
      (d : Decision) (action : Action)
      → (process front.env req raw j).0 ≡ some d
      → d.action ≡ action
      → accepted (reply_to front req action d.message) ≡ true
      → ((action ≡ deliver) × IsRelayed d) ⊎ ((action ≡ drop) × IsDiscarded d)
  unfolding handle_data
  account d drop e is a = inr (refl, drop_is_accounted front.env req raw j d e is)
  account d tempfail e is a = cc
  account d deliver e is a =
      inl (refl, (reinject_of_accepted _ a, delivery_is_checked front.env req raw j d e is))

  -- The front end accepts a message only if the relay took it, delivered as the pipeline guarantees,
  -- or the pipeline dropped it, as a threat or into the quarantine.
  pub accepted_is_accounted :
      accepted (handle_data front session envelope j).0 ≡ true
      → (d : Decision) × ((process front.env req raw j).0 ≡ some d)
        × (((d.action ≡ deliver) × IsRelayed d) ⊎ ((d.action ≡ drop) × IsDiscarded d))
  accepted_is_accounted a = elim (Option-cases (process front.env req raw j).0) [
    | inl e ↦ unfold handle_data in cc (simp e at a)
    | inr (d, e) ↦ (d, e, account d d.action e refl (unfold handle_data in simp e at a))
  ]
