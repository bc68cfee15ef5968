-- ===== src/Smtp/Tests.antt =====
-- Runs of the front end (spamallam/app/smtp/server.py).
use spamallam.Prelude.{
  ◌≡◌, refl, ◌⊎◌, true, none, some, List, [], ◌∷◌, All, Text, arith, codes, words_from, partition,
  put, get, text_eq,
}
use spamallam.Pipeline.Run.{deliver, drop, empty_journal}
use spamallam.Pipeline.Analyzer.Base.{Decision}
use spamallam.Pipeline.Analyzer.Verdict.{process}
use spamallam.Pipeline.Tests.{program, ham_env, plain}
use spamallam.Smtp.{
  Session, Envelope, Front, syntax_501, ok_250, peer_is_trusted, take_pairs, smtp_xforward,
  hex_pair, escape, xtext_from, xtext_decode, client_of, handle_data, accepted,
}
use spamallam.Smtp.Xtext.{IsByte, xtext_encode, xtext_decode-xtext_encode}
use spamallam.Smtp.Forwarding.{smtp_xforward_changes}
use spamallam.Smtp.Accounting.{IsRelayed, IsDiscarded, req, accepted_is_accounted}

abbrev edge : List Text
edge = codes "192.0.2.9" ∷ []

abbrev fresh : Session
fresh = record { peer = some (codes "192.0.2.9"); xforward = none }

abbrev known : Session
known = record { peer = some (codes "192.0.2.9"); xforward = some [] }

-- A command that is refused in its second pair: a first dict is lost, an older one has changed.
refused_tests :
    (smtp_xforward edge fresh (codes "name=a+2Bb x") ≡ (fresh, syntax_501))
    × ((smtp_xforward edge known (codes "name=a+2Bb x")).0.xforward
        ≡ some ((codes "NAME", codes "a+b") ∷ []))
unfolding smtp_xforward peer_is_trusted take_pairs words_from partition put text_eq xtext_from
    escape hex_pair
refused_tests = (refl, refl)

smtp_xforward_changes_example :
    ((smtp_xforward edge known (codes "name=a+2Bb x")).0 ≡ known)
    ⊎ ((peer_is_trusted edge known ≡ true)
        × (((smtp_xforward edge known (codes "name=a+2Bb x")).1 ≡ ok_250) ⊎ (true ≡ true)))
smtp_xforward_changes_example = smtp_xforward_changes edge known (codes "name=a+2Bb x")

bytes_ok : All IsByte (codes "a+ é")
bytes_ok = (omega arith, (omega arith, (omega arith, (omega arith, tt))))

xtext_decode-xtext_encode_example : xtext_decode (xtext_encode (codes "a+ é")) ≡ codes "a+ é"
xtext_decode-xtext_encode_example = xtext_decode-xtext_encode (codes "a+ é") bytes_ok

abbrev front : Front
front = record {
  env = ham_env;
  new_trace = (codes "t1", codes "2026-01-01");
  reinject = λ sender rcpts message. none;
}

abbrev envelope : Envelope
envelope = record {
  mail_from = some (codes "a@b.com");
  rcpt_tos = codes "c@d.org" ∷ [];
  content = plain;
}

queued_test : accepted (handle_data front fresh envelope empty_journal).0 ≡ true
unfolding handle_data program client_of get
queued_test = refl

accepted_is_accounted_example :
    (d : Decision) × ((process ham_env
        (req front fresh envelope empty_journal)
        plain
        empty_journal).0
      ≡ some d)
    × (((d.action ≡ deliver) × IsRelayed front fresh envelope empty_journal d)
        ⊎ ((d.action ≡ drop) × IsDiscarded front fresh envelope empty_journal d))
accepted_is_accounted_example = accepted_is_accounted front fresh envelope empty_journal queued_test
