-- ===== src/Lib.antt =====
-- SpamAllam filters mail between two Postfix instances: an SMTP front end hands every message to
-- a pipeline, which asks a language model and rspamd, and delivers, drops or defers it; dropped
-- mail waits in an encrypted quarantine for its recipients and the admin. This library models
-- that program and proves what its parts promise. Python's str and bytes are lists of codes over
-- the native numbers, floats are signed multiples of 2^-1074 with infinities and NaN, a dict
-- with text keys is a list of entries in insertion order, and an exception that leaves a
-- function is `none`, a Boolean or a constructor, as its comment says.
--
-- Prelude holds the shared names: lists, text, dicts, floats and their printing, UTF-8.
--
-- Smtp is spamallam/app/smtp/server.py: `xtext_decode` (_xtext_decode), `smtp_xforward` with the
-- dict that the session shares, and `handle_data`, which calls the pipeline and the relay.
--
-- Pipeline follows spamallam/app/pipeline. Headers.Message and Headers.Verdict are headers.py:
-- `split_message`, `strip_spam_headers`, `fold` (_fold), `canonical` (_canonical), `sign`,
-- `build_spamallam_headers`, `prepend_headers`. Failure is failure.py, Overrides is
-- overrides.py, Rspamd is rspamd_client.py, Body is the decision part of body.py, and Sanitize
-- is sanitize.py: the parser's callbacks (`handle_starttag`, `handle_endtag` and the others),
-- `sanitize_email_html`, `sanitize_email` and `preview_document`, over the events that
-- html.parser reports. Analyzer is analyzer.py: Scoring its first half (overrides, the AI
-- analysis and rspamd in either order), Verdict its second half (the drop decision, the failure
-- policy, the delivery) and `process`. Run is the state that a pipeline run writes: trace
-- events, the end of the trace, quarantine entries and review copies, and that stays when an
-- exception leaves.
--
-- Ai.Loop is the loop of requests and tool calls of spamallam/app/providers/base.py; Ai.Verdict
-- is `parse_verdict` of spamallam/app/ai/engine.py. Tools.Providers is
-- spamallam/app/tools/providers_db.py, and Tools.Blocking the guarded firewall tool of
-- spamallam/app/tools/unifi.py, which asks it. Tools.Web is spamallam/app/tools/webtools.py: the
-- address guard, `web_fetch` with its redirects, and the search backends, over the replies of
-- the HTTP client and of the resolver. Tools.Zones is the catalogue of
-- spamallam/app/tools/timezones.py.
--
-- Store.Quarantine is spamallam/app/store/quarantine.py over day directories of files whose
-- writes and deletions may fail; Store.Users is spamallam/app/store/users.py, accounts and
-- enrollment tokens; Store.Audit is spamallam/app/store/audit.py. Store.Config is
-- spamallam/app/store/settings.py: the tree that YAML loads, `deep_merge` under the defaults,
-- and the settings' get, set and update.
--
-- Admin.Sessions is spamallam/app/admin/security.py, whose guards read the accounts. The other
-- modules of Admin follow spamallam/app/admin/app.py: Admin.Requests its guards and text
-- helpers, Admin.Accounts the routes of users, passkeys, enrollment and sign-in with
-- spamallam/app/admin/webauthn_flow.py, Admin.Desk the quarantine page and the release and
-- deletion of an entry, Admin.Forms the settings forms, each as the values that it writes, and
-- their saving through Store.Config.
--
-- What the program calls and does not contain is an argument: the address, header and URL
-- parsers of the standard library, hashing, signing and encryption, clocks and random sources,
-- the HTTP exchanges, the AI engine under its timeout as the pipeline sees it, the MIME
-- rewriting, the resolver, whose answer may change from one lookup to the next, and the writes
-- of the stores and of the end of a trace, each of which may fail. Where a theorem relies on the
-- behaviour of one, as on decryption undoing encryption, that is among its hypotheses.
--
-- Loops are structural recursion on a list. The provider's loop runs on its own limit,
-- max_iterations, and ends in an error where the limit is reached, as the code does; a fetch of
-- a page runs on the number of redirects that max_redirects leaves, and the loops that cut text
-- on its length, since each round drops a character. str.upper and str.lower act on ASCII
-- letters, and int() of an xtext escape reads ASCII digits. Threads, locks and the concurrency
-- limit of the AI are not modelled: one message and one call run at a time. The audit log takes
-- every entry, and the connection of a fetch, which looks its host up again, is not followed;
-- nor is what a browser contacts without asking the route handler, the hops of its redirects and
-- its web sockets.
--
-- Not modelled: the MIME rewriting and review copies, the trace log, the wire formats of the
-- providers and the prompt, the network lookups and the caches, the push to the firewall, and
-- the start-up, which are exchanges with other systems and with files; of the admin application,
-- the rendering of pages, the list of models and the test of a provider, the notes of
-- recipients, the labels and the log pages; of time zones, the formatting of dates.
pub mod Prelude
pub mod Admin
pub mod Ai
pub mod Pipeline
pub mod Smtp
pub mod Store
pub mod Tools
