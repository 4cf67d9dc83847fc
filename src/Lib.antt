-- ===== src/Lib.antt =====
-- elepha keeps the conversations of coding assistants in an encrypted database and serves them to later
-- ones. This library models the parts of it that decide: what text may be stored, which sessions are
-- removed when the live memory is full and when that is warned of, how an interrupted onboarding is
-- resolved, where a session is cut into segments, how the turns of a session are rolled up into one record,
-- and three parts of the daemon. The program is TypeScript; the numbers it uses here are counts and
-- times below 2^53, so that they are natural numbers.
--
-- - Common: names of the libraries, tests on numbers, lists under the native numbers, texts as code units.
-- - Sanitize: src/security/sanitize.ts. A JavaScript string is the list of its UTF-16 code units, the
--   regular expressions are matchers by clauses. detectShellSyntax is `detect_shell_syntax`,
--   escapeShellSyntax `escape_shell_syntax`, stripShellSyntax `strip_shell_syntax`, assertNoShellSyntax
--   `assert_no_shell_syntax`. stripShellSyntax runs at most eight passes, as `max_passes` says.
-- - Retention: src/storage/live-memory-retention.ts. What the policy reads and writes of the database is the
--   record `Database`; LiveMemoryRetention.run is `run`, and its private methods have functions of their own
--   names. A transaction is `Tx`, which keeps the database or drops it. The write of a capture and the backup
--   are parameters, a field of `Policy` or an argument, and the JSON texts that are compared are compared
--   field by field. SQL that groups rows by native session is not modelled: a `NativeSession` is what it
--   gives, and what it gives for a session of which some segments are deleted is a parameter, `remainder`.
-- - Warning: src/storage/live-memory-warning.ts. takeChatOpeningLiveMemoryWarning is
--   `take_chat_opening_warning`, which takes the row of the schedule and gives it back.
-- - Init: src/cli/init-apply.ts with src/config/init-apply-journal.ts. recoverInterruptedInitApply is
--   `recover`, applyInitPlan the stages that `applied` has. The configuration and the consent rows are
--   functions of their keys; ConsentStore.setState is `set_state`. A new identifier is a parameter.
-- - Consent: src/storage/consent-store.ts, the decision that holds for a path.
--   explicitConsentDecisionForCanonicalPath is `explicit_consent_decision`, prefersConsentRow is
--   `prefers_consent_row`. A path is the list of its units.
-- - Segmentation: src/storage/segmentation.ts. A gap is in milliseconds, where the source has hours.
-- - Daemon: src/daemon/failure-window.ts, src/daemon/work-queue.ts and src/daemon/readability-guard.ts, one
--   module each. A file that the guard looks at is the list of what its reads return.
-- - Rollup: src/summarizer/rollup-prompt.ts (Prompt: renderTurn, shrinkOversizedTurn, chunkTurns;
--   Carry: renderPreviousRollup), src/summarizer/rollup-provider.ts with src/summarizer/anthropic-call.ts (Reply, Candidates,
--   Attribution: coerceDecision, parseRollup, call, attributeDecisions), src/storage/rollup-store.ts
--   (Decisions: unionDecisions, mergeRollupContent; Rows, Store: `write`, `mark_live`; Listing: listSessions) and
--   src/daemon/rollup-service.ts (Pass, Batch, Service: rollupSession is `rollup_session`). The case of letters and
--   the form of paths are those of a `Runtime`; the replies of the model, what other writers do during
--   an await and whether the read is still current are `PassSurroundings`. The table of rollups is a
--   list of rows; `write` is the transaction that Retention runs, and its deferral is not followed.
--
-- A capture writes text that Sanitize has cleaned, under Retention; Segmentation says to which segment it
-- belongs; the daemon's queue runs the jobs, its window watches their failures and its guard the files they
-- read. A rollup keys its decisions by text that Sanitize has escaped, and stores it so; its turns are rows that
-- captures wrote. Warning looks at the ledger of Retention, and Init writes the consent that Consent decides by and
-- Retention reads; these parts share data types, and no functions.
--
-- Every recursion is structural, on a list or a text, but for the passes of stripShellSyntax, which the
-- source bounds itself, the loops that shrink a turn and a carried rollup, which have the number of their items
-- as fuel and drop one in each round, and the digits of a number, with more fuel than the number.
--
-- Not modelled: SQL, files, processes, timers and network calls; the terminal dialogues; the parsers of
-- other programs' transcripts; the stores, adapters and services of the daemon not named above, most of
-- which are SQL statements or read files of other programs. In a pass over the turns of a session, the
-- exception by which retention defers a write is left out, and other writers act during the awaits only.
pub mod Common
pub mod Sanitize
pub mod Retention
pub mod Warning
pub mod Init
pub mod Consent
pub mod Segmentation
pub mod Daemon
pub mod Rollup
