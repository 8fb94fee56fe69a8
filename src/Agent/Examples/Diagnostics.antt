-- ===== src/Agent/Examples/Diagnostics.antt =====
-- The theorems about diagnostics, at three requests, the second of which comes too early, and at a
-- dump.
use keelos.Prelude.{
  lines, to_lowercase, contains, join, show, trim, split, ℕ, ◌+◌, ◌*◌, ◌≡◌, refl, arith, String,
  List, [], ◌∷◌,
}
use keelos.Agent.Diagnostics.{DebugSession, clamp_duration, enable_debug_mode, new}
use keelos.Agent.Diagnostics.Laws.{Request, sessions, Separate, sessions-Separate}
use keelos.Agent.Diagnostics.Crash.{mentions, finding_of, findings_of, summary_of}

abbrev request : ℕ → ℕ → String → Request
request now duration_secs uuid = record {
  env = record { checked_at = now; started_at = now + 1; uuid = uuid };
  duration_secs = duration_secs;
  reason = "test";
}

abbrev requests : List Request
requests = request 0 0 "a" ∷ request 5 60 "b" ∷ request (900 * 1000000000 + 1) 7200 "c" ∷ []

abbrev expected : List (ℕ × DebugSession)
expected =
    (1, record { session_id = "a"; reason = "test"; expires_at = 1 + 900 * 1000000000 })
    ∷ (
      2 + 900 * 1000000000,
      record {
        session_id = "c";
        reason = "test";
        expires_at = 2 + 900 * 1000000000 + 3600 * 1000000000;
      },
    )
    ∷ []

started_sessions : sessions (λ t. "") requests new ≡ expected
unfolding sessions enable_debug_mode clamp_duration
started_sessions = refl

sessions-Separate_example : Separate 0 (sessions (λ t. "") requests new)
sessions-Separate_example =
    sessions-Separate (λ t. "") requests new (omega arith, (omega arith, (omega arith, tt)))

abbrev dump : String
dump = "Linux version 6.6\nsda: I/O error\nOut of Memory: reaper woke\ni/o error again\n"

dump_summary : summary_of (findings_of (lines dump)) ≡ "Found 3 issue(s): io_error, oom_kill"
unfolding summary_of findings_of finding_of mentions lines to_lowercase contains join show trim
    split
dump_summary = refl
