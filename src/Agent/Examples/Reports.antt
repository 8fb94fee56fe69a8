-- ===== src/Agent/Examples/Reports.antt =====
-- The theorems about dumps and the status of the debug mode at concrete inputs.
use keelos.Prelude.{
  ap, show, str_eq, if◌then◌else◌, ◌≡◌, refl, ◌+◌, ◌-◌, ◌/◌, ◌≤◌, ◌<◌, arith, ℕ, inl, inr, String,
  true, false, none, some, List, [], ok, err, In, lines, to_lowercase, contains,
}
use keelos.Prelude.Dict.{get}
use keelos.Agent.Diagnostics.{
  DiagnosticsManager, Env, new, clamp_duration, enable_debug_mode, expiry,
}
use keelos.Agent.Diagnostics.Rpc.{EnableDebugModeRequest, enable_debug_rpc, get_debug_status_rpc}
use keelos.Agent.Diagnostics.Rpc.Laws.{enable-status}
use keelos.Agent.Diagnostics.Crash.{CrashFinding, mentions, analyze_crash_dump}
use keelos.Agent.Diagnostics.Crash.Laws.{IsCritical}
use keelos.Agent.Diagnostics.Dumps.{Sources, collect_crash_dump_to}
use keelos.Agent.Diagnostics.Dumps.Laws.{ShowsWholeSeconds, dumps_of_one_second}
use keelos.Agent.Diagnostics.Dumps.Critical.{dump-critical}

abbrev messages : String
messages = "usb 1-1: new device\n2026-01-02 kern: Out of memory: Killed process 7\n"

abbrev sources : Sources
sources = record {
  dmesg = ok messages;
  ps = err "No such file or directory";
  meminfo = ok "MemTotal: 512 kB\n";
  hostname = ok "node-1\n";
  os_release = err "No such file or directory";
  node_config = none;
  named_at = 1767323045250000000;
  format_utc = λ f t. if str_eq f "%Y%m%d-%H%M%S" then show (t / 1000000000) else show t;
  now = "2026-01-02T03:04:05+00:00";
  uuid = "5eed";
  dir_fault = none;
  write_fault = none;
}

-- Half a second later.
abbrev later : Sources
later = record sources { named_at = 1767323045750000000; dmesg = err "Operation not permitted" }

whole_seconds : ShowsWholeSeconds sources.format_utc
whole_seconds t t' e = ap show e

dumps_of_one_second_example :
    let (once, first) = collect_crash_dump_to "/dumps" true false sources [] in
    let (twice, second) = collect_crash_dump_to "/dumps" true true later once in
    ((path : String) × (size size_too : ℕ) × (first ≡ ok (path, size))
      × (second ≡ ok (path, size_too)))
    × (twice ≡ (collect_crash_dump_to "/dumps" true true later []).0)
dumps_of_one_second_example =
    dumps_of_one_second "/dumps" true false true true sources later [] whole_seconds refl refl refl
      refl refl refl

abbrev killed : String
killed = "2026-01-02 kern: Out of memory: Killed process 7"

is_line : In killed (lines messages)
unfolding lines
is_line = inr (inl refl)

is_critical : IsCritical killed
unfolding mentions contains to_lowercase
is_critical = inl refl

dump-critical_example :
    let (after, reply) = collect_crash_dump_to "/dumps" true true sources [] in
    (path content summary : String) × (size : ℕ) × (fs : List CrashFinding) × (reply
      ≡ ok (path, size))
    × (get path after ≡ some content)
    × (analyze_crash_dump path (ok content) ≡ ok ("critical", fs, summary))
dump-critical_example =
    dump-critical "/dumps" true sources [] messages killed refl refl refl is_line is_critical

abbrev env : Env
env = record { checked_at = 5; started_at = 6; uuid = "5eed" }

abbrev manager : DiagnosticsManager
manager = record new {
  debug_session = some (record { session_id = "old"; reason = "earlier"; expires_at = 5 });
}

abbrev to_rfc3339 : ℕ → String
to_rfc3339 t = "1970-01-01T00:10:00+00:00"

abbrev req : EnableDebugModeRequest
req = record { duration_secs = 600; reason = "disk full" }

enabled : (enable_debug_rpc to_rfc3339 env req manager).0.success ≡ true
unfolding enable_debug_rpc enable_debug_mode
enabled = refl

before : 1000 < expiry env 600
unfolding clamp_duration
before = omega arith

until : 5000000000 ≤ expiry env 600
unfolding clamp_duration
until = omega arith

enable-status_example :
    let (reply, after) = enable_debug_rpc to_rfc3339 env req manager in
    let status = get_debug_status_rpc to_rfc3339 1000 5000000000 after in
    let gone = (5000000000 - env.started_at) / 1000000000 in
    (status.enabled ≡ true)
    × (status.session_id ≡ reply.session_id)
    × (status.expires_at ≡ reply.expires_at)
    × (status.reason ≡ req.reason)
    × (status.remaining_secs + gone ≤ clamp_duration 600)
    × (clamp_duration 600 ≤ status.remaining_secs + gone + 1)
enable-status_example =
    enable-status to_rfc3339 env req manager 1000 5000000000 enabled before (omega arith) until
