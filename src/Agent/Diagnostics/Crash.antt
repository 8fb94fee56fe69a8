-- ===== src/Agent/Diagnostics/Crash.antt =====
-- cmd/keel-agent/src/diagnostics.rs: `analyze_crash_dump`.
pub mod Laws
use Prim.Native.Nat.{Ordering}
use Prim.Native.String
use keelos.Prelude.{
  ℕ, zero, suc, if◌then◌else◌, any, ◌||◌, String, str_eq, format, join, show, to_lowercase,
  contains, trim, lines, Bool, Option, none, some, List, [], ◌∷◌, map, Result, ok, err,
}
use keelos.Agent.Io.{Io, IoError}

pub record CrashFinding : Type 0 where
  pub severity : String
  pub finding_type : String
  pub message : String

-- Whether the text contains one of the words.
unfoldable pub mentions : List String → String → Bool
mentions words lower = any (contains lower) words

abbrev pub oom_words : List String
oom_words = "out of memory" ∷ "oom_kill" ∷ "killed process" ∷ []

abbrev pub panic_words : List String
panic_words = "kernel panic" ∷ "bug:" ∷ "oops:" ∷ []

abbrev pub segfault_words : List String
segfault_words = "segfault" ∷ "general protection fault" ∷ []

abbrev pub io_words : List String
io_words = "i/o error" ∷ "ext4-fs error" ∷ "buffer i/o error" ∷ []

abbrev pub trace_words : List String
trace_words = "call trace:" ∷ "rip:" ∷ []

abbrev finding : String → String → String → Option CrashFinding
finding severity finding_type line =
    some (record { severity = severity; finding_type = finding_type; message = trim line })

-- What one line of the dump adds to the findings.
unfoldable pub finding_of : String → Option CrashFinding
finding_of line =
    let lower = to_lowercase line in
    if mentions oom_words lower
    then finding "critical" "oom_kill" line
    else if mentions panic_words lower
    then finding "critical" "kernel_panic" line
    else if mentions segfault_words lower
    then finding "error" "segfault" line
    else if mentions io_words lower
    then finding "error" "io_error" line
    else if mentions trace_words lower
    then finding "warning" "stack_trace" line
    else none

abbrev pub push : Option CrashFinding → List CrashFinding → List CrashFinding
push none rest = rest
push (some f) rest = f ∷ rest

unfoldable pub findings_of : List String → List CrashFinding
findings_of [] = []
findings_of (line ∷ rest) = push (finding_of line) (findings_of rest)

abbrev pub has_severity : String → CrashFinding → Bool
has_severity severity f = str_eq f.severity severity

abbrev pub if_none : List CrashFinding → String → String → String
if_none [] empty full = empty
if_none (f ∷ rest) empty full = full

unfoldable pub overall_severity : List CrashFinding → String
overall_severity findings =
    if any (has_severity "critical") findings
    then "critical"
    else if any (has_severity "error") findings
    then "error"
    else if any (has_severity "warning") findings
    then "warning"
    else if_none findings "clean" "info"

-- A `BTreeSet` of texts, as the list in its order.
abbrev insert : String → List String → List String
insert x [] = x ∷ []
insert x (y ∷ ys) =
    let rest = insert x ys in
    elim (String.compare x y) [
      | Ordering.lt ↦ x ∷ y ∷ ys
      | Ordering.eq ↦ y ∷ ys
      | Ordering.gt ↦ y ∷ rest
    ]

abbrev set_of : List String → List String
set_of [] = []
set_of (x ∷ xs) = insert x (set_of xs)

abbrev count : List CrashFinding → ℕ
count [] = zero
count (f ∷ rest) = suc (count rest)

unfoldable pub summary_of : List CrashFinding → String
summary_of findings = if_none findings "No significant issues found in crash dump." (
    format (
      "Found "
      ∷ show (count findings)
      ∷ " issue(s): "
      ∷ join ", " (set_of (map (λ f. f.finding_type) findings))
      ∷ []))

-- `analyze_crash_dump` of a path and of what reading it gives.
unfoldable pub analyze_crash_dump :
    String → Io String → Result (String × List CrashFinding × String) String
analyze_crash_dump dump_path (err e) =
    err (format ("Failed to read crash dump '" ∷ dump_path ∷ "': " ∷ e.message ∷ []))
analyze_crash_dump dump_path (ok content) =
    let findings = findings_of (lines content) in
    ok (overall_severity findings, findings, summary_of findings)
