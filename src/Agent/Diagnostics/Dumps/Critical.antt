-- ===== src/Agent/Diagnostics/Dumps/Critical.antt =====
-- The analysis of a dump that has just been collected: cmd/keel-agent/src/diagnostics.rs,
-- `collect_crash_dump` and `analyze_crash_dump`.
use Prim.Native.String
use keelos.Prelude.{
  ◌≡◌, refl, sym, ap, ◌∙◌, ℕ, String, Bool, true, none, some, ok, [], ◌∷◌, List, lines, In, format,
  append_assoc, eq_refl,
}
use mathlib.Core.Path.{subst}
use keelos.Prelude.Dict.{Dict, get, get-put}
use keelos.Prelude.Text.Lines.{In-lines_left, In-lines_right}
use keelos.Agent.Diagnostics.Crash.{CrashFinding, analyze_crash_dump}
use keelos.Agent.Diagnostics.Crash.Laws.{IsCritical, analyze-IsCritical}
use keelos.Agent.Diagnostics.Dumps.{
  Sources, dump_content, dump_path, userspace_section, byte_len, collect_crash_dump_to,
}
use keelos.Agent.Diagnostics.Dumps.Laws.{collect-lem}

abbrev before : Sources → String
before env =
    format
      ("=== KeelOS Crash Dump - " ∷ env.now ∷ " ===\n\n" ∷ "--- Kernel Messages (dmesg) ---" ∷ [])

dump_content-kernel :
    (include_userspace : Bool) (env : Sources) (messages : String)
    → env.dmesg ≡ ok messages
    → dump_content true include_userspace env
      ≡ String.◌++◌ (before env) (
          String.◌++◌ "\n" (
            String.◌++◌ messages
              (String.◌++◌ "\n" (String.◌++◌ (userspace_section include_userspace env) ""))))
unfolding dump_content
dump_content-kernel include_userspace env messages h =
    let rest = String.◌++◌ (userspace_section include_userspace env) "" in
    let z = String.◌++◌ messages (String.◌++◌ "\n" rest) in
    let title : String = "--- Kernel Messages (dmesg) ---\n" in
    let gap : String = " ===\n\n" in
    let head : String = " ===\n\n--- Kernel Messages (dmesg) ---" in
    let section : String.◌++◌ (String.◌++◌ title (String.◌++◌ messages "\n")) rest
        ≡ String.◌++◌ title z =
      append_assoc title (String.◌++◌ messages "\n") rest
      ∙ ap (String.◌++◌ title) (append_assoc messages "\n" rest) in
    let joined : String.◌++◌ gap (String.◌++◌ title z) ≡ String.◌++◌ head (String.◌++◌ "\n" z) =
      sym (append_assoc gap title z) ∙ append_assoc head "\n" z in
    let whole = String.◌++◌ "\n" z in
    rw h (
      ap (λ (s : String). String.◌++◌ "=== KeelOS Crash Dump - " (String.◌++◌ env.now s))
        (ap (String.◌++◌ gap) section ∙ joined)
      ∙ sym (
          append_assoc "=== KeelOS Crash Dump - " (String.◌++◌ env.now head) whole
          ∙ ap (String.◌++◌ "=== KeelOS Crash Dump - ") (append_assoc env.now head whole)))

-- A dump that is collected with the kernel's messages, where no fault is met, and analysed at once
-- is called critical if a line of the messages tells, in lower case, of a lack of memory or of a
-- kernel panic, whatever else the dump holds.
pub dump-critical :
    (dump_dir : String) (include_userspace : Bool) (env : Sources) (files : Dict String)
    (messages line : String)
    → env.dmesg ≡ ok messages
    → env.dir_fault ≡ none
    → env.write_fault ≡ none
    → In line (lines messages)
    → IsCritical line
    → let (after, reply) = collect_crash_dump_to dump_dir true include_userspace env files in
      (path content summary : String) × (size : ℕ) × (fs : List CrashFinding) × (reply
        ≡ ok (path, size))
      × (get path after ≡ some content)
      × (analyze_crash_dump path (ok content) ≡ ok ("critical", fs, summary))
dump-critical dump_dir include_userspace env files messages line m d w l c =
    let path = dump_path dump_dir env in
    let content = dump_content true include_userspace env in
    let rest = String.◌++◌ (userspace_section include_userspace env) "" in
    let there =
      subst (λ s. In line (lines s)) (sym (dump_content-kernel include_userspace env messages m))
        (In-lines_right line (before env) (String.◌++◌ messages (String.◌++◌ "\n" rest))
          (In-lines_left line messages rest l)) in
    let (severity, summary, fs, analysed, (said, says)) = analyze-IsCritical path content in
    let done = collect-lem dump_dir true include_userspace env files d w in
    rw done (
      path,
      content,
      summary,
      byte_len content,
      fs,
      refl,
      get-put path path content files ∙ rw (eq_refl path) refl,
      analysed ∙ ap (λ (s : String). ok (s, fs, summary)) (says (line, there, c)),
    )
