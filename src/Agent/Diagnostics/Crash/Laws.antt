-- ===== src/Agent/Diagnostics/Crash/Laws.antt =====
-- How severe a crash dump is said to be.
use keelos.Prelude.{
  ap, sym, str_eq, ◌≡◌, ◌↔◌, ◌⊎◌, inl, inr, refl, arith, any, if◌then◌else◌, String, to_lowercase,
  lines, Bool, true, false, List, [], ◌∷◌, ok, In,
}
use mathlib.Core.Path.{subst}
use keelos.Agent.Diagnostics.Crash.{
  CrashFinding, mentions, oom_words, panic_words, finding_of, push, findings_of, has_severity,
  if_none, overall_severity, summary_of, analyze_crash_dump,
}

-- A line that tells of a lack of memory or of a kernel panic.
abbrev pub IsCritical : String → Type 0
IsCritical line =
    (mentions oom_words (to_lowercase line) ≡ true)
    ⊎ (mentions panic_words (to_lowercase line) ≡ true)

push-IsCritical :
    (line : String) (rest : List CrashFinding)
    → (any (has_severity "critical") (push (finding_of line) rest) ≡ true)
      ↔ (IsCritical line ⊎ (any (has_severity "critical") rest ≡ true))
unfolding finding_of
push-IsCritical line rest = (ground arith, ground arith)

any-IsCritical :
    (ls : List String)
    → (any (has_severity "critical") (findings_of ls) ≡ true)
      ↔ ((line : String) × In line ls × IsCritical line)
unfolding findings_of
any-IsCritical [] = ((λ h. absurd (ground arith)), (λ (x, m, c). absurd m))
any-IsCritical (l ∷ ls) =
    let (there, back) = push-IsCritical l (findings_of ls) in
    let (found, finds) = any-IsCritical ls in
    (
      (λ h. elim (there h) [
        | inl c ↦ (l, inl refl, c)
        | inr r ↦ (let (x, m, c) = found r in (x, inr m, c))
      ]),
      (λ (x, m, c). elim m [
        | inl e ↦ back (inl (subst IsCritical (sym e) c))
        | inr n ↦ back (inr (finds (x, n, c)))
      ]),
    )

is_critical : (s : String) → s ≡ "critical" → str_eq s "critical" ≡ true
is_critical s h = ap (λ (t : String). str_eq t "critical") h

chosen-critical :
    (a b c : Bool) (fs : List CrashFinding)
    → ((if a
          then "critical"
          else if b
          then "error"
          else if c
          then "warning"
          else if_none fs "clean" "info")
        ≡ "critical")
      ↔ (a ≡ true)
chosen-critical true b c fs = ((λ h. refl), (λ h. refl))
chosen-critical false true c fs = (is_critical _, (λ h. absurd (ground (arith, h))))
chosen-critical false false true fs = (is_critical _, (λ h. absurd (ground (arith, h))))
chosen-critical false false false [] = (is_critical _, (λ h. absurd (ground (arith, h))))
chosen-critical false false false (f ∷ fs) = (is_critical _, (λ h. absurd (ground (arith, h))))

severity-critical :
    (fs : List CrashFinding)
    → (overall_severity fs ≡ "critical") ↔ (any (has_severity "critical") fs ≡ true)
unfolding overall_severity
severity-critical fs =
    chosen-critical (any (has_severity "critical") fs) (any (has_severity "error") fs)
      (any (has_severity "warning") fs) fs

-- The analysis of a dump that can be read succeeds, and calls it critical exactly when a line of it,
-- in lower case, tells of a lack of memory or of a kernel panic, whatever the other lines tell.
pub analyze-IsCritical :
    (path content : String)
    → (severity summary : String) × (fs : List CrashFinding) × (analyze_crash_dump path (ok content)
        ≡ ok (severity, fs, summary))
      × ((severity ≡ "critical") ↔ ((line : String) × In line (lines content) × IsCritical line))
unfolding analyze_crash_dump
analyze-IsCritical path content =
    let fs = findings_of (lines content) in
    let (there, back) = severity-critical fs in
    let (found, finds) = any-IsCritical (lines content) in
    (overall_severity fs, summary_of fs, fs, refl, ((λ h. found (there h)), (λ h. back (finds h))))
