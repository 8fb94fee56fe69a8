-- ===== src/Agent/Logs/Laws.antt =====
-- Which entries `stream_logs` sends.
use keelos.Prelude.{
  Bool, true, false, is_empty-true, sym, zero, suc, ltb→lt, split_once, split_once_text, ℕ, ◌-◌,
  ◌+◌, ◌≤◌, min, ltb, ◌≡◌, ap, ◌⊎◌, inl, inr, refl, arith, ◌∙◌, Bool-cases, if◌then◌else◌, String,
  eq_iff, is_empty, lines, Option, none, some, List, [], ◌∷◌, length, drop, All, ok,
}
use mathlib.Core.Path.{subst}
use keelos.Agent.Logs.{
  facility_level, behind_timestamp, LogEntry, StreamLogsRequest, level_of, parts_of, filtered,
  rejects, parse_log_line, tail_of, last_lines, push, entries_of, stream_logs,
}

-- One of the four levels of the API.
abbrev pub IsLevel : String → Type 0
IsLevel s = (s ≡ "error") ⊎ (s ≡ "warn") ⊎ (s ≡ "info") ⊎ (s ≡ "debug")

-- An entry that the filters of a request let through.
pub record Passes (req : StreamLogsRequest) (e : LogEntry) : Type 0 where
  pub known : IsLevel e.level
  pub level : (req.level ≡ "") ⊎ (e.level ≡ req.level)
  pub component : e.component ≡ "kernel"
  pub asked : (req.component ≡ "") ⊎ (req.component ≡ "kernel")

if-IsLevel : (b : Bool) (x y : String) → IsLevel x → IsLevel y → IsLevel (if b then x else y)
if-IsLevel true x y p q = p
if-IsLevel false x y p q = q

level_of-IsLevel : (lvl : String) → IsLevel (level_of lvl)
unfolding level_of
level_of-IsLevel lvl = if-IsLevel _ "error" _ (inl refl) (
    if-IsLevel _ "warn" _ (inr (inl refl)) (
      if-IsLevel _ "info" _ (inr (inr (inl refl)))
        (if-IsLevel _ "debug" "info" (inr (inr (inr refl))) (inr (inr (inl refl))))))

facility-IsLevel : (o : Option (String × String)) → IsLevel (facility_level o)
facility-IsLevel none = inr (inr (inl refl))
facility-IsLevel (some (facility, lvl)) = level_of-IsLevel lvl

behind-IsLevel :
    (ts rest : String) (o : Option (String × String)) → IsLevel (behind_timestamp ts rest o).1
behind-IsLevel ts rest none = inr (inr (inl refl))
behind-IsLevel ts rest (some (prefix, msg)) = facility-IsLevel (split_once b'.' prefix)

parts-IsLevel : (now line : String) (o : Option (String × String)) → IsLevel (parts_of now line o).1
parts-IsLevel now line none = inr (inr (inl refl))
parts-IsLevel now line (some (ts, rest)) = behind-IsLevel ts rest (split_once_text ": " rest)

-- A filter that lets a value through is empty or equal to it.
rejects-eq :
    (filter value : String) → rejects filter value ≡ false → (filter ≡ "") ⊎ (value ≡ filter)
rejects-eq filter value h = elim (Bool-cases (is_empty filter)) [
  | inl e ↦ inl (is_empty-true filter e)
  | inr e ↦ inr (ground (arith, e, eq_iff value filter, h))
]

-- The same, the other way round.
kernel-asked :
    (filter : String) → rejects filter "kernel" ≡ false → (filter ≡ "") ⊎ (filter ≡ "kernel")
kernel-asked filter h = elim (rejects-eq filter "kernel" h) [ inl e ↦ inl e | inr e ↦ inr (sym e) ]

filtered-Passes :
    (req : StreamLogsRequest) (parts : String × String × String) (e : LogEntry)
    → IsLevel parts.1
    → filtered req.level req.component parts ≡ some e
    → Passes req e
filtered-Passes req (ts, lvl, msg) e k h = elim (Bool-cases (rejects req.level lvl)) [
  | inl r ↦ absurd (ground (arith, r, h))
  | inr r ↦ elim (Bool-cases (rejects req.component "kernel")) [
    | inl q ↦ absurd (ground (arith, r, q, h))
    | inr q ↦
        let entry : LogEntry = record {
          timestamp = ts;
          level = lvl;
          component = "kernel";
          message = msg;
        } in
        let here : entry ≡ e = ground (arith, r, q, h) in
        subst (Passes req) here (record {
          known = k;
          level = rejects-eq req.level lvl r;
          component = refl;
          asked = kernel-asked req.component q;
        })
  ]
]

push-Passes :
    (req : StreamLogsRequest) (o : Option LogEntry) (rest : List LogEntry)
    → ((e : LogEntry) → o ≡ some e → Passes req e)
    → All (Passes req) rest
    → All (Passes req) (push o rest)
push-Passes req none rest h hs = hs
push-Passes req (some e) rest h hs = (h e refl, hs)

length-push : (o : Option LogEntry) (rest : List LogEntry) → length (push o rest) ≤ length rest + 1
length-push none rest = omega arith
length-push (some e) rest = omega arith

entries-Passes :
    (now : String) (req : StreamLogsRequest) (ls : List String)
    → All (Passes req) (entries_of now req ls)
unfolding entries_of parse_log_line
entries-Passes now req [] = tt
entries-Passes now req (l ∷ ls) =
    push-Passes req (parse_log_line now l req.level req.component) (entries_of now req ls)
      (λ e h.
        filtered-Passes req (parts_of now l (split_once b' ' l)) e
          (parts-IsLevel now l (split_once b' ' l)) h)
      (entries-Passes now req ls)

length-entries :
    (now : String) (req : StreamLogsRequest) (ls : List String)
    → length (entries_of now req ls) ≤ length ls
unfolding entries_of
length-entries now req [] = omega arith
length-entries now req (l ∷ ls) = omega (
  arith,
  length-push (parse_log_line now l req.level req.component) (entries_of now req ls),
  length-entries now req ls,
)

length-unfiltered :
    (now : String) (req : StreamLogsRequest) (ls : List String)
    → req.level ≡ ""
    → req.component ≡ ""
    → length (entries_of now req ls) ≡ length ls
unfolding entries_of parse_log_line
length-unfiltered now req [] p q = refl
length-unfiltered now req (l ∷ ls) p q =
    ground (arith, ap is_empty p, ap is_empty q, length-unfiltered now req ls p q)

length-drop : (n : ℕ) (xs : List String) → n ≤ length xs → length (drop n xs) + n ≡ length xs
length-drop zero xs h = omega arith
length-drop (suc n) [] h = absurd (omega arith)
length-drop (suc n) (x ∷ xs) h = omega (arith, length-drop n xs (omega arith))

length-last_lines : (n : ℕ) (xs : List String) → length (last_lines n xs) ≡ min n (length xs)
unfolding last_lines
length-last_lines n xs = elim (Bool-cases (ltb n (length xs))) [
  | inl e ↦
      rw e (omega (arith, ltb→lt n (length xs) e, length-drop (length xs - n) xs (omega arith)))
  | inr e ↦ rw e (ground (arith, e))
]

-- When dmesg can be run, the stream is of entries that the filters let through only, each of one of
-- the four levels and of the component kernel; it is empty when another component is asked for, and
-- has at most `tail_lines` entries, or 50 where that is zero.
pub stream_logs-Passes :
    (now output : String) (req : StreamLogsRequest)
    → (es : List LogEntry) × (stream_logs now req (ok output) ≡ ok es)
      × All (Passes req) es
      × (length es ≤ min (tail_of req) (length (lines output)))
unfolding stream_logs
stream_logs-Passes now output req =
    let n = tail_of req in
    let ls = last_lines n (lines output) in
    (
      entries_of now req ls,
      refl,
      entries-Passes now req ls,
      omega (arith, length-entries now req ls, length-last_lines n (lines output)),
    )

-- Without filters, one entry for each of the last lines that were asked for.
pub stream_logs-unfiltered :
    (now output : String) (req : StreamLogsRequest)
    → req.level ≡ ""
    → req.component ≡ ""
    → (es : List LogEntry) × (stream_logs now req (ok output) ≡ ok es)
      × (length es ≡ min (tail_of req) (length (lines output)))
unfolding stream_logs
stream_logs-unfiltered now output req p q =
    let ls = last_lines (tail_of req) (lines output) in
    (
      entries_of now req ls,
      refl,
      length-unfiltered now req ls p q ∙ length-last_lines (tail_of req) (lines output),
    )
