-- ===== src/Agent/Audit/Laws.antt =====
-- The file of the audit log as a list of entries, and what a failed write does to it.
use Prim.Native.String
use keelos.Prelude.{
  ◌≡◌, refl, sym, ap, ◌∙◌, arith, String, format, true, false, none, some, List, [], ◌∷◌, ◌++◌, All,
  inl, inr, Result, Result-cases, ok, err, nil-append, append-nil, append_assoc,
}
use keelos.Agent.Audit.{
  AuditEntry, AuditLog, Disk, Response, Call, append, open_file, record_entry, record_line,
  entry_of, call, serve,
}

-- The specification: a log is the list of the entries of all calls, in their order.
abbrev pub Spec : Type 0
Spec = List AuditEntry

unfoldable pub spec_call : Call → Spec → Spec × Result Response String
spec_call c entries = (entries ++ (entry_of c ∷ []), c.result)

unfoldable pub spec_serve : List Call → Spec → Spec × List (Result Response String)
unfolding spec_call
spec_serve [] entries = (entries, [])
spec_serve (c ∷ cs) entries =
    let (next, answer) = spec_call c entries in
    let (last, answers) = spec_serve cs next in (last, answer ∷ answers)

module _ (to_string : AuditEntry → Result String String) where
  -- One JSON line for each entry that has a JSON form.
  abbrev pub json_line : Result String String → String
  json_line (ok line) = format (line ∷ "\n" ∷ [])
  json_line (err _) = ""

  abbrev pub json_lines : Spec → String
  json_lines [] = ""
  json_lines (e ∷ es) = String.◌++◌ (json_line (to_string e)) (json_lines es)

  -- The file is open, and holds the text that was there before and the lines of the entries.
  abbrev pub Refines : String → AuditLog → Spec → Type 0
  Refines before log entries =
      (log.writer ≡ true) × (log.file ≡ some (String.◌++◌ before (json_lines entries)))

  json_lines-append :
      (es : Spec) (e : AuditEntry)
      → json_lines (es ++ (e ∷ [])) ≡ String.◌++◌ (json_lines es) (json_line (to_string e))
  json_lines-append [] e =
      append-nil (json_line (to_string e)) ∙ sym (nil-append (json_line (to_string e)))
  json_lines-append (d ∷ es) e =
      ap (String.◌++◌ (json_line (to_string d))) (json_lines-append es e)
      ∙ sym (append_assoc (json_line (to_string d)) (json_lines es) (json_line (to_string e)))

  record_line-file :
      (r : Result String String) (disk : Disk) (log : AuditLog) (text : String)
      → disk.write_fault ≡ none
      → log.writer ≡ true
      → log.file ≡ some text
      → ((record_line r disk log).writer ≡ true)
        × ((record_line r disk log).file ≡ some (String.◌++◌ text (json_line r)))
  record_line-file (ok line) disk log text f w t = ground (arith, f, w, t)
  record_line-file (err e) disk log text f w t = rw (append-nil text) (w, t)

  -- One call refines one step of the specification.
  call-Refines :
      (before : String) (c : Call) (log : AuditLog) (entries : Spec)
      → c.disk.write_fault ≡ none
      → Refines before log entries
      → Refines before (call to_string c log).0 (spec_call c entries).0
  unfolding call record_entry spec_call
  call-Refines before c log entries f (w, t) =
      let (open_still, text) =
        record_line-file (to_string (entry_of c)) c.disk log
          (String.◌++◌ before (json_lines entries)) f w t in
      (
        open_still,
        text
            ∙ ap some (
                append_assoc before (json_lines entries) (json_line (to_string (entry_of c)))
                ∙ ap (String.◌++◌ before) (sym (json_lines-append entries (entry_of c)))),
      )

  -- The audit log refines a list of entries: as long as no write fails, every request gets the answer
  -- of the inner service, and after any requests the file is open and holds what was there before
  -- and then, in order, a line for the entry of each request that has a JSON form.
  pub serve-Refines :
      (before : String) (cs : List Call) (log : AuditLog) (entries : Spec)
      → All (λ c. c.disk.write_fault ≡ none) cs
      → Refines before log entries
      → Refines before (serve to_string cs log).0 (spec_serve cs entries).0
        × ((serve to_string cs log).1 ≡ (spec_serve cs entries).1)
  unfolding serve spec_serve
  serve-Refines before [] log entries f r = (r, refl)
  serve-Refines before (c ∷ cs) log entries (f, fs) r =
      let (step, same) =
        serve-Refines before cs (call to_string c log).0 (spec_call c entries).0 fs
          (call-Refines before c log entries f r) in
      (step, ap (◌∷◌ c.result) same)

  record-closed :
      (disk : Disk) (e : AuditEntry) (log : AuditLog)
      → log.writer ≡ false
      → record_entry to_string disk e log ≡ log
  unfolding record_entry
  record-closed disk e log w = elim (Result-cases (to_string e)) [
    | inl (line, q) ↦ rw (q, w) refl
    | inr (x, q) ↦ rw q refl
  ]

  serve-closed :
      (cs : List Call) (log : AuditLog) → log.writer ≡ false → (serve to_string cs log).0 ≡ log
  unfolding serve call
  serve-closed [] log w = refl
  serve-closed (c ∷ cs) log w = rw (record-closed c.disk (entry_of c) log w) (serve-closed cs log w)

  -- When a write fails and the file cannot be opened again at once, the log is lost for good: no
  -- request after that adds anything to the file, whatever the disk does, and the file ends with the
  -- part of the line that was written.
  pub serve-lost :
      (c : Call) (cs : List Call) (log : AuditLog) (line part : String)
      → to_string (entry_of c) ≡ ok line
      → log.writer ≡ true
      → c.disk.write_fault ≡ some part
      → c.disk.open_fault ≡ true
      → (serve to_string (c ∷ cs) log).0.file ≡ append part log.file
  unfolding serve call record_entry open_file
  serve-lost c cs log line part j w f o =
      let torn : record_entry to_string c.disk (entry_of c) log
          ≡ record { writer = false; file = append part log.file } =
        ground (arith, j, w, f, o) in
      rw torn (ap (λ (l : AuditLog). l.file) (serve-closed cs _ refl))
