-- ===== src/Agent/Logs.antt =====
-- cmd/keel-agent/src/lib.rs: `stream_logs` behind its authorisation, and `parse_log_line`. What
-- dmesg prints and the clock are what a call is given.
pub mod Laws
use keelos.Prelude.{
  ℕ, ◌-◌, ◌==◌, ltb, if◌then◌else◌, ◌||◌, ◌&&◌, not, String, str_eq, is_empty, format, lines,
  split_once, split_once_text, Bool, Option, none, some, List, [], ◌∷◌, length, drop, Result, ok,
  err,
}
use keelos.Agent.Status.{Status, internal}

pub record LogEntry : Type 0 where
  pub timestamp : String
  pub level : String
  pub component : String
  pub message : String

pub record StreamLogsRequest : Type 0 where
  pub level : String
  pub component : String
  pub tail_lines : ℕ  -- u32

-- The `match` on the part of `facility.level` behind the dot.
unfoldable pub level_of : String → String
level_of lvl =
    if str_eq lvl "emerg" || str_eq lvl "alert" || str_eq lvl "crit" || str_eq lvl "err"
    then "error"
    else if str_eq lvl "warn" || str_eq lvl "warning"
    then "warn"
    else if str_eq lvl "notice" || str_eq lvl "info"
    then "info"
    else if str_eq lvl "debug"
    then "debug"
    else "info"

abbrev pub facility_level : Option (String × String) → String
facility_level none = "info"
facility_level (some (facility, lvl)) = level_of lvl

-- Timestamp, level and message of a line, from the outer `split_once` inwards.
abbrev pub behind_timestamp : String → String → Option (String × String) → String × String × String
behind_timestamp ts rest none = (ts, "info", rest)
behind_timestamp ts rest (some (prefix, msg)) = (ts, facility_level (split_once b'.' prefix), msg)

abbrev pub parts_of : String → String → Option (String × String) → String × String × String
parts_of now line none = (now, "info", line)
parts_of now line (some (ts, rest)) = behind_timestamp ts rest (split_once_text ": " rest)

-- Whether a filter is given and differs from the value.
abbrev pub rejects : String → String → Bool
rejects filter value = not (is_empty filter) && not (str_eq value filter)

abbrev pub filtered : String → String → String × String × String → Option LogEntry
filtered level_filter component_filter (timestamp, level, message) =
    if rejects level_filter level
    then none
    else if rejects component_filter "kernel"
    then none
    else some
        (record { timestamp = timestamp; level = level; component = "kernel"; message = message })

-- `now` is the timestamp of a line that has no space.
unfoldable pub parse_log_line : String → String → String → String → Option LogEntry
unfolding split_once split_once_text level_of
parse_log_line now line level_filter component_filter =
    filtered level_filter component_filter (parts_of now line (split_once b' ' line))

abbrev pub tail_of : StreamLogsRequest → ℕ
tail_of req = if req.tail_lines == 0 then 50 else req.tail_lines

unfoldable pub last_lines : ℕ → List String → List String
last_lines n all = drop (if ltb n (length all) then length all - n else 0) all

abbrev pub push : Option LogEntry → List LogEntry → List LogEntry
push none rest = rest
push (some e) rest = e ∷ rest

-- The entries that the stream yields.
unfoldable pub entries_of : String → StreamLogsRequest → List String → List LogEntry
unfolding parse_log_line
entries_of now req [] = []
entries_of now req (line ∷ rest) =
    push (parse_log_line now line req.level req.component) (entries_of now req rest)

unfoldable pub stream_logs :
    String → StreamLogsRequest → Result String String → Result (List LogEntry) Status
unfolding lines last_lines entries_of
stream_logs now req (ok output) = ok (entries_of now req (last_lines (tail_of req) (lines output)))
stream_logs now req (err e) =
    err (record { code = internal; message = format ("Failed to read dmesg: " ∷ e ∷ []) })
