-- ===== src/Prelude/Text.antt =====
-- Rust's operations on `&str` and `String`, over the native texts. Case folding and white space
-- are those of ASCII.
pub mod Lines
use Prim.Native.Nat.{zero, suc, ◌/◌, ◌%◌, ℕ, ◌+◌, ◌-◌, ◌*◌}
use Prim.Native.Char.{Char, code}
use Prim.Native.String
use Prim.Native.String.{String}
use mathlib.Core.Path.{◌≡◌, refl, ap, ◌∙◌}
use mathlib.Core.Logic.{◌≢◌}
use mathlib.Core.Bool.{Bool, true, false, ◌&&◌, ◌||◌}
use mathlib.Core.Option
use mathlib.Core.Option.{Option, none, some}
use mathlib.Core.List.{List, [], ◌∷◌}
use text.Mathlib.Text
use keelos.Prelude.Tests.{ltb, leb, ◌==◌, if◌then◌else◌}

-- `a == b` on texts.
abbrev pub str_eq : String → String → Bool
str_eq = Text.◌==◌

abbrev pub is_empty : String → Bool
is_empty String.[] = true
is_empty (String.◌∷◌ c s) = false

pub is_empty-true : (s : String) → is_empty s ≡ true → s ≡ ""
is_empty-true String.[] h = refl
is_empty-true (String.◌∷◌ c s) h = cc

pub is_empty-false : (s : String) → s ≢ "" → is_empty s ≡ false
is_empty-false String.[] h = absurd (h refl)
is_empty-false (String.◌∷◌ c s) h = refl

pub ne-empty_of_false : (s : String) → is_empty s ≡ false → s ≢ ""
ne-empty_of_false s h e = cc

-- `format!`: the pieces in a row.
abbrev pub format : List String → String
format [] = ""
format (s ∷ rest) = String.◌++◌ s (format rest)

-- The clauses of the concatenation of texts, as equations.
pub nil-append : (t : String) → String.◌++◌ "" t ≡ t
nil-append t = String.append.nil t

pub cons-append :
    (c : Char) (s t : String) → String.◌++◌ (String.◌∷◌ c s) t ≡ String.◌∷◌ c (String.◌++◌ s t)
cons-append c s t = String.append.cons c s t

pub append-nil : (s : String) → String.◌++◌ s "" ≡ s
append-nil String.[] = nil-append ""
append-nil (String.◌∷◌ c s) = cons-append c s "" ∙ ap (String.◌∷◌ c) (append-nil s)

pub append_assoc :
    (s t u : String) → String.◌++◌ (String.◌++◌ s t) u ≡ String.◌++◌ s (String.◌++◌ t u)
append_assoc String.[] t u = rw (nil-append t, nil-append (String.◌++◌ t u)) refl
append_assoc (String.◌∷◌ c s) t u =
    rw (cons-append c s t, cons-append c (String.◌++◌ s t) u, cons-append c s (String.◌++◌ t u))
      (ap (String.◌∷◌ c) (append_assoc s t u))

-- `join(separator)`.
unfoldable pub join : String → List String → String
join sep [] = ""
join sep (s ∷ []) = s
join sep (s ∷ t ∷ rest) = format (s ∷ sep ∷ join sep (t ∷ rest) ∷ [])

-- One character and a text of one character.
abbrev pub cons : Char → String → String
cons = String.◌∷◌

-- `char::is_ascii_digit`, `char::is_whitespace` (ASCII).
abbrev pub is_digit : Char → Bool
is_digit c = leb b'0' (code c) && leb (code c) b'9'

abbrev pub is_space : Char → Bool
is_space c = code c == 32 || (leb 9 (code c) && leb (code c) 13)

-- `to_lowercase`, on ASCII letters.
lower : Char → Char
lower c =
    if leb b'A' (code c) && leb (code c) b'Z'
    then String.char_at "abcdefghijklmnopqrstuvwxyz" (code c - b'A')
    else c

unfoldable pub to_lowercase : String → String
unfolding lower
to_lowercase String.[] = ""
to_lowercase (String.◌∷◌ c s) = cons (lower c) (to_lowercase s)

-- `lines` of a text whose line ends are "\n".
drop_last_empty : List String → List String
drop_last_empty [] = []
drop_last_empty (s ∷ []) = if is_empty s then [] else s ∷ []
drop_last_empty (s ∷ t ∷ rest) = s ∷ drop_last_empty (t ∷ rest)

-- `strip_prefix` with the rest of the text, `starts_with`, `contains`.
abbrev pub strip_prefix : String → String → Option String
strip_prefix s String.[] = some s
strip_prefix String.[] (String.◌∷◌ d p) = none
strip_prefix (String.◌∷◌ c s) (String.◌∷◌ d p) =
    let rest = strip_prefix s p in if code c == code d then rest else none

abbrev pub has_prefix : String → String → Bool
has_prefix s p = elim (strip_prefix s p) [ none ↦ false | some _ ↦ true ]

unfoldable pub contains : String → String → Bool
contains String.[] p = has_prefix String.[] p
contains (String.◌∷◌ c s) p = has_prefix (cons c s) p || contains s p

-- `trim_start`, `trim_end`, `trim`.
pub trim_start : String → String
trim_start String.[] = ""
trim_start (String.◌∷◌ c s) = if is_space c then trim_start s else cons c s

pub trim_end : String → String
trim_end String.[] = ""
trim_end (String.◌∷◌ c s) =
    let rest = trim_end s in if is_space c && is_empty rest then "" else cons c rest

unfoldable pub trim : String → String
unfolding trim_start trim_end
trim s = trim_end (trim_start s)

-- `split_whitespace`: the word that is being read, and the words behind it.
words : String → String × List String
words String.[] = ("", [])
words (String.◌∷◌ c s) =
    let (w, ws) = words s in
    if is_space c then ("", if is_empty w then ws else w ∷ ws) else (cons c w, ws)

unfoldable pub split_whitespace : String → List String
unfolding words
split_whitespace s = let (w, ws) = words s in if is_empty w then ws else w ∷ ws

-- `split(c)`: always at least one piece.
pieces : ℕ → String → String × List String
pieces sep String.[] = ("", [])
pieces sep (String.◌∷◌ c s) =
    let (p, ps) = pieces sep s in if code c == sep then ("", p ∷ ps) else (cons c p, ps)

unfoldable pub split : ℕ → String → List String
unfolding pieces
split sep s = let (p, ps) = pieces sep s in p ∷ ps

unfoldable pub lines : String → List String
unfolding split drop_last_empty
lines s = drop_last_empty (split 10 s)

-- `take_while` from the front, and from the back (the longest end that passes the test).
unfoldable pub take_while : (Char → Bool) → String → String
take_while p String.[] = ""
take_while p (String.◌∷◌ c s) = if p c then cons c (take_while p s) else ""

unfoldable pub take_while_back : (Char → Bool) → String → String
take_while_back p String.[] = ""
take_while_back p (String.◌∷◌ c s) =
    let tail = take_while_back p s in if str_eq tail s && p c then cons c s else tail

-- `&s[..n]` at a text of ASCII: `none` is the panic past its end.
unfoldable pub take_prefix : ℕ → String → Option String
take_prefix zero s = some ""
take_prefix (suc n) String.[] = none
take_prefix (suc n) (String.◌∷◌ c s) = Option.map (cons c) (take_prefix n s)

-- `trim_end_matches(':')`.
unfoldable pub trim_colons : String → String
trim_colons String.[] = ""
trim_colons (String.◌∷◌ c s) =
    let rest = trim_colons s in if code c == b':' && is_empty rest then "" else cons c rest

-- `split_once(c)` at a one-character separator.
unfoldable pub split_once : ℕ → String → Option (String × String)
split_once sep String.[] = none
split_once sep (String.◌∷◌ c s) =
    let rest = split_once sep s in
    if code c == sep
    then some ("", s)
    else elim rest [ none ↦ none | some (before, behind) ↦ some (cons c before, behind) ]

-- `split_once(separator)` at a text that is not empty.
unfoldable pub split_once_text : String → String → Option (String × String)
split_once_text sep String.[] = none
split_once_text sep (String.◌∷◌ c s) =
    let rest = split_once_text sep s in
    elim (strip_prefix (cons c s) sep) [
      | some behind ↦ some ("", behind)
      | none ↦ elim rest [ none ↦ none | some (before, behind) ↦ some (cons c before, behind) ]
    ]

lower_test : to_lowercase "PARTUUID=AbZ9" ≡ "partuuid=abz9"
unfolding to_lowercase
lower_test = refl

lines_test : lines "a\nb\n" ≡ "a" ∷ "b" ∷ []
unfolding lines
lines_test = refl

back_test : take_while_back is_digit "nvme0n1p13" ≡ "13"
unfolding take_while_back
back_test = refl

words_test : split_whitespace "  root=/dev/sda2 quiet " ≡ "root=/dev/sda2" ∷ "quiet" ∷ []
unfolding split_whitespace
words_test = refl

split_test : split b'.' "a.b." ≡ "a" ∷ "b" ∷ "" ∷ []
unfolding split
split_test = refl

trim_test : trim " a b\n" ≡ "a b"
unfolding trim
trim_test = refl
