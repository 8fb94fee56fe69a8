-- ===== src/Agent/Examples/RollbackCodec.antt =====
-- A text form of the rollback state that is read back as it was written, for every state.
use keelos.Prelude.{
  ℕ, zero, suc, ◌==◌, if◌then◌else◌, ◌≡◌, refl, ap, arith, Option, none, some, Result, ok, err,
}
use Prim.Native.Char.{code}
use Prim.Native.String.{String}
use keelos.Agent.Disk.Boot.{RollbackState, Codec}
use keelos.Agent.Disk.Boot.Laws.{IsFaithful, IsTotal}

-- A number as so many ones and a zero, before the rest of the text.
abbrev unary : ℕ → String → String
unary zero rest = String.◌∷◌ "0" rest
unary (suc n) rest = String.◌∷◌ "1" (unary n rest)

abbrev more : Option (ℕ × String) → Option (ℕ × String)
more none = none
more (some (n, rest)) = some (suc n, rest)

abbrev read_unary : String → Option (ℕ × String)
read_unary String.[] = none
read_unary (String.◌∷◌ c s) =
    let rest = read_unary s in if code c == b'0' then some (0, s) else more rest

read-unary : (n : ℕ) (rest : String) → read_unary (unary n rest) ≡ some (n, rest)
read-unary zero rest = refl
read-unary (suc n) rest = ap more (read-unary n rest)

abbrev time_text : Option String → String
time_text none = ""
time_text (some t) = String.◌∷◌ "t" t

abbrev read_time : String → Option String
read_time String.[] = none
read_time (String.◌∷◌ c t) = some t

read-time : (o : Option String) → read_time (time_text o) ≡ o
read-time none = refl
read-time (some t) = refl

abbrev number_of : Option ℕ → ℕ
number_of none = 0
number_of (some n) = suc n

abbrev option_of : ℕ → Option ℕ
option_of zero = none
option_of (suc n) = some n

option-number : (o : Option ℕ) → option_of (number_of o) ≡ o
option-number none = refl
option-number (some n) = refl

abbrev pub write_state : RollbackState → String
write_state r =
    unary (number_of r.previous_partition) (unary r.boot_counter (time_text r.last_update_time))

abbrev second : ℕ → Option (ℕ × String) → Result RollbackState String
second p none = err "end of text"
second p (some (n, rest)) = ok (record {
  previous_partition = option_of p;
  boot_counter = n;
  last_update_time = read_time rest;
})

abbrev first : Option (ℕ × String) → Result RollbackState String
first none = err "end of text"
first (some (p, rest)) = second p (read_unary rest)

abbrev pub codec : Codec
codec = record { to_string = λ r. ok (write_state r); from_str = λ s. first (read_unary s) }

read-write : (r : RollbackState) → first (read_unary (write_state r)) ≡ ok r
read-write r =
    let t = time_text r.last_update_time in
    ground (
      arith,
      read-unary (number_of r.previous_partition) (unary r.boot_counter t),
      read-unary r.boot_counter t,
      option-number r.previous_partition,
      read-time r.last_update_time,
    )

pub codec-IsFaithful : IsFaithful codec
codec-IsFaithful r s h = ground (arith, read-write r)

pub codec-IsTotal : IsTotal codec
codec-IsTotal r = (write_state r, refl)
