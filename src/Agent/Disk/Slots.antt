-- ===== src/Agent/Disk/Slots.antt =====
-- cmd/keel-agent/src/disk.rs: the slot that get_inactive_partition gives is not the active one.
use Prim.Native.Char.{Char}
use Prim.Native.String
use keelos.Prelude.{
  ℕ, ◌==◌, ◌≡◌, ◌≢◌, refl, sym, ap, ◌∙◌, arith, inl, inr, Bool-cases, Option-cases, Result-cases,
  String, show, str_eq, strip_prefix, has_prefix, split_whitespace, format, split, to_lowercase,
  lines, take_while, take_while_back, is_digit, parse_u32, cons-append, nil-append, true, false,
  not, ◌&&◌, Option, none, some, List, [], ◌∷◌, ok, err,
}
use keelos.Agent.Io.{Io}
use keelos.Agent.Disk.{
  System, PartitionInfo, slot_a_index, slot_a, last_piece, numbered, parse_device_path, linked,
  resolve_partuuid, root_partition, first_of_two, scan_cmdline, mounted_root, scan_mounts,
  from_mounts, or_slot_a, get_active_partition, other_index, inactive_of, get_inactive_partition,
}
use keelos.Agent.Disk.Boot.Switch.{other_index-other}

numbered-device :
    (d : String) (n : Option ℕ) (a : PartitionInfo) → numbered d n ≡ ok a → a.device ≡ d
unfolding numbered
numbered-device d (some n) a h = ground arith
numbered-device d none a h = absurd (ground arith)

-- A partition that a path was read as is read from its own path.
parse-again :
    (d : String) (a : PartitionInfo)
    → parse_device_path d ≡ ok a
    → parse_device_path a.device ≡ ok a
unfolding parse_device_path
parse-again d a h =
    let e = numbered-device d (parse_u32 (take_while_back is_digit d)) a h in
    ap parse_device_path e ∙ h

slot_a-parses : parse_device_path slot_a.device ≡ ok slot_a
unfolding parse_device_path show
slot_a-parses = refl

linked-parses :
    (r : Io String) (a : PartitionInfo) → linked r ≡ ok a → parse_device_path a.device ≡ ok a
unfolding linked parse_device_path show
linked-parses (ok target) a h =
    parse-again (format ("/dev/" ∷ last_piece (split b'/' target) ∷ [])) a h
linked-parses (err e) a h =
    let k : a.device ≡ slot_a.device = ground arith in ap parse_device_path k ∙ slot_a-parses ∙ h

abbrev Parses : Option (Io PartitionInfo) → Type 0
Parses o = (a : PartitionInfo) → o ≡ some (ok a) → parse_device_path a.device ≡ ok a

some-Parses : (d : String) → Parses (some (parse_device_path d))
some-Parses d a h = parse-again d a (ground arith)

first-Parses : (x y : Option (Io PartitionInfo)) → Parses x → Parses y → Parses (first_of_two x y)
first-Parses (some r) y p q = p
first-Parses none y p q = q

none-Parses : Parses none
none-Parses a h = absurd (ground arith)

root-Parses : (sys : System) (value : String) → Parses (root_partition sys value)
unfolding root_partition resolve_partuuid
root-Parses sys value = elim (Option-cases (strip_prefix value "PARTUUID=")) [
  | inl e ↦ elim (Bool-cases (has_prefix value "/dev/")) [
    | inl b ↦ rw (root_partition, e, b) (some-Parses value)
    | inr b ↦ rw (root_partition, e, b) none-Parses
  ]
  | inr (id, e) ↦
      rw (root_partition, e)
        (λ a h.
          linked-parses (sys.read_link (format ("/dev/disk/by-partuuid/" ∷ to_lowercase id ∷ []))) a
            (ground arith))
]

cmdline-Parses : (sys : System) (params : List String) → Parses (scan_cmdline sys params)
unfolding scan_cmdline
cmdline-Parses sys [] = none-Parses
cmdline-Parses sys (param ∷ rest) = elim (Option-cases (strip_prefix param "root=")) [
  | inl e ↦ rw (scan_cmdline, e) (cmdline-Parses sys rest)
  | inr (value, e) ↦
      rw (scan_cmdline, e)
        (first-Parses (root_partition sys value) (scan_cmdline sys rest) (root-Parses sys value)
          (cmdline-Parses sys rest))
]

mounted-Parses : (fields : List String) → Parses (mounted_root fields)
unfolding mounted_root
mounted-Parses [] = none-Parses
mounted-Parses (device ∷ []) = none-Parses
mounted-Parses (device ∷ dir ∷ rest) =
    elim (Bool-cases (str_eq dir "/" && has_prefix device "/dev/")) [
      | inl b ↦ rw (mounted_root, b) (some-Parses device)
      | inr b ↦ rw (mounted_root, b) none-Parses
    ]

mounts-Parses : (l : List String) → Parses (scan_mounts l)
unfolding scan_mounts
mounts-Parses [] = none-Parses
mounts-Parses (line ∷ rest) =
    first-Parses (mounted_root (split_whitespace line)) (scan_mounts rest)
      (mounted-Parses (split_whitespace line)) (mounts-Parses rest)

from_mounts-Parses : (r : Io String) → Parses (from_mounts r)
unfolding from_mounts
from_mounts-Parses (ok text) = mounts-Parses (lines text)
from_mounts-Parses (err e) = none-Parses

or_slot_a-Parses :
    (o : Option (Io PartitionInfo)) (a : PartitionInfo)
    → Parses o
    → or_slot_a o ≡ ok a
    → parse_device_path a.device ≡ ok a
or_slot_a-Parses (some r) a p h = p a (ap some h)
or_slot_a-Parses none a p h =
    let k : a.device ≡ slot_a.device = ground arith in ap parse_device_path k ∙ slot_a-parses ∙ h

-- The active partition is read again from its own path.
active-parses :
    (sys : System) (a : PartitionInfo)
    → get_active_partition sys ≡ ok a
    → parse_device_path a.device ≡ ok a
unfolding get_active_partition
active-parses sys a = elim (Result-cases sys.cmdline) [
  | inr (e, x) ↦ rw (get_active_partition, x) (λ h. absurd (ground arith))
  | inl (text, x) ↦
      rw (get_active_partition, x)
        (or_slot_a-Parses
          (first_of_two (scan_cmdline sys (split_whitespace text)) (from_mounts sys.mounts)) a
          (first-Parses (scan_cmdline sys (split_whitespace text)) (from_mounts sys.mounts)
            (cmdline-Parses sys (split_whitespace text)) (from_mounts-Parses sys.mounts)))
]

one_digit :
    (c : Char) → is_digit c ≡ true → take_while_back is_digit (String.◌∷◌ c "") ≡ String.◌∷◌ c ""
unfolding take_while_back
one_digit c h = ground (arith, h)

-- A character that is no digit ends the digits behind it.
not_longer :
    (d : Char) (s t : String)
    → is_digit d ≡ false
    → take_while_back is_digit s ≡ t
    → take_while_back is_digit (String.◌∷◌ d s) ≡ t
unfolding take_while_back
not_longer d s t e h = ground (arith, e, h)

-- The text before the first digit holds none, so that the digits at the end are those put there.
digit_at_end :
    (s : String) (c : Char)
    → is_digit c ≡ true
    → take_while_back is_digit
        (String.◌++◌ (take_while (λ d. not (is_digit d)) s) (String.◌∷◌ c ""))
      ≡ String.◌∷◌ c ""
unfolding take_while take_while_back
digit_at_end String.[] c h = rw (nil-append (String.◌∷◌ c "")) (one_digit c h)
digit_at_end (String.◌∷◌ d s) c h = elim (Bool-cases (is_digit d)) [
  | inl e ↦ rw (take_while, e) (rw (nil-append (String.◌∷◌ c "")) (one_digit c h))
  | inr e ↦
      let l = String.◌++◌ (take_while (λ d. not (is_digit d)) s) (String.◌∷◌ c "") in
      rw (take_while, e)
        (rw (cons-append d (take_while (λ d. not (is_digit d)) s) (String.◌∷◌ c ""))
          (not_longer d l (String.◌∷◌ c "") e (digit_at_end s c h)))
]

numbered-at :
    (d t : String) (n : ℕ)
    → take_while_back is_digit d ≡ t
    → parse_u32 t ≡ some n
    → parse_device_path d ≡ ok (record { device = d; index = n })
unfolding parse_device_path numbered
numbered-at d t n e h = rw (e, h) refl

-- The device of the other slot is read as the other slot.
inactive-parses :
    (a : PartitionInfo) → parse_device_path (inactive_of a).device ≡ ok (inactive_of a)
unfolding parse_device_path inactive_of other_index numbered show parse_u32
inactive-parses a = elim (Bool-cases (a.index == slot_a_index)) [
  | inl e ↦
      rw (other_index, e)
        (numbered-at (String.◌++◌ (take_while (λ d. not (is_digit d)) a.device) "3") "3" 3
          (digit_at_end a.device "3" refl) refl)
  | inr e ↦
      rw (other_index, e)
        (numbered-at (String.◌++◌ (take_while (λ d. not (is_digit d)) a.device) "2") "2" 2
          (digit_at_end a.device "2" refl) refl)
]

-- The partition to be written is never the active one, wherever this was found and however its path
-- is written: its device is another, and its number is 3 if the active one's is 2, and 2 otherwise.
pub inactive-other :
    (sys : System) (a inactive : PartitionInfo)
    → get_active_partition sys ≡ ok a
    → get_inactive_partition sys ≡ ok inactive
    → (inactive.device ≢ a.device) × (inactive.index ≡ other_index a.index)
unfolding get_inactive_partition inactive_of
inactive-other sys a inactive h =
    rw (get_inactive_partition, h)
      (λ e.
        let k : inactive_of a ≡ inactive = ground arith in
        (
          (λ d.
              let x : (inactive_of a).device ≡ a.device =
                ap (λ (p : PartitionInfo). p.device) k ∙ d in
              let y = sym (inactive-parses a) ∙ ap parse_device_path x ∙ active-parses sys a h in
              let z : inactive_of a ≡ a = ground (arith, y) in
              other_index-other a.index (ap (λ (p : PartitionInfo). p.index) z)),
          sym (ap (λ (p : PartitionInfo). p.index) k),
        ))
