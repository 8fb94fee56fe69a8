-- ===== src/Agent/Network/Interfaces/Laws.antt =====
-- When `get_network_status` panics, and what it reports otherwise.
use keelos.Prelude.{
  ◌≡◌, ◌≢◌, ◌↔◌, ◌⊎◌, inl, inr, refl, sym, ap, arith, Bool-cases, String, str_eq, eq_iff, trim,
  has_prefix, split_whitespace, true, Option, none, some, List, [], ◌∷◌, ◌++◌, In, All, length,
  length-append, ℕ, split_once, ◌∙◌,
}
use mathlib.Core.Path.{subst}
use keelos.Agent.Network.Interfaces.{
  IPv6AddressInfo, InterfaceStatus, Device, behind_scope, scoped, of_parts, parse_ipv6_address_line,
  address_of, ipv6_infos, cons_info, lines_of, interface_status, with_infos, cons_status,
  get_network_status,
}

-- The last word is "scope", and no other is.
abbrev pub EndsInScope : List String → Type 0
EndsInScope parts =
    (front : List String) × (parts ≡ front ++ ("scope" ∷ [])) × All (λ p. p ≢ "scope") front

behind_scope-EndsInScope : (parts : List String) → behind_scope parts ≡ some [] → EndsInScope parts
unfolding behind_scope
behind_scope-EndsInScope [] h = cc
behind_scope-EndsInScope (p ∷ rest) h = elim (Bool-cases (str_eq p "scope")) [
  | inl e ↦
      let q : p ≡ "scope" = (eq_iff p "scope").0 e in
      let r : rest ≡ [] = ground (arith, e, h) in ([], rw (q, r) refl, tt)
  | inr e ↦
      let (front, q, others) = behind_scope-EndsInScope rest (ground (arith, e, h)) in
      (p ∷ front, ap (◌∷◌ p) q, ((λ k. cc (sym e ∙ (eq_iff p "scope").1 k)), others))
]

behind_scope-front :
    (front : List String)
    → All (λ p. p ≢ "scope") front
    → behind_scope (front ++ ("scope" ∷ [])) ≡ some []
unfolding behind_scope
behind_scope-front [] h = refl
behind_scope-front (p ∷ front) (n, h) = elim (Bool-cases (str_eq p "scope")) [
  | inl e ↦ absurd (n ((eq_iff p "scope").0 e))
  | inr e ↦ rw e (behind_scope-front front h)
]

scoped-none : (a : String × ℕ) (o : Option (List String)) → (scoped a o ≡ none) ↔ (o ≡ some [])
scoped-none a none = ((λ h. absurd (ground (arith, h))), (λ h. cc))
scoped-none a (some []) = ((λ h. refl), (λ h. refl))
scoped-none a (some (s ∷ flags)) =
    ((λ h. absurd (ground (arith, h))), (λ h. absurd (ground (arith, h))))

-- The case of at least two words, which a line of `ip` that starts with "inet6 " has.
of_parts-none :
    (p addr : String) (rest : List String)
    → (of_parts (p ∷ addr ∷ rest) ≡ none) ↔ EndsInScope (p ∷ addr ∷ rest)
of_parts-none p addr rest =
    let parts = p ∷ addr ∷ rest in
    let (there, back) = scoped-none (address_of addr (split_once b'/' addr)) (behind_scope parts) in
    (
      (λ h. behind_scope-EndsInScope parts (there h)),
      (λ (front, q, others). back (ap behind_scope q ∙ behind_scope-front front others)),
    )

not-EndsInScope_nil : ¬ EndsInScope []
not-EndsInScope_nil (front, q, others) =
    omega (arith, ap length q, length-append front ("scope" ∷ []))

-- Whether a line of `ip -6 addr show` makes the parser panic.
abbrev pub Fatal : String → Type 0
Fatal line =
    (has_prefix (trim line) "inet6 " ≡ true)
    × (length (split_whitespace (trim line)) ≢ 1)
    × EndsInScope (split_whitespace (trim line))

of_parts-Fatal :
    (parts : List String) → (of_parts parts ≡ none) ↔ ((length parts ≢ 1) × EndsInScope parts)
of_parts-Fatal [] = ((λ h. absurd (ground (arith, h))), (λ h. absurd (not-EndsInScope_nil h.1)))
of_parts-Fatal (p ∷ []) = ((λ h. absurd (ground (arith, h))), (λ h. absurd (h.0 refl)))
of_parts-Fatal (p ∷ addr ∷ rest) =
    let (there, back) = of_parts-none p addr rest in
    ((λ h. ((λ k. omega (arith, k)), there h)), (λ h. back h.1))

-- The parser of one line of `ip -6 addr show` panics exactly on a line that starts with "inet6 ", has
-- another word, and ends with the word "scope", which is no other of its words.
pub parse_ipv6-panics_iff : (line : String) → (parse_ipv6_address_line line ≡ none) ↔ Fatal line
unfolding parse_ipv6_address_line
parse_ipv6-panics_iff line = elim (Bool-cases (has_prefix (trim line) "inet6 ")) [
  | inl e ↦
      let (there, back) = of_parts-Fatal (split_whitespace (trim line)) in
      rw e ((λ h. (refl, (there h).0, (there h).1)), (λ h. back (h.1, h.2)))
  | inr e ↦ rw e ((λ h. absurd (ground (arith, h))), (λ h. cc (h.0)))
]

cons_info-none :
    (o : Option (Option IPv6AddressInfo)) (later : Option (List IPv6AddressInfo))
    → (cons_info o later ≡ none) ↔ ((o ≡ none) ⊎ (later ≡ none))
cons_info-none none later = ((λ h. inl refl), (λ h. refl))
cons_info-none (some none) later =
    ((λ h. inr h), (λ h. elim h [ inl e ↦ absurd (ground (arith, e)) | inr e ↦ e ]))
cons_info-none (some (some info)) none = ((λ h. inr refl), (λ h. refl))
cons_info-none (some (some info)) (some infos) =
    ((λ h. absurd (ground (arith, h))), (λ h. absurd (ground (arith, h))))

-- A line of the list is fatal.
abbrev pub AnyFatal : List String → Type 0
AnyFatal ls = (line : String) × In line ls × Fatal line

ipv6_infos-none : (ls : List String) → (ipv6_infos ls ≡ none) ↔ AnyFatal ls
unfolding ipv6_infos
ipv6_infos-none [] = ((λ h. absurd (ground (arith, h))), (λ (l, m, f). absurd m))
ipv6_infos-none (line ∷ rest) =
    let (split, join) = cons_info-none (parse_ipv6_address_line line) (ipv6_infos rest) in
    let (there, back) = parse_ipv6-panics_iff line in
    let (found, finds) = ipv6_infos-none rest in
    (
      (λ h. elim (split h) [
        | inl e ↦ (line, inl refl, there e)
        | inr e ↦ (let (l, m, f) = found e in (l, inr m, f))
      ]),
      (λ (l, m, f). elim m [
        | inl e ↦ join (inl (back (subst Fatal (sym e) f)))
        | inr n ↦ join (inr (finds (l, n, f)))
      ]),
    )

with_infos-none :
    (d : Device) (o : Option (List IPv6AddressInfo)) → (with_infos d o ≡ none) ↔ (o ≡ none)
unfolding with_infos
with_infos-none d none = ((λ h. refl), (λ h. refl))
with_infos-none d (some infos) =
    ((λ h. absurd (ground (arith, h))), (λ h. absurd (ground (arith, h))))

cons_status-none :
    (o : Option InterfaceStatus) (later : Option (List InterfaceStatus))
    → (cons_status o later ≡ none) ↔ ((o ≡ none) ⊎ (later ≡ none))
cons_status-none none later = ((λ h. inl refl), (λ h. refl))
cons_status-none (some s) none = ((λ h. inr refl), (λ h. refl))
cons_status-none (some s) (some rest) =
    ((λ h. absurd (ground (arith, h))), (λ h. absurd (ground (arith, h))))

-- An interface other than the loopback for which `ip` prints a fatal line.
abbrev pub IsFatal : Device → Type 0
IsFatal d = (d.name ≢ "lo") × AnyFatal (lines_of d.ipv6_output)

interface_status-none :
    (d : Device) → (interface_status d ≡ none) ↔ AnyFatal (lines_of d.ipv6_output)
unfolding interface_status
interface_status-none d =
    let (a, a') = with_infos-none d (ipv6_infos (lines_of d.ipv6_output)) in
    let (b, b') = ipv6_infos-none (lines_of d.ipv6_output) in ((λ h. b (a h)), (λ h. a' (b' h)))

-- The whole RPC panics exactly when, for some interface other than the loopback, `ip -6 addr show`
-- prints a line that starts with "inet6 ", has another word, and ends with its only word "scope".
pub get_network_status-panics_iff :
    (ds : List Device) → (get_network_status ds ≡ none) ↔ ((d : Device) × In d ds × IsFatal d)
unfolding get_network_status
get_network_status-panics_iff [] = ((λ h. absurd (ground (arith, h))), (λ (d, m, f). absurd m))
get_network_status-panics_iff (d ∷ rest) =
    let (found, finds) = get_network_status-panics_iff rest in
    elim (Bool-cases (str_eq d.name "lo")) [
      | inl e ↦ rw e (
        (λ h. let (c, m, f) = found h in (c, inr m, f)),
        (λ (c, m, f). elim m [
          | inl q ↦ absurd (f.0 (ap (λ (x : Device). x.name) (sym q) ∙ (eq_iff d.name "lo").0 e))
          | inr n ↦ finds (c, n, f)
        ]),
      )
      | inr e ↦
          let (split, join) = cons_status-none (interface_status d) (get_network_status rest) in
          let (there, back) = interface_status-none d in
          rw e (
            (λ h. elim (split h) [
              | inl q ↦ (d, inl refl, ((λ k. cc (sym e ∙ (eq_iff d.name "lo").1 k)), there q))
              | inr q ↦ (let (c, m, f) = found q in (c, inr m, f))
            ]),
            (λ (c, m, f). elim m [
              | inl q ↦ join (
                  inl
                    (back (subst (λ (x : Device). AnyFatal (lines_of x.ipv6_output)) (sym q) f.1)))
              | inr n ↦ join (inr (finds (c, n, f)))
            ]),
          )
    ]
