-- ===== src/Config/Network/Names.antt =====
-- The loop over interface names succeeds exactly when no two are equal.
use keelos.Prelude.{
  ◌≡◌, ◌≢◌, ◌↔◌, inl, inr, refl, arith, String, str_eq, eq_iff, Bool-cases, false, List, [], ◌∷◌,
  All, any, ok,
}
use keelos.Config.Network.{InterfaceConfig, unique_names}
use keelos.Config.Network.Checks.{All-both}
use keelos.Config.Network.Valid.{Distinct}

-- A name is not among those seen.
not_seen_iff :
    (n : String) (seen : List String) → (any (str_eq n) seen ≡ false) ↔ All (λ s. n ≢ s) seen
not_seen_iff n [] = ((λ _. tt), (λ _. refl))
not_seen_iff n (s ∷ seen) = (
  (λ h. ((λ e. ground (arith, eq_iff n s)), (not_seen_iff n seen).0 (ground arith))),
  (λ h. ground (arith, eq_iff n s, (not_seen_iff n seen).1 h.1)),
)

-- The names to come differ from one another and from those seen.
abbrev Fresh : List String → List InterfaceConfig → Type 0
Fresh seen is = All (λ i. All (λ s. i.name ≢ s) seen) is × Distinct is

pub unique_names_iff :
    (seen : List String) (is : List InterfaceConfig)
    → (unique_names seen is ≡ ok tt) ↔ Fresh seen is
unfolding unique_names
unique_names_iff seen [] = ((λ _. (tt, tt)), (λ _. refl))
unique_names_iff seen (i ∷ is) = elim (Bool-cases (any (str_eq i.name) seen)) [
  | inl old ↦ ((λ h. ground arith), (λ h. ground (arith, (not_seen_iff i.name seen).1 h.0.0)))
  | inr new ↦ rw new (
    (λ h.
        let (later, apart) = (unique_names_iff (i.name ∷ seen) is).0 h in
        let (here, behind) =
          (All-both (λ j. j.name ≢ i.name) (λ j. All (λ s. j.name ≢ s) seen) is).0 later in
        (((not_seen_iff i.name seen).0 new, behind), (here, apart))),
    (λ h. (unique_names_iff (i.name ∷ seen) is).1 (
      (All-both (λ j. j.name ≢ i.name) (λ j. All (λ s. j.name ≢ s) seen) is).1 (h.1.0, h.0.1),
      h.1.1,
    )),
  )
]
