-- ===== src/Prelude/Lists.antt =====
-- Lists measured by native numbers, under the library's names, and predicates over lists.
use Prim.Native.Nat.{ℕ, zero, suc, ◌+◌}
use mathlib.Core.Path.{◌≡◌, refl, ap, subst}
use mathlib.Core.Logic.{◌↔◌, ◌⊎◌, inl, inr}
use mathlib.Core.Bool.{Bool, true, false, ◌&&◌, ◌||◌}
use mathlib.Core.List.{List, [], ◌∷◌, ◌++◌}
use mathlib.Core.Option.{Option, none, some}
use native.Mathlib.Omega.{arith}
use keelos.Prelude.Tests.{Bool-cases, if◌then◌else◌}

module _ {ℓ} {A : Type ℓ} where
  abbrev pub length : List A → ℕ
  length [] = 0
  length (x ∷ xs) = suc (length xs)

  abbrev pub get_elem? : List A → ℕ → Option A
  get_elem? [] i = none
  get_elem? (x ∷ xs) zero = some x
  get_elem? (x ∷ xs) (suc i) = get_elem? xs i

  abbrev pub drop : ℕ → List A → List A
  drop zero xs = xs
  drop (suc n) [] = []
  drop (suc n) (x ∷ xs) = drop n xs

  -- `iter().any` and `iter().all`.
  abbrev pub any : (A → Bool) → List A → Bool
  any p [] = false
  any p (x ∷ xs) = p x || any p xs

  abbrev pub all : (A → Bool) → List A → Bool
  all p [] = true
  all p (x ∷ xs) = p x && all p xs

  -- `iter().filter`.
  abbrev pub keep : (A → Bool) → List A → List A
  keep p [] = []
  keep p (x ∷ xs) = let rest = keep p xs in if p x then x ∷ rest else rest

  pub length-append : (xs ys : List A) → length (xs ++ ys) ≡ length xs + length ys
  length-append [] ys = omega arith
  length-append (x ∷ xs) ys = omega (arith, length-append xs ys)

module _ {ℓ κ} {A : Type ℓ} (P : A → Type κ) where
  abbrev pub All : List A → Type κ
  All [] = Unit
  All (x ∷ xs) = P x × All xs

  pub All-append : (xs ys : List A) → All xs → All ys → All (xs ++ ys)
  All-append [] ys h k = k
  All-append (x ∷ xs) ys (p, h) k = (p, All-append xs ys h k)

module _ {A : Type 0} where
  -- Membership by recursion.
  abbrev pub In : A → List A → Type 0
  In a [] = ⊥
  In a (x ∷ xs) = (x ≡ a) ⊎ In a xs

  pub All-at : (P : A → Type 0) (xs : List A) (a : A) → All P xs → In a xs → P a
  All-at P [] a h m = absurd m
  All-at P (x ∷ xs) a (p, h) (inl e) = subst P e p
  All-at P (x ∷ xs) a (p, h) (inr m) = All-at P xs a h m

  pub All-of : (P : A → Type 0) (xs : List A) → ((a : A) → In a xs → P a) → All P xs
  All-of P [] h = tt
  All-of P (x ∷ xs) h = (h x (inl refl), All-of P xs (λ a m. h a (inr m)))

  pub In-append_left : (xs ys : List A) (a : A) → In a xs → In a (xs ++ ys)
  In-append_left [] ys a m = absurd m
  In-append_left (x ∷ xs) ys a (inl e) = inl e
  In-append_left (x ∷ xs) ys a (inr m) = inr (In-append_left xs ys a m)

  pub In-append_right : (xs ys : List A) (a : A) → In a ys → In a (xs ++ ys)
  In-append_right [] ys a m = m
  In-append_right (x ∷ xs) ys a m = inr (In-append_right xs ys a m)

  pub In-append : (xs ys : List A) (a : A) → In a (xs ++ ys) → In a xs ⊎ In a ys
  In-append [] ys a m = inr m
  In-append (x ∷ xs) ys a (inl e) = inl (inl e)
  In-append (x ∷ xs) ys a (inr m) = elim (In-append xs ys a m) [
    | inl k ↦ inl (inr k)
    | inr k ↦ inr k
  ]

  -- The elements that `keep` keeps.
  pub In-keep : (p : A → Bool) (xs : List A) (a : A) → In a (keep p xs) ↔ (In a xs × (p a ≡ true))
  In-keep p [] a = ((λ h. absurd h), (λ h. h.0))
  In-keep p (x ∷ xs) a = elim (Bool-cases (p x)) [
    | inl e ↦ rw e (
      (λ h. elim h [
        | inl i ↦ (inl i, rw i at e)
        | inr m ↦ let (k, q) = (In-keep p xs a).0 m in (inr k, q)
      ]),
      (λ h. elim h.0 [ inl i ↦ inl i | inr m ↦ inr ((In-keep p xs a).1 (m, h.1)) ]),
    )
    | inr e ↦ rw e (
      (λ h. let (k, q) = (In-keep p xs a).0 h in (inr k, q)),
      (λ h. elim h.0 [ inl i ↦ cc (ap p i) | inr m ↦ (In-keep p xs a).1 (m, h.1) ]),
    )
  ]
