-- ===== src/Config/Network/Checks.antt =====
-- When the combinators of the validation succeed.
use keelos.Prelude.{
  ◌≡◌, ◌≢◌, ◌↔◌, refl, arith, Bool, true, false, Option, none, some, List, [], ◌∷◌, All, ok, err,
  ◌>>◌,
}
use keelos.Config.Network.{NetworkConfigError, Check, require, for_each, for_some, no_items}

pub require_iff : (b : Bool) (e : NetworkConfigError) → (require b e ≡ ok tt) ↔ (b ≡ true)
require_iff true e = ((λ _. refl), (λ _. refl))
require_iff false e = ((λ h. cc), (λ h. cc))

pub then_iff : (m k : Check) → ((m >> k) ≡ ok tt) ↔ ((m ≡ ok tt) × (k ≡ ok tt))
then_iff (ok tt) k = ((λ h. (refl, h)), (λ h. h.1))
then_iff (err e) k = ((λ h. cc), (λ h. cc h.0))

module _ {A : Type 0} (f : A → Check) where
  pub for_each_iff : (xs : List A) → (for_each f xs ≡ ok tt) ↔ All (λ x. f x ≡ ok tt) xs
  for_each_iff [] = ((λ _. tt), (λ _. refl))
  for_each_iff (x ∷ xs) = (
    (λ h.
        let (here, rest) = (then_iff (f x) (for_each f xs)).0 h in
        (here, (for_each_iff xs).0 rest)),
    (λ h. (then_iff (f x) (for_each f xs)).1 (h.0, (for_each_iff xs).1 h.1)),
  )

  pub for_some_iff : (o : Option A) → (for_some f o ≡ ok tt) ↔ ((x : A) → o ≡ some x → f x ≡ ok tt)
  for_some_iff none = ((λ _ x e. cc), (λ _. refl))
  for_some_iff (some a) = ((λ h x e. ground arith), (λ h. h a refl))

-- Equivalent predicates hold of the same lists.
pub All-iff {ℓ κ μ} :
    {A : Type ℓ} {P : A → Type κ} {Q : A → Type μ} (e : (x : A) → P x ↔ Q x) (xs : List A)
    → All P xs ↔ All Q xs
All-iff e [] = ((λ _. tt), (λ _. tt))
All-iff e (x ∷ xs) =
    ((λ h. ((e x).0 h.0, (All-iff e xs).0 h.1)), (λ h. ((e x).1 h.0, (All-iff e xs).1 h.1)))

pub All-both {ℓ κ μ} :
    {A : Type ℓ} (P : A → Type κ) (Q : A → Type μ) (xs : List A)
    → All (λ x. P x × Q x) xs ↔ (All P xs × All Q xs)
All-both P Q [] = ((λ _. (tt, tt)), (λ _. tt))
All-both P Q (x ∷ xs) = (
  (λ h. let (ps, qs) = (All-both P Q xs).0 h.1 in ((h.0.0, ps), (h.0.1, qs))),
  (λ h. ((h.0.0, h.1.0), (All-both P Q xs).1 (h.0.1, h.1.1))),
)

pub no_items-true : {A : Type 0} (xs : List A) → no_items xs ≡ true → xs ≡ []
no_items-true [] h = refl
no_items-true (x ∷ xs) h = cc

pub no_items-false : {A : Type 0} (xs : List A) → xs ≢ [] → no_items xs ≡ false
no_items-false [] h = absurd (h refl)
no_items-false (x ∷ xs) h = refl

pub ne-nil_of_false : {A : Type 0} (xs : List A) → no_items xs ≡ false → xs ≢ []
ne-nil_of_false [] h = cc
ne-nil_of_false (x ∷ xs) h = λ e. cc
