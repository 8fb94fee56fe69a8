-- ===== src/Prelude/Dict.antt =====
-- `HashMap<String, V>` as an association list: its order is the order in which the map is iterated,
-- which Rust leaves open, so a theorem about every list covers every order.
use mathlib.Core.Path.{◌≡◌, refl, ap}
use mathlib.Core.Logic.{inl, inr}
use mathlib.Core.Option
use mathlib.Core.Option.{Option, none, some}
use mathlib.Core.List.{List, [], ◌∷◌, map}
use Prim.Native.String.{String}
use native.Mathlib.Omega.{arith}
use text.Mathlib.TextEquality.{eq_iff}
use text.Mathlib.TextPositions.{eq_refl}
use keelos.Prelude.Tests.{if◌then◌else◌, Bool-cases}
use keelos.Prelude.Lists.{All, In}
use keelos.Prelude.Text.{str_eq}

abbrev pub Dict : Type 0 → Type 0
Dict V = List (String × V)

module _ {V : Type 0} where
  -- `get`, `insert`, and a change of the value behind `get_mut`.
  unfoldable pub get : String → Dict V → Option V
  get k [] = none
  get k ((j, v) ∷ m) = if str_eq j k then some v else get k m

  unfoldable pub put : String → V → Dict V → Dict V
  put k v [] = (k, v) ∷ []
  put k v ((j, w) ∷ m) = if str_eq j k then (k, v) ∷ m else (j, w) ∷ put k v m

  unfoldable pub modify : String → (V → V) → Dict V → Dict V
  modify k f [] = []
  modify k f ((j, v) ∷ m) = if str_eq j k then (j, f v) ∷ m else (j, v) ∷ modify k f m

  abbrev pub value_of : String × V → V
  value_of (k, v) = v

  abbrev pub values : Dict V → List V
  values m = map value_of m

  pub get-put :
      (k j : String) (v : V) (m : Dict V)
      → get j (put k v m) ≡ (if str_eq k j then some v else get j m)
  unfolding get put
  get-put k j v [] = refl
  get-put k j v ((i, w) ∷ m) = ground (arith, eq_iff k j, eq_iff i k, eq_iff i j, get-put k j v m)

  pub put-put : (k : String) (v w : V) (m : Dict V) → put k w (put k v m) ≡ put k w m
  unfolding put
  put-put k v w [] = rw (eq_refl k) refl
  put-put k v w ((j, x) ∷ m) = elim (Bool-cases (str_eq j k)) [
    | inl e ↦ rw (e, eq_refl k) refl
    | inr e ↦ rw (e, e) (ap (λ (r : Dict V). (j, x) ∷ r) (put-put k v w m))
  ]

  pub get-modify :
      (k j : String) (f : V → V) (m : Dict V)
      → get j (modify k f m) ≡ (if str_eq k j then Option.map f (get j m) else get j m)
  unfolding get modify
  get-modify k j f [] = ground arith
  get-modify k j f ((i, w) ∷ m) =
      ground (arith, eq_iff k j, eq_iff i k, eq_iff i j, get-modify k j f m)

  -- A predicate of keys and values that a write keeps.
  pub All-put :
      (P : String × V → Type 0) (k : String) (v : V) (m : Dict V)
      → P (k, v)
      → All P m
      → All P (put k v m)
  unfolding put
  All-put P k v [] p h = (p, tt)
  All-put P k v ((j, w) ∷ m) p (q, h) = elim (Bool-cases (str_eq j k)) [
    | inl e ↦ rw e (p, h)
    | inr e ↦ rw e (q, All-put P k v m p h)
  ]

  pub All-modify :
      (P : String × V → Type 0) (k : String) (f : V → V) (m : Dict V)
      → ((j : String) (w : V) → P (j, w) → P (j, f w))
      → All P m
      → All P (modify k f m)
  unfolding modify
  All-modify P k f [] keeps h = tt
  All-modify P k f ((j, w) ∷ m) keeps (q, h) = elim (Bool-cases (str_eq j k)) [
    | inl e ↦ rw e (keeps j w q, h)
    | inr e ↦ rw e (q, All-modify P k f m keeps h)
  ]

  -- What `get` finds is an entry of the map.
  pub get-In : (k : String) (v : V) (m : Dict V) → get k m ≡ some v → In (k, v) m
  unfolding get
  get-In k v [] h = cc
  get-In k v ((j, w) ∷ m) h = elim (Bool-cases (str_eq j k)) [
    | inl e ↦ inl (ground (arith, eq_iff j k))
    | inr e ↦ inr (get-In k v m (ground arith))
  ]
