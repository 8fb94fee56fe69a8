-- ===== src/Prelude/Text/Lines.antt =====
-- The lines of a text that is put together from pieces with line ends between them.
use Prim.Native.Nat.{ℕ}
use Prim.Native.Char.{Char, code}
use Prim.Native.String
use Prim.Native.String.{String}
use mathlib.Core.Path.{◌≡◌, refl, sym, ap, ◌∙◌, subst}
use mathlib.Core.Logic.{inl, inr}
use mathlib.Core.Bool.{true}
use mathlib.Core.List.{List, [], ◌∷◌, ◌++◌}
use keelos.Prelude.Tests.{◌==◌, Bool-cases}
use keelos.Prelude.Lists.{In}
use keelos.Prelude.Text.{
  cons, is_empty, nil-append, cons-append, pieces, split, drop_last_empty, lines,
}

on_head : Char → List String → List String
on_head c [] = []
on_head c (p ∷ ps) = cons c p ∷ ps

pub split-append :
    (sep : ℕ) (c : Char) (x y : String)
    → (code c == sep) ≡ true
    → split sep (String.◌++◌ x (cons c y)) ≡ split sep x ++ split sep y
unfolding split pieces on_head
split-append sep c String.[] y h = rw (nil-append (cons c y), h) refl
split-append sep c (String.◌∷◌ d x) y h =
    let ih = split-append sep c x y h in
    rw (cons-append d x (cons c y)) (elim (Bool-cases (code d == sep)) [
      | inl e ↦ rw e (ap (λ (l : List String). "" ∷ l) ih)
      | inr e ↦ rw e (ap (on_head d) ih)
    ])

In-drop_left :
    (l q : String) (xs qs : List String) → In l xs → In l (drop_last_empty (xs ++ (q ∷ qs)))
unfolding drop_last_empty
In-drop_left l q [] qs m = absurd m
In-drop_left l q (x ∷ []) qs (inl e) = inl e
In-drop_left l q (x ∷ []) qs (inr m) = absurd m
In-drop_left l q (x ∷ y ∷ xs) qs (inl e) = inl e
In-drop_left l q (x ∷ y ∷ xs) qs (inr m) = inr (In-drop_left l q (y ∷ xs) qs m)

In-drop_right :
    (l q : String) (xs qs : List String)
    → In l (drop_last_empty (q ∷ qs))
    → In l (drop_last_empty (xs ++ (q ∷ qs)))
unfolding drop_last_empty
In-drop_right l q [] qs m = m
In-drop_right l q (x ∷ []) qs m = inr m
In-drop_right l q (x ∷ y ∷ xs) qs m = inr (In-drop_right l q (y ∷ xs) qs m)

In-drop : (l : String) (xs : List String) → In l (drop_last_empty xs) → In l xs
unfolding drop_last_empty
In-drop l [] m = m
In-drop l (x ∷ []) m = elim (Bool-cases (is_empty x)) [
  | inl e ↦ absurd (rw e at m)
  | inr e ↦ rw e at m
]
In-drop l (x ∷ y ∷ xs) (inl e) = inl e
In-drop l (x ∷ y ∷ xs) (inr m) = inr (In-drop l (y ∷ xs) m)

newline-append : (y : String) → String.◌++◌ "\n" y ≡ cons "\n" y
newline-append y = cons-append "\n" "" y ∙ ap (cons "\n") (nil-append y)

-- A line of a text stays one when a line end and more text follow it, and when text that ends with a
-- line end stands in front of it.
pub In-lines_left :
    (l x y : String) → In l (lines x) → In l (lines (String.◌++◌ x (String.◌++◌ "\n" y)))
unfolding lines split
In-lines_left l x y m =
    let (q, qs) = pieces 10 y in
    let e = ap (String.◌++◌ x) (newline-append y) in
    subst (λ s. In l (drop_last_empty s)) (sym (ap (split 10) e ∙ split-append 10 "\n" x y refl))
      (In-drop_left l q (split 10 x) qs (In-drop l (split 10 x) m))

pub In-lines_right :
    (l x y : String) → In l (lines y) → In l (lines (String.◌++◌ x (String.◌++◌ "\n" y)))
unfolding lines split
In-lines_right l x y m =
    let (q, qs) = pieces 10 y in
    let e = ap (String.◌++◌ x) (newline-append y) in
    subst (λ s. In l (drop_last_empty s)) (sym (ap (split 10) e ∙ split-append 10 "\n" x y refl))
      (In-drop_right l q (split 10 x) qs m)
