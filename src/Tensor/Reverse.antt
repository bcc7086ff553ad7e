-- ===== src/Tensor/Reverse.antt =====
-- Axes and indices in the other order, for the row-major tensors of src/common/tp_tensor.c.
use tensor_pool_c.Common.{
  ℕ, ◌+◌, ◌*◌, ◌≡◌, refl, ap, ◌∙◌, ◌<◌, List, [], ◌∷◌, ◌++◌, arith, length, length-append,
}
use tensor_pool_c.Tensor.Header.{Axis, reverse}
use tensor_pool_c.Tensor.Layout.{InBounds, offset, restride}

module _ {ℓ} {A : Type ℓ} where
  reverse-snoc : (xs : List A) (x : A) → reverse (xs ++ (x ∷ [])) ≡ x ∷ reverse xs
  reverse-snoc [] x = refl
  reverse-snoc (y ∷ xs) x = ap (λ l. l ++ (y ∷ [])) (reverse-snoc xs x)

  pub reverse-reverse : (xs : List A) → reverse (reverse xs) ≡ xs
  reverse-reverse [] = refl
  reverse-reverse (x ∷ xs) = reverse-snoc (reverse xs) x ∙ ap (λ l. x ∷ l) (reverse-reverse xs)

  pub length-reverse : (xs : List A) → length (reverse xs) ≡ length xs
  length-reverse [] = refl
  length-reverse (x ∷ xs) = length-append (reverse xs) (x ∷ []) ∙ omega (arith, length-reverse xs)

-- One axis more, behind the others.
InBounds-snoc :
    (axes : List Axis) (is : List ℕ) (d s i : ℕ)
    → InBounds axes is
    → i < d
    → InBounds (axes ++ ((d, s) ∷ [])) (is ++ (i ∷ []))
InBounds-snoc [] [] d s i h lt = (lt, tt)
InBounds-snoc [] (j ∷ is) d s i h lt = elim h [ ]
InBounds-snoc ((d', s') ∷ axes) [] d s i h lt = elim h [ ]
InBounds-snoc ((d', s') ∷ axes) (j ∷ is) d s i h lt = (h.0, InBounds-snoc axes is d s i h.1 lt)

offset-snoc :
    (axes : List Axis) (is : List ℕ) (d s i : ℕ)
    → InBounds axes is
    → offset (axes ++ ((d, s) ∷ [])) (is ++ (i ∷ [])) ≡ offset axes is + i * s
offset-snoc [] [] d s i h = omega arith
offset-snoc [] (j ∷ is) d s i h = elim h [ ]
offset-snoc ((d', s') ∷ axes) [] d s i h = elim h [ ]
offset-snoc ((d', s') ∷ axes) (j ∷ is) d s i h = omega (arith, offset-snoc axes is d s i h.1)

pub InBounds-reverse :
    (axes : List Axis) (is : List ℕ) → InBounds axes is → InBounds (reverse axes) (reverse is)
InBounds-reverse [] [] h = tt
InBounds-reverse [] (i ∷ is) h = elim h [ ]
InBounds-reverse ((d, s) ∷ axes) [] h = elim h [ ]
InBounds-reverse ((d, s) ∷ axes) (i ∷ is) h =
    InBounds-snoc (reverse axes) (reverse is) d s i (InBounds-reverse axes is h.1) h.0

pub offset-reverse :
    (axes : List Axis) (is : List ℕ)
    → InBounds axes is
    → offset (reverse axes) (reverse is) ≡ offset axes is
offset-reverse [] [] h = refl
offset-reverse [] (i ∷ is) h = elim h [ ]
offset-reverse ((d, s) ∷ axes) [] h = elim h [ ]
offset-reverse ((d, s) ∷ axes) (i ∷ is) h = omega (
  arith,
  offset-snoc (reverse axes) (reverse is) d s i (InBounds-reverse axes is h.1),
  offset-reverse axes is h.1,
)

restride-snoc :
    (axes : List Axis) (ss : List ℕ) (d s s' : ℕ)
    → length ss ≡ length axes
    → restride (axes ++ ((d, s) ∷ [])) (ss ++ (s' ∷ [])) ≡ restride axes ss ++ ((d, s') ∷ [])
restride-snoc [] [] d s s' same = refl
restride-snoc [] (t ∷ ss) d s s' same = absurd (omega (arith, same))
restride-snoc ((d', t') ∷ axes) [] d s s' same = absurd (omega (arith, same))
restride-snoc ((d', t') ∷ axes) (t ∷ ss) d s s' same =
    ap (λ l. (d', t) ∷ l) (restride-snoc axes ss d s s' (omega (arith, same)))

pub restride-reverse :
    (axes : List Axis) (ss : List ℕ)
    → length ss ≡ length axes
    → restride (reverse axes) (reverse ss) ≡ reverse (restride axes ss)
restride-reverse [] [] same = refl
restride-reverse [] (t ∷ ss) same = absurd (omega (arith, same))
restride-reverse ((d, s) ∷ axes) [] same = absurd (omega (arith, same))
restride-reverse ((d, s) ∷ axes) (t ∷ ss) same =
    restride-snoc (reverse axes) (reverse ss) d s t
      (omega (arith, length-reverse axes, length-reverse ss, same))
    ∙ ap (λ l. l ++ ((d, t) ∷ [])) (restride-reverse axes ss (omega (arith, same)))
