-- ===== src/Tensor/Layout.antt =====
-- Axes that lie within each other, as tp_tensor_fill_strides (src/common/tp_tensor.c) leaves them.
use native.Mathlib.Nat.{mul-le-mul, le_refl, add-mul, mul_comm}
use native.Mathlib.Decide.{dec_lt}
use tensor_pool_c.Common.{
  ℕ, zero, suc, ◌+◌, ◌*◌, ◌^◌, ◌<◌, ◌≤◌, ◌≡◌, inl, inr, refl, sym, ap, ◌∙◌, subst, List, [], ◌∷◌,
  arith, length, ltb, leb, ◌==◌, if◌then◌else◌, Bool-cases,
}
use tensor_pool_c.Tensor.Header.{
  Axis, Checked, accepted, refused, overflows, with_stride, extent, fill_loop, fill_inner,
}

-- An index for each axis, less than its dimension.
abbrev pub InBounds : List Axis → List ℕ → Type 0
InBounds [] [] = Unit
InBounds [] (i ∷ is) = ⊥
InBounds ((d, s) ∷ axes) [] = ⊥
InBounds ((d, s) ∷ axes) (i ∷ is) = (i < d) × InBounds axes is

-- The byte at which an element starts.
abbrev pub offset : List Axis → List ℕ → ℕ
offset [] is = 0
offset ((d, s) ∷ axes) [] = 0
offset ((d, s) ∷ axes) (i ∷ is) = i * s + offset axes is

-- From the innermost axis on, each steps over all of the one before it; the first over `width`.
abbrev pub Layout : ℕ → List Axis → Type 0
Layout width [] = Unit
Layout width ((d, s) ∷ axes) = (width ≤ s) × Layout (extent d s) axes

step_up : (s i j : ℕ) → i < j → i * s + s ≤ j * s
step_up s i j lt = omega (
  arith,
  mul-le-mul {n₁ = i + 1} {m₁ = s} {n₂ = j} {m₂ = s} (omega arith) (le_refl s),
  add-mul i 1 s,
)

same_multiple : (s a b i j : ℕ) → a < s → b < s → a + i * s ≡ b + j * s → i ≡ j
same_multiple s a b i j a_in b_in e = elim (dec_lt i j) [
  | yes up ↦ absurd (omega (arith, step_up s i j up, e))
  | no ge ↦ elim (dec_lt j i) [
    | yes down ↦ absurd (omega (arith, step_up s j i down, e))
    | no le ↦ omega (arith, ge, le)
  ]
]

below_extent : (d s c k : ℕ) → c < s → k < d → c + k * s < extent d s
below_extent d s c k c_in k_in =
    subst (λ (n : ℕ). c + k * s < n) (sym is) (omega (arith, step_up s k d k_in, c_in))
  where
    is : extent d s ≡ d * s
    is = ground (arith, k_in) ∙ mul_comm s d

-- The stride of the first axis.
abbrev pub first_stride : List Axis → ℕ
first_stride [] = 0
first_stride ((d, s) ∷ axes) = s

-- Where the axes lie within each other, a byte is in one element only.
pub Layout-apart :
    (axes : List Axis) (width a b : ℕ) (is js : List ℕ)
    → Layout width axes
    → a < width
    → b < width
    → InBounds axes is
    → InBounds axes js
    → a + offset axes is ≡ b + offset axes js
    → (a ≡ b) × (is ≡ js)
Layout-apart [] width a b [] [] h a_in b_in i_in j_in e = (omega (arith, e), refl)
Layout-apart [] width a b (i ∷ is) js h a_in b_in i_in j_in e = elim i_in [ ]
Layout-apart [] width a b [] (j ∷ js) h a_in b_in i_in j_in e = elim j_in [ ]
Layout-apart ((d, s) ∷ axes) width a b [] js h a_in b_in i_in j_in e = elim i_in [ ]
Layout-apart ((d, s) ∷ axes) width a b (i ∷ is) [] h a_in b_in i_in j_in e = elim j_in [ ]
Layout-apart ((d, s) ∷ axes) width a b (i ∷ is) (j ∷ js) h a_in b_in i_in j_in e =
    let (same, rest) =
      Layout-apart axes (extent d s) (a + i * s) (b + j * s) is js h.1 (inside a i a_in i_in.0)
        (inside b j b_in j_in.0) i_in.1 j_in.1 (omega (arith, e)) in
    let same_index : i ≡ j =
      same_multiple s a b i j (omega (arith, a_in, h.0)) (omega (arith, b_in, h.0)) same in
    (
      omega (arith, same, ap (λ (n : ℕ). n * s) same_index),
      ap (λ n. n ∷ is) same_index ∙ ap (λ ns. j ∷ ns) rest,
    )
  where
    inside : (c k : ℕ) → c < width → k < d → c + k * s < extent d s
    inside c k c_in k_in = below_extent d s c k (omega (arith, c_in, h.0)) k_in

-- The axes with other strides.
abbrev pub restride : List Axis → List ℕ → List Axis
restride [] ss = []
restride ((d, s) ∷ axes) [] = []
restride ((d, s) ∷ axes) (s' ∷ ss) = (d, s') ∷ restride axes ss

with_stride-accepted :
    (s : ℕ) (out : Checked (List ℕ)) (ss : List ℕ)
    → with_stride s out ≡ accepted ss
    → (rest : List ℕ) × ((out ≡ accepted rest) × (ss ≡ s ∷ rest))
with_stride-accepted s (accepted rest) ss e = (rest, (refl, cc))
with_stride-accepted s refused ss e = cc
with_stride-accepted s overflows ss e = cc

-- What the loop does where it accepts an axis.
record FillStep (expected d : ℕ) (axes : List Axis) (ss : List ℕ) : Type 0 where
  stride : ℕ
  rest : List ℕ
  is : ss ≡ stride ∷ rest
  up : expected ≤ stride
  fits : expected < 2 ^ 31
  outer : fill_loop (extent d stride) axes ≡ accepted rest

fill_loop-FillStep :
    (expected d s : ℕ) (axes : List Axis) (ss : List ℕ)
    → fill_loop expected ((d, s) ∷ axes) ≡ accepted ss
    → FillStep expected d axes ss
unfolding fill_loop
fill_loop-FillStep expected d s axes ss e = elim (Bool-cases (leb (2 ^ 31) expected)) [
  | inl over ↦ ground (arith, over, e)
  | inr fits ↦ elim (Bool-cases (s == 0)) [
    | inl inferred ↦
        let (rest, (outer, is)) =
          with_stride-accepted expected (fill_loop (extent d expected) axes) ss
            (ground (arith, fits, inferred, e)) in
        record {
          stride = expected;
          rest = rest;
          is = is;
          up = omega arith;
          fits = ground (arith, fits);
          outer = outer;
        }
    | inr declared ↦ elim (Bool-cases (ltb s expected)) [
      | inl small ↦ ground (arith, fits, declared, small, e)
      | inr enough ↦
          let (rest, (outer, is)) =
            with_stride-accepted s (fill_loop (extent d s) axes) ss
              (ground (arith, fits, declared, enough, e)) in
          record {
            stride = s;
            rest = rest;
            is = is;
            up = ground (arith, enough);
            fits = ground (arith, fits);
            outer = outer;
          }
    ]
  ]
]

pub fill_loop-Layout :
    (expected : ℕ) (axes : List Axis) (ss : List ℕ)
    → fill_loop expected axes ≡ accepted ss
    → Layout expected (restride axes ss)
fill_loop-Layout expected [] ss e = tt
fill_loop-Layout expected ((d, s) ∷ axes) ss e =
    let f = fill_loop-FillStep expected d s axes ss e in
    rw f.is (f.up, fill_loop-Layout (extent d f.stride) axes f.rest f.outer)

extent-positive : (d s : ℕ) → 1 ≤ s → 1 ≤ extent d s
extent-positive zero s pos = ground (arith, pos)
extent-positive (suc d) s pos =
    ground (arith, mul-le-mul {n₁ = 1} {m₁ = 1} {n₂ = s} {m₂ = suc d} pos (omega arith))

-- Strides that the loop has filled are left as they are.
pub fill_loop-again :
    (expected : ℕ) (axes : List Axis) (ss : List ℕ)
    → 1 ≤ expected
    → fill_loop expected axes ≡ accepted ss
    → fill_loop expected (restride axes ss) ≡ accepted ss
unfolding fill_loop
fill_loop-again expected [] ss positive e = e
fill_loop-again expected ((d, s) ∷ axes) ss positive e =
    let f = fill_loop-FillStep expected d s axes ss e in
    let again =
      fill_loop-again (extent d f.stride) axes f.rest
        (extent-positive d f.stride (omega (arith, f.up, positive))) f.outer in
    rw f.is (ground (arith, f.up, f.fits, positive, again))

pub fill_loop-length :
    (expected : ℕ) (axes : List Axis) (ss : List ℕ)
    → fill_loop expected axes ≡ accepted ss
    → length ss ≡ length axes
unfolding fill_loop
fill_loop-length expected [] [] e = refl
fill_loop-length expected [] (s ∷ ss) e = cc
fill_loop-length expected ((d, s) ∷ axes) ss e =
    let f = fill_loop-FillStep expected d s axes ss e in
    omega (arith, ap length f.is, fill_loop-length (extent d f.stride) axes f.rest f.outer)

-- The strides from the innermost axis on, without what is said of the first.
pub record FillInner (elem_size : ℕ) (axes : List Axis) (ss : List ℕ) : Type 0 where
  pub lengths : length ss ≡ length axes
  pub layout :
      (width : ℕ) → width ≤ first_stride (restride axes ss) → Layout width (restride axes ss)
  pub positive : 1 ≤ first_stride (restride axes ss)
  pub again : fill_inner elem_size (restride axes ss) ≡ accepted ss

pub fill_inner-FillInner :
    (elem_size : ℕ) (axes : List Axis) (ss : List ℕ)
    → 1 ≤ elem_size
    → fill_inner elem_size axes ≡ accepted ss
    → FillInner elem_size axes ss
unfolding fill_inner
fill_inner-FillInner elem_size [] ss positive e = cc
fill_inner-FillInner elem_size ((d, s) ∷ axes) ss positive e =
    let (rest, (outer, is)) = with_stride-accepted stride (fill_loop (extent d stride) axes) ss e in
    rw is (record {
      lengths = omega (arith, fill_loop-length (extent d stride) axes rest outer);
      layout = λ width le. (le, fill_loop-Layout (extent d stride) axes rest outer);
      positive = stride_positive;
      again = ground (
        arith,
        stride_positive,
        fill_loop-again (extent d stride) axes rest (extent-positive d stride stride_positive)
            outer,
      );
    })
  where
    stride : ℕ
    stride = if s == 0 then elem_size else s

    stride_positive : 1 ≤ stride
    stride_positive = ground (arith, positive)
