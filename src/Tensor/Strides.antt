-- ===== src/Tensor/Strides.antt =====
-- What tp_tensor_fill_strides (src/common/tp_tensor.c) promises of the strides that it accepts.
use tensor_pool_c.Common.{
  ℕ, ◌+◌, ◌<◌, ◌≤◌, ◌≡◌, inl, inr, refl, sym, ap, ◌∙◌, subst, List, arith, length, ◌==◌,
  if◌then◌else◌, Bool-cases,
}
use tensor_pool_c.Tensor.Header.{
  Axis, Checked, accepted, refused, overflows, row_order, column_order, axes, fill_inner,
  fill_strides, reverse, reverse_strides,
}
use tensor_pool_c.Tensor.Layout.{
  InBounds, offset, first_stride, Layout, Layout-apart, restride, fill_inner-FillInner,
}
use tensor_pool_c.Tensor.Reverse.{
  reverse-reverse, length-reverse, InBounds-reverse, offset-reverse, restride-reverse,
}

-- The axes from the innermost one on.
abbrev pub inner_first : ℕ → List Axis → List Axis
inner_first major_order axes = if major_order == row_order then reverse axes else axes

-- A byte is in one element only, for elements of `width` bytes.
abbrev pub Apart : ℕ → List Axis → Type 0
Apart width places =
    (a b : ℕ) (is js : List ℕ)
    → a < width
    → b < width
    → InBounds places is
    → InBounds places js
    → a + offset places is ≡ b + offset places js
    → (a ≡ b) × (is ≡ js)

reverse-Apart : (width : ℕ) (places : List Axis) → Apart width (reverse places) → Apart width places
reverse-Apart width places apart a b is js a_in b_in i_in j_in e =
    let (same, rest) =
      apart a b (reverse is) (reverse js) a_in b_in (InBounds-reverse places is i_in)
        (InBounds-reverse places js j_in)
        (omega (arith, e, offset-reverse places is i_in, offset-reverse places js j_in)) in
    (same, sym (reverse-reverse is) ∙ ap reverse rest ∙ reverse-reverse js)

pub record FillStrides (major_order elem_size : ℕ) (declared : List Axis) (ss : List ℕ)
    : Type 0 where
  pub lengths : length ss ≡ length declared
  pub places :
      (width : ℕ)
      → width ≤ first_stride (inner_first major_order (restride declared ss))
      → Apart width (restride declared ss)
  pub positive : 1 ≤ first_stride (inner_first major_order (restride declared ss))
  pub again : fill_strides major_order elem_size (restride declared ss) ≡ accepted ss

reverse_strides-accepted :
    (out : Checked (List ℕ)) (ss : List ℕ)
    → reverse_strides out ≡ accepted ss
    → (rest : List ℕ) × ((out ≡ accepted rest) × (ss ≡ reverse rest))
reverse_strides-accepted (accepted rest) ss e = (rest, (refl, cc))
reverse_strides-accepted refused ss e = cc
reverse_strides-accepted overflows ss e = cc

pub fill_strides-FillStrides :
    (major_order elem_size : ℕ) (declared : List Axis) (ss : List ℕ)
    → 1 ≤ elem_size
    → fill_strides major_order elem_size declared ≡ accepted ss
    → FillStrides major_order elem_size declared ss
unfolding fill_strides
fill_strides-FillStrides major_order elem_size declared ss positive e =
    elim (Bool-cases (major_order == row_order)) [
      | inl row ↦
          let (rest, (inner, is)) =
            reverse_strides-accepted (fill_inner elem_size (reverse declared)) ss
              (ground (arith, row, e)) in
          let f = fill_inner-FillInner elem_size (reverse declared) rest positive inner in
          let lengths : length ss ≡ length declared =
            omega (arith, ap length is, length-reverse rest, f.lengths, length-reverse declared) in
          let turned : restride (reverse declared) rest ≡ reverse (restride declared ss) =
            ap (restride (reverse declared)) (sym (reverse-reverse rest) ∙ ap reverse (sym is))
            ∙ restride-reverse declared ss lengths in
          record {
            lengths = lengths;
            places = λ width. rw row (λ le.
                reverse-Apart width (restride declared ss) (λ a b is' js a_in b_in.
                  Layout-apart (reverse (restride declared ss)) width a b is' js
                    (subst (Layout width) turned
                      (f.layout width (subst (λ l. width ≤ first_stride l) (sym turned) le)))
                    a_in b_in));
            positive = rw row (subst (λ l. 1 ≤ first_stride l) turned f.positive);
            again = rw row (
                ap reverse_strides (ap (fill_inner elem_size) (sym turned) ∙ f.again)
                ∙ ap accepted (sym is));
          }
      | inr other ↦ elim (Bool-cases (major_order == column_order)) [
        | inl column ↦
            let f =
              fill_inner-FillInner elem_size declared ss positive
                (ground (arith, other, column, e)) in
            record {
              lengths = f.lengths;
              places = λ width. rw other (λ le a b is js a_in b_in.
                  Layout-apart (restride declared ss) width a b is js (f.layout width le) a_in
                    b_in);
              positive = rw other f.positive;
              again = rw (other, column) f.again;
            }
        | inr neither ↦ absurd (ground (arith, other, neither, e))
      ]
    ]
