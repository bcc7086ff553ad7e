-- ===== src/Tensor/Places.antt =====
-- What an accepted header of a tensor promises (tp_tensor_header_validate in src/common/tp_tensor.c).
use tensor_pool_c.Common.{
  ℕ, zero, suc, ◌≤◌, ◌≡◌, inl, inr, refl, sym, ap, ◌∙◌, subst, true, false, ◌||◌, Option, none,
  some, List, [], ◌∷◌, ◌++◌, map, arith, length, ltb, ◌==◌, Bool-cases, Option-cases, drop,
  some_cancel,
}
use tensor_pool_c.Common.Int.{ℤ, pos, negsuc}
use tensor_pool_c.Tensor.Header.{
  Header, Axis, Checked, accepted, refused, overflows, max_dims, with_axis, dtype_size_bytes, axes,
  fill_strides, is_valid_progress, filled, header_validate,
}
use tensor_pool_c.Tensor.Layout.{InBounds, offset, restride}
use tensor_pool_c.Tensor.Strides.{FillStrides, fill_strides-FillStrides}

with_axis-some :
    (axis : Axis) (out : Option (List Axis)) (declared : List Axis)
    → with_axis axis out ≡ some declared
    → (rest : List Axis) × ((out ≡ some rest) × (declared ≡ axis ∷ rest))
with_axis-some axis none declared e = cc
with_axis-some axis (some rest) declared e = (rest, (refl, cc))

accepted_cancel : {h h' : Header} → accepted h ≡ accepted h' → h ≡ h'
accepted_cancel e = cc

-- The axes of the header that is given back.
axes-filled :
    (ndims : ℕ) (dims strides : List ℤ) (declared : List Axis) (ss : List ℕ)
    → axes ndims dims strides ≡ some declared
    → length ss ≡ length declared
    → axes ndims dims (map pos ss ++ drop ndims strides) ≡ some (restride declared ss)
unfolding axes
axes-filled zero dims strides declared ss e same = ap (λ l. some (restride l ss)) (some_cancel e)
axes-filled (suc ndims) [] strides declared ss e same =
    ap (λ l. some (restride l ss)) (some_cancel e)
axes-filled (suc ndims) (d ∷ dims) [] declared [] e same =
    ap (λ l. some (restride l [])) (some_cancel e)
axes-filled (suc ndims) (d ∷ dims) [] declared (t ∷ ss) e same =
    absurd (omega (arith, same, ap length (some_cancel e)))
axes-filled (suc ndims) (negsuc d ∷ dims) (s ∷ strides) declared ss e same = cc
axes-filled (suc ndims) (pos d ∷ dims) (negsuc s ∷ strides) declared ss e same = cc
axes-filled (suc ndims) (pos d ∷ dims) (pos s ∷ strides) declared [] e same =
    let (rest, (e', is)) = with_axis-some (d, s) (axes ndims dims strides) declared e in
    absurd (omega (arith, same, ap length is))
axes-filled (suc ndims) (pos d ∷ dims) (pos s ∷ strides) declared (t ∷ ss) e same =
    let (rest, (e', is)) = with_axis-some (d, s) (axes ndims dims strides) declared e in
    ap (with_axis (d, t))
      (axes-filled ndims dims strides rest ss e' (omega (arith, same, ap length is)))
    ∙ ap (λ l. some (restride l (t ∷ ss))) (sym is)

-- What a validation that succeeds has found.
record Valid (h h' : Header) : Type 0 where
  declared : List Axis
  ss : List ℕ
  rank : (h.ndims == 0) || ltb max_dims h.ndims ≡ false
  is_axes : axes h.ndims h.dims h.strides ≡ some declared
  positive : 1 ≤ dtype_size_bytes h.dtype
  fills : FillStrides h.major_order (dtype_size_bytes h.dtype) declared ss
  progress : is_valid_progress h.progress_unit h.progress_stride_bytes ss ≡ true
  is : filled h ss ≡ h'

header_validate-Valid : (h h' : Header) → header_validate h ≡ accepted h' → Valid h h'
unfolding header_validate
header_validate-Valid h h' e = elim (Bool-cases ((h.ndims == 0) || ltb max_dims h.ndims)) [
  | inl bad ↦ ground (arith, bad, e)
  | inr rank ↦ elim (Bool-cases (dtype_size_bytes h.dtype == 0)) [
    | inl bad ↦ ground (arith, rank, bad, e)
    | inr known ↦ elim (Option-cases (axes h.ndims h.dims h.strides)) [
      | inl bad ↦ ground (arith, rank, known, bad, e)
      | inr (declared, is_axes) ↦
          after rank known declared is_axes
            (fill_strides h.major_order (dtype_size_bytes h.dtype) declared) refl
    ]
  ]
]
  where
    after :
        (h.ndims == 0) || ltb max_dims h.ndims ≡ false
        → dtype_size_bytes h.dtype == 0 ≡ false
        → (declared : List Axis) → axes h.ndims h.dims h.strides ≡ some declared
        → (out : Checked (List ℕ))
        → fill_strides h.major_order (dtype_size_bytes h.dtype) declared ≡ out
        → Valid h h'
    after rank known declared is_axes refused filling =
        unfold header_validate in ground (arith, rank, known, is_axes, filling, e)
    after rank known declared is_axes overflows filling =
        unfold header_validate in ground (arith, rank, known, is_axes, filling, e)
    after rank known declared is_axes (accepted ss) filling =
        elim (Bool-cases (is_valid_progress h.progress_unit h.progress_stride_bytes ss)) [
          | inl valid ↦ record {
            declared = declared;
            ss = ss;
            rank = rank;
            is_axes = is_axes;
            positive = ground (arith, known);
            fills =
                fill_strides-FillStrides h.major_order (dtype_size_bytes h.dtype) declared ss
                  (ground (arith, known)) filling;
            progress = valid;
            is =
                accepted_cancel (
                  unfold header_validate in
                  ground (arith, rank, known, is_axes, filling, valid, e));
          }
          | inr bad ↦
              unfold header_validate in ground (arith, rank, known, is_axes, filling, bad, e)
        ]

-- An accepted header gives every element its own place. Where tp_tensor_header_validate accepts a
-- header, then by the dimensions and strides that it leaves in it no two elements, of indices within
-- the dimensions, start at the same byte.
pub header_validate-apart :
    (h h' : Header) (places : List Axis) (is js : List ℕ)
    → header_validate h ≡ accepted h'
    → axes h'.ndims h'.dims h'.strides ≡ some places
    → InBounds places is
    → InBounds places js
    → offset places is ≡ offset places js
    → is ≡ js
header_validate-apart h h' places is js e at =
    subst Goal (v.is)
      (λ at'. subst Places (some_cancel (sym left ∙ at')) (λ is_in js_in same.
        (v.fills.places 1 v.fills.positive 0 0 is js (omega arith) (omega arith) is_in js_in
          (omega (arith, same))).1))
      at
  where
    v : Valid h h'
    v = header_validate-Valid h h' e

    left : axes h.ndims h.dims (filled h v.ss).strides ≡ some (restride v.declared v.ss)
    left = axes-filled h.ndims h.dims h.strides v.declared v.ss v.is_axes v.fills.lengths

    Places : List Axis → Type 0
    Places ps = InBounds ps is → InBounds ps js → offset ps is ≡ offset ps js → is ≡ js

    Goal : Header → Type 0
    Goal g =
        axes g.ndims g.dims g.strides ≡ some places
        → InBounds places is
        → InBounds places js
        → offset places is ≡ offset places js
        → is ≡ js

axes-length :
    (ndims : ℕ) (dims strides : List ℤ) (declared : List Axis)
    → axes ndims dims strides ≡ some declared
    → ndims ≤ length dims
    → ndims ≤ length strides
    → length declared ≡ ndims
unfolding axes
axes-length zero dims strides declared e d_long s_long = ap length (sym (some_cancel e))
axes-length (suc ndims) [] strides declared e d_long s_long = absurd (omega arith)
axes-length (suc ndims) (d ∷ dims) [] declared e d_long s_long = absurd (omega arith)
axes-length (suc ndims) (negsuc d ∷ dims) (s ∷ strides) declared e d_long s_long = cc
axes-length (suc ndims) (pos d ∷ dims) (negsuc s ∷ strides) declared e d_long s_long = cc
axes-length (suc ndims) (pos d ∷ dims) (pos s ∷ strides) declared e d_long s_long =
    let (rest, (e', is)) = with_axis-some (d, s) (axes ndims dims strides) declared e in
    omega (arith, ap length is, axes-length ndims dims strides rest e' (omega arith) (omega arith))

drop-filled : (ss : List ℕ) (zs : List ℤ) → drop (length ss) (map pos ss ++ zs) ≡ zs
drop-filled [] [] = refl
drop-filled [] (z ∷ zs) = refl
drop-filled (s ∷ ss) zs = drop-filled ss zs

validates :
    (h : Header) (declared : List Axis) (ss : List ℕ)
    → (h.ndims == 0) || ltb max_dims h.ndims ≡ false
    → 1 ≤ dtype_size_bytes h.dtype
    → axes h.ndims h.dims h.strides ≡ some declared
    → fill_strides h.major_order (dtype_size_bytes h.dtype) declared ≡ accepted ss
    → is_valid_progress h.progress_unit h.progress_stride_bytes ss ≡ true
    → header_validate h ≡ accepted (filled h ss)
unfolding header_validate
validates h declared ss rank positive is_axes filling progress =
    ground (arith, rank, positive, is_axes, filling, progress)

-- A header that tp_tensor_header_validate has accepted, with its strides filled, is accepted again
-- and stays as it is. Its arrays have their eight entries.
pub header_validate_again :
    (h h' : Header)
    → length h.dims ≡ max_dims
    → length h.strides ≡ max_dims
    → header_validate h ≡ accepted h'
    → header_validate h' ≡ accepted h'
header_validate_again h h' d_long s_long e = subst (λ g. header_validate g ≡ accepted g) v.is again
  where
    v : Valid h h'
    v = header_validate-Valid h h' e

    rank : h.ndims ≤ max_dims
    rank = ground (arith, v.rank)

    length_filled : h.ndims ≡ length v.ss
    length_filled = sym (
        v.fills.lengths
        ∙ axes-length h.ndims h.dims h.strides v.declared v.is_axes (omega (arith, rank, d_long))
            (omega (arith, rank, s_long)))

    same : filled (filled h v.ss) v.ss ≡ filled h v.ss
    same =
        ap (λ zs. record h { strides = map pos v.ss ++ zs })
          (ap (λ (n : ℕ). drop n (map pos v.ss ++ drop h.ndims h.strides)) {x = h.ndims}
              {y = length v.ss} length_filled
            ∙ drop-filled v.ss (drop h.ndims h.strides))

    again : header_validate (filled h v.ss) ≡ accepted (filled h v.ss)
    again =
        validates (filled h v.ss) (restride v.declared v.ss) v.ss v.rank v.positive
          (axes-filled h.ndims h.dims h.strides v.declared v.ss v.is_axes v.fills.lengths)
          v.fills.again v.progress
        ∙ ap accepted same
