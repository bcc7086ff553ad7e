-- ===== src/Tensor/Header.antt =====
-- `tp_tensor_header_t` and `tp_tensor_header_validate` with what it calls, src/common/tp_tensor.c.
-- The codes are those of schemas/wire-schema.xml. A product beyond int32_t, which C leaves
-- undefined, is an outcome of its own.
use tensor_pool_c.Common.{
  ℕ, zero, suc, ◌*◌, ◌^◌, Bool, true, false, ◌||◌, Option, none, some, List, [], ◌∷◌, ◌++◌, map,
  ltb, leb, ◌==◌, if◌then◌else◌, contains, drop,
}
use tensor_pool_c.Common.Int.{ℤ, pos, negsuc}

pub record Header : Type 0 where
  pub dtype : ℕ
  pub major_order : ℕ
  pub ndims : ℕ
  pub progress_unit : ℕ
  pub progress_stride_bytes : ℕ
  pub dims : List ℤ
  pub strides : List ℤ

-- 0 and a result, -1, or an overflow.
pub data Checked {ℓ} (A : Type ℓ) : Type ℓ where
  accepted : A → Checked A
  refused overflows : Checked A

-- `TP_MAX_DIMS`
abbrev pub max_dims : ℕ
max_dims = 8

-- `tensor_pool_majorOrder_ROW` and `tensor_pool_majorOrder_COLUMN`
abbrev pub row_order : ℕ
row_order = 1

abbrev pub column_order : ℕ
column_order = 2

-- `tp_dtype_size_bytes`
unfoldable pub dtype_size_bytes : ℕ → ℕ
dtype_size_bytes dtype =
    if contains dtype (1 ∷ 2 ∷ 11 ∷ 13 ∷ 14 ∷ [])
    then 1
    else if contains dtype (3 ∷ 4 ∷ [])
    then 2
    else if contains dtype (5 ∷ 6 ∷ 9 ∷ [])
    then 4
    else if contains dtype (7 ∷ 8 ∷ 10 ∷ [])
    then 8
    else 0

-- A dimension and its stride.
abbrev pub Axis : Type 0
Axis = ℕ × ℕ

abbrev pub with_axis : Axis → Option (List Axis) → Option (List Axis)
with_axis axis none = none
with_axis axis (some axes) = some (axis ∷ axes)

abbrev axis_of : ℤ → ℤ → Option Axis
axis_of (pos d) (pos s) = some (d, s)
axis_of (pos d) (negsuc s) = none
axis_of (negsuc d) s = none

-- The axes of a tensor, the first `ndims` of the arrays; none where one is negative.
unfoldable pub axes : ℕ → List ℤ → List ℤ → Option (List Axis)
axes zero dims strides = some []
axes (suc ndims) [] strides = some []
axes (suc ndims) (d ∷ dims) [] = some []
axes (suc ndims) (d ∷ dims) (s ∷ strides) = elim (axis_of d s) [
  | none ↦ none
  | some axis ↦ with_axis axis (axes ndims dims strides)
]

abbrev pub with_stride : ℕ → Checked (List ℕ) → Checked (List ℕ)
with_stride s (accepted strides) = accepted (s ∷ strides)
with_stride s refused = refused
with_stride s overflows = overflows

-- `expected`: the bytes of the axis inside.
abbrev pub extent : ℕ → ℕ → ℕ
extent d s = s * (if ltb 0 d then d else 1)

-- The `for` of `tp_tensor_fill_strides`, with what the axis inside takes.
unfoldable pub fill_loop : ℕ → List Axis → Checked (List ℕ)
fill_loop expected [] = accepted []
fill_loop expected ((d, s) ∷ outer) =
    let inferred = fill_loop (extent d expected) outer in
    let declared = fill_loop (extent d s) outer in
    if leb (2 ^ 31) expected
    then overflows
    else if s == 0
    then with_stride expected inferred
    else if ltb s expected
    then refused
    else with_stride s declared

-- From the innermost axis to the outermost.
unfoldable pub fill_inner : ℕ → List Axis → Checked (List ℕ)
fill_inner elem_size [] = refused
fill_inner elem_size ((d, s) ∷ outer) =
    let stride = if s == 0 then elem_size else s in
    with_stride stride (fill_loop (extent d stride) outer)

abbrev pub reverse {ℓ} : {A : Type ℓ} → List A → List A
reverse [] = []
reverse (x ∷ xs) = reverse xs ++ (x ∷ [])

abbrev pub reverse_strides : Checked (List ℕ) → Checked (List ℕ)
reverse_strides (accepted strides) = accepted (reverse strides)
reverse_strides refused = refused
reverse_strides overflows = overflows

-- `tp_tensor_fill_strides`: the last axis of a row-major tensor is the innermost one, and the first
-- of a column-major one.
unfoldable pub fill_strides : ℕ → ℕ → List Axis → Checked (List ℕ)
fill_strides major_order elem_size axes =
    if major_order == row_order
    then reverse_strides (fill_inner elem_size (reverse axes))
    else if major_order == column_order
    then fill_inner elem_size axes
    else refused

-- `tp_tensor_validate_progress`, with the strides filled.
unfoldable pub is_valid_progress : ℕ → ℕ → List ℕ → Bool
is_valid_progress progress_unit progress_stride_bytes strides =
    if progress_unit == 0
    then true
    else if progress_stride_bytes == 0
    then false
    else if progress_unit == 1
    then elim strides [ [] ↦ false | s ∷ rest ↦ s == progress_stride_bytes ]
    else if progress_unit == 2
    then elim strides [
      | [] ↦ false
      | s ∷ rest ↦ elim rest [ [] ↦ false | s' ∷ rest' ↦ s' == progress_stride_bytes ]
    ]
    else false

-- The strides of the axes are written back.
abbrev pub filled : Header → List ℕ → Header
filled h strides = record h { strides = map pos strides ++ drop h.ndims h.strides }

-- `tp_tensor_header_validate`
unfoldable pub header_validate : Header → Checked Header
header_validate h =
    if (h.ndims == 0) || ltb max_dims h.ndims
    then refused
    else if dtype_size_bytes h.dtype == 0
    then refused
    else elim (axes h.ndims h.dims h.strides) [
      | none ↦ refused
      | some declared ↦ elim (fill_strides h.major_order (dtype_size_bytes h.dtype) declared) [
        | refused ↦ refused
        | overflows ↦ overflows
        | accepted strides ↦
            if is_valid_progress h.progress_unit h.progress_stride_bytes strides
            then accepted (filled h strides)
            else refused
      ]
    ]
