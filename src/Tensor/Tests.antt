-- ===== src/Tensor/Tests.antt =====
-- Runs of the checks on the headers of tensors.
use tensor_pool_c.Common.{ℕ, ◌≡◌, refl, List, [], ◌∷◌, arith}
use tensor_pool_c.Common.Int.{ℤ, pos}
use tensor_pool_c.Tensor.Header.{
  Header, accepted, overflows, dtype_size_bytes, axes, fill_loop, fill_inner, fill_strides,
  is_valid_progress, header_validate,
}
use tensor_pool_c.Tensor.Places

abbrev eight : ℕ → ℕ → ℕ → List ℤ
eight a b c = pos a ∷ pos b ∷ pos c ∷ pos 0 ∷ pos 0 ∷ pos 0 ∷ pos 0 ∷ pos 0 ∷ []

-- Two rows of three FLOAT32, row-major, with strides to be inferred but for the rows, 16 bytes.
abbrev declared : Header
declared = record {
  dtype = 9;
  major_order = 1;
  ndims = 2;
  progress_unit = 1;
  progress_stride_bytes = 16;
  dims = eight 2 3 0;
  strides = eight 16 0 0;
}

abbrev inferred : Header
inferred = record {
  dtype = 9;
  major_order = 1;
  ndims = 2;
  progress_unit = 1;
  progress_stride_bytes = 16;
  dims = eight 2 3 0;
  strides = eight 16 4 0;
}

checked : header_validate declared ≡ accepted inferred
unfolding header_validate dtype_size_bytes axes fill_strides fill_inner fill_loop is_valid_progress
checked = refl

header_validate_again_example : header_validate inferred ≡ accepted inferred
header_validate_again_example = Places.header_validate_again declared inferred refl refl checked

header_validate-apart_example : ◌≡◌ {A = List ℕ} (1 ∷ 2 ∷ []) (1 ∷ 2 ∷ [])
header_validate-apart_example =
    Places.header_validate-apart declared inferred ((2, 16) ∷ (3, 4) ∷ []) (1 ∷ 2 ∷ []) (1 ∷ 2 ∷ [])
      checked (unfold axes in refl) (omega arith, (omega arith, tt))
      (omega arith, (omega arith, tt)) refl

-- A stride of 1 byte for elements of 4 bytes passes.
overlap_test :
    header_validate (record {
      dtype = 9;
      major_order = 1;
      ndims = 1;
      progress_unit = 0;
      progress_stride_bytes = 0;
      dims = eight 3 0 0;
      strides = eight 1 0 0;
    })
    ≡ accepted (record {
      dtype = 9;
      major_order = 1;
      ndims = 1;
      progress_unit = 0;
      progress_stride_bytes = 0;
      dims = eight 3 0 0;
      strides = eight 1 0 0;
    })
unfolding header_validate dtype_size_bytes axes fill_strides fill_inner fill_loop is_valid_progress
overlap_test = refl

-- Dimensions whose bytes do not fit an int32_t.
overflow_test :
    header_validate (record {
      dtype = 1;
      major_order = 1;
      ndims = 3;
      progress_unit = 0;
      progress_stride_bytes = 0;
      dims = eight 2 65536 65536;
      strides = eight 0 0 0;
    })
    ≡ overflows
unfolding header_validate dtype_size_bytes axes fill_strides fill_inner fill_loop is_valid_progress
overflow_test = refl
