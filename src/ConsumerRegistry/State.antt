-- ===== src/ConsumerRegistry/State.antt =====
-- The types of src/internal/tensor_pool/internal/tp_consumer_registry.h, and the searches of
-- src/client/tp_consumer_registry.c. A string is the list of its bytes, and empty where its pointer
-- is null; a publication is the handle that the Aeron client gave, and none where it is closed.
use tensor_pool_c.Common.{ℕ, Bool, true, false, not, ◌&&◌, Option, none, List, [], ◌==◌, find_first}

-- `tp_consumer_entry_t`
pub record Entry : Type 0 where
  pub in_use : Bool
  pub consumer_id : ℕ
  pub last_seen_ns : ℕ
  pub mode : ℕ
  pub max_rate_hz : ℕ
  pub supports_progress : Bool
  pub progress_interval_us : ℕ
  pub progress_bytes_delta : ℕ
  pub progress_major_delta_units : ℕ
  pub descriptor_stream_id : ℕ
  pub descriptor_channel : List ℕ
  pub control_stream_id : ℕ
  pub control_channel : List ℕ
  pub last_descriptor_ns : ℕ
  pub descriptor_publication : Option ℕ
  pub control_publication : Option ℕ

-- A decoded `ConsumerHello`, `tp_consumer_hello_view_t`, as far as the registry reads it.
pub record Hello : Type 0 where
  pub consumer_id : ℕ
  pub supports_progress : Bool
  pub mode : ℕ
  pub max_rate_hz : ℕ
  pub progress_interval_us : ℕ
  pub progress_bytes_delta : ℕ
  pub progress_major_delta_units : ℕ
  pub descriptor_stream_id : ℕ
  pub control_stream_id : ℕ
  pub descriptor_channel : List ℕ
  pub control_channel : List ℕ

-- `tp_consumer_request_t`
pub record Request : Type 0 where
  pub descriptor_requested : Bool
  pub control_requested : Bool

-- `tp_progress_policy_t`
pub record Policy : Type 0 where
  pub interval_us : ℕ
  pub bytes_delta : ℕ
  pub major_delta_units : ℕ

abbrev pub uri_max_length : ℕ
uri_max_length = 4096

-- An entry after `memset` and the assignments of `tp_consumer_registry_alloc`.
abbrev pub fresh_entry : ℕ → Entry
fresh_entry consumer_id = record {
  in_use = true;
  consumer_id = consumer_id;
  last_seen_ns = 0;
  mode = 0;
  max_rate_hz = 0;
  supports_progress = false;
  progress_interval_us = 0;
  progress_bytes_delta = 0;
  progress_major_delta_units = 0;
  descriptor_stream_id = 0;
  descriptor_channel = [];
  control_stream_id = 0;
  control_channel = [];
  last_descriptor_ns = 0;
  descriptor_publication = none;
  control_publication = none;
}

abbrev pub is_entry_of : ℕ → Entry → Bool
is_entry_of consumer_id e = e.in_use && (e.consumer_id == consumer_id)

abbrev pub is_unused : Entry → Bool
is_unused e = not e.in_use

-- `tp_consumer_registry_find`
unfoldable pub find : List Entry → ℕ → Option Entry
find entries consumer_id = find_first (is_entry_of consumer_id) entries
