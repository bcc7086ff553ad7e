-- ===== src/ConsumerRegistry/Update.antt =====
-- `tp_consumer_request_validate` and `tp_consumer_registry_update`. The registry is the list of its
-- entries, of the length `capacity`.
use tensor_pool_c.Common.{
  ℕ, Bool, not, ◌&&◌, Option, none, some, List, [], ltb, leb, ◌==◌, if◌then◌else◌, length, any,
  update_first, find_index,
}
use tensor_pool_c.ConsumerRegistry.State.{
  Entry, Hello, Request, uri_max_length, fresh_entry, is_entry_of, is_unused,
}

-- `!=` on bool
abbrev differ : Bool → Bool → Bool
differ a b = if a then not b else b

-- A request for a channel has both the channel and the stream, or neither.
unfoldable pub request_validate : Hello → Option Request
request_validate hello =
    if differ descriptor_channel descriptor_stream
    then none
    else if differ control_channel control_stream
    then none
    else some (record {
      descriptor_requested = descriptor_channel && descriptor_stream;
      control_requested = control_channel && control_stream;
    })
  where
    descriptor_channel : Bool
    descriptor_channel = ltb 0 (length hello.descriptor_channel)

    descriptor_stream : Bool
    descriptor_stream = not (hello.descriptor_stream_id == 0)

    control_channel : Bool
    control_channel = ltb 0 (length hello.control_channel)

    control_stream : Bool
    control_stream = not (hello.control_stream_id == 0)

-- `tp_copy_string_view` into `TP_URI_MAX_LENGTH` bytes: it fails where the string and its NUL do
-- not fit, and copies otherwise.
unfoldable pub copy_string_view : List ℕ → Option (List ℕ)
copy_string_view view = if leb uri_max_length (length view) then none else some view

-- The channel and the stream that an entry gets for a request.
unfoldable pub requested_channel : Bool → List ℕ → ℕ → List ℕ × ℕ
requested_channel requested channel stream_id =
    if requested
    then elim (copy_string_view channel) [ none ↦ ([], 0) | some copy ↦ (copy, stream_id) ]
    else ([], 0)

-- What `tp_consumer_registry_update` writes into the entry; the publications stay.
unfoldable pub fill : Hello → Request → ℕ → Entry → Entry
fill hello request now_ns e = record e {
  last_seen_ns = now_ns;
  mode = hello.mode;
  max_rate_hz = hello.max_rate_hz;
  supports_progress = hello.supports_progress;
  progress_interval_us = hello.progress_interval_us;
  progress_bytes_delta = hello.progress_bytes_delta;
  progress_major_delta_units = hello.progress_major_delta_units;
  descriptor_channel = descriptor.0;
  descriptor_stream_id = descriptor.1;
  control_channel = control.0;
  control_stream_id = control.1;
}
  where
    descriptor : List ℕ × ℕ
    descriptor =
        requested_channel request.descriptor_requested hello.descriptor_channel
          hello.descriptor_stream_id

    control : List ℕ × ℕ
    control =
        requested_channel request.control_requested hello.control_channel hello.control_stream_id

-- The entry that the update finds or takes, and the registry with it filled; `out_entry` is its
-- index.
unfoldable pub place : List Entry → Hello → Request → ℕ → Option (List Entry × ℕ)
place entries hello request now_ns =
    if any (is_entry_of hello.consumer_id) entries
    then some (
      update_first (is_entry_of hello.consumer_id) (fill hello request now_ns) entries,
      find_index (is_entry_of hello.consumer_id) entries,
    )
    else if any is_unused entries
    then some (
      update_first is_unused (λ _. fill hello request now_ns (fresh_entry hello.consumer_id))
          entries,
      find_index is_unused entries,
    )
    else none

unfoldable pub update : List Entry → Hello → ℕ → Option (List Entry × ℕ)
update entries hello now_ns = elim (request_validate hello) [
  | none ↦ none
  | some request ↦ place entries hello request now_ns
]
