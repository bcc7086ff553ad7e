-- ===== src/ConsumerRegistry/Lookup.antt =====
-- The registry of src/client/tp_consumer_registry.c as a map from consumer ids to entries: what an
-- update and a sweep do to it.
use tensor_pool_c.Common.{
  ℕ, ◌≡◌, ◌≢◌, ◌↔◌, ◌⊎◌, inl, inr, refl, sym, ◌∙◌, true, false, ◌||◌, none, some, List, [], ◌∷◌,
  ◌<◌, length, All, arith, ◌==◌, if◌then◌else◌, Option-cases, any, update_first, contains, Distinct,
}
use tensor_pool_c.ConsumerRegistry.State.{
  Entry, Hello, Request, fresh_entry, is_entry_of, is_unused, find,
}
use tensor_pool_c.ConsumerRegistry.Update.{request_validate, fill, place, update}

-- The consumers that have an entry.
abbrev pub ids : List Entry → List ℕ
ids [] = []
ids (e ∷ entries) = if e.in_use then e.consumer_id ∷ ids entries else ids entries

-- No consumer has two entries.
abbrev pub IsRegistry : List Entry → Type 0
IsRegistry entries = Distinct (ids entries)

any-contains :
    (x : ℕ) (entries : List Entry) → any (is_entry_of x) entries ≡ contains x (ids entries)
any-contains x [] = refl
any-contains x (e ∷ entries) = ground (arith, any-contains x entries)

pub find-none :
    (x : ℕ) (entries : List Entry) → contains x (ids entries) ≡ false → find entries x ≡ none
unfolding find
find-none x [] h = refl
find-none x (e ∷ entries) h = ground (arith, find-none x entries)

find_some :
    (x : ℕ) (entries : List Entry) → any (is_entry_of x) entries ≡ true → find entries x ≢ none
unfolding find
find_some x [] h = cc
find_some x (e ∷ entries) h = ground (arith, find_some x entries)

any-find :
    (x : ℕ) (entries : List Entry) → any (is_entry_of x) entries ≡ false → find entries x ≡ none
unfolding find
any-find x [] h = refl
any-find x (e ∷ entries) h = ground (arith, any-find x entries)

-- A write to the consumer's own entry.
module _ (x : ℕ) (f : Entry → Entry)
    (keeps : (e : Entry) → ((f e).in_use ≡ e.in_use) × ((f e).consumer_id ≡ e.consumer_id)) where
  ids-own : (entries : List Entry) → ids (update_first (is_entry_of x) f entries) ≡ ids entries
  ids-own [] = refl
  ids-own (e ∷ entries) = ground (arith, ids-own entries, keeps e)

  find-own :
      (entries : List Entry) (y : ℕ) (e : Entry)
      → find entries x ≡ some e
      → find (update_first (is_entry_of x) f entries) y
        ≡ (if y == x then some (f e) else find entries y)
  unfolding find
  find-own [] y e h = cc
  find-own (k ∷ entries) y e h = ground (arith, find-own entries y e, keeps k)

-- A write to the first unused entry.
module _ (e : Entry) (used : e.in_use ≡ true) where
  contains-taken :
      (y : ℕ) (entries : List Entry)
      → any is_unused entries ≡ true
      → contains y (ids (update_first is_unused (λ _. e) entries))
        ≡ (e.consumer_id == y) || contains y (ids entries)
  contains-taken y [] h = cc
  contains-taken y (k ∷ entries) h = ground (arith, contains-taken y entries)

  Distinct-taken :
      (entries : List Entry)
      → any is_unused entries ≡ true
      → contains e.consumer_id (ids entries) ≡ false
      → IsRegistry entries
      → IsRegistry (update_first is_unused (λ _. e) entries)
  Distinct-taken [] h new d = cc
  Distinct-taken (k ∷ entries) h new d =
      ground (arith, contains-taken k.consumer_id entries, Distinct-taken entries)

  find-taken :
      (entries : List Entry) (y : ℕ)
      → any is_unused entries ≡ true
      → find entries e.consumer_id ≡ none
      → find (update_first is_unused (λ _. e) entries) y
        ≡ (if y == e.consumer_id then some e else find entries y)
  unfolding find
  find-taken [] y h new = cc
  find-taken (k ∷ entries) y h new = ground (arith, find-taken entries y)

-- The entry that an update leaves to its consumer.
abbrev pub updated : List Entry → Hello → Request → ℕ → Entry
updated entries hello request now_ns =
    fill hello request now_ns
      (elim (find entries hello.consumer_id) [ none ↦ fresh_entry hello.consumer_id | some e ↦ e ])

fill-same :
    (hello : Hello) (request : Request) (now_ns : ℕ) (e : Entry)
    → ((fill hello request now_ns e).in_use ≡ e.in_use)
      × ((fill hello request now_ns e).consumer_id ≡ e.consumer_id)
unfolding fill
fill-same hello request now_ns e = (refl, refl)

place-lookup :
    (entries : List Entry) (hello : Hello) (request : Request) (now_ns y : ℕ) (out : List Entry × ℕ)
    → place entries hello request now_ns ≡ some out
    → find out.0 y ≡ (
        if y == hello.consumer_id
        then some (updated entries hello request now_ns)
        else find entries y)
unfolding place
place-lookup entries hello request now_ns y out h =
    elim (Option-cases (find entries hello.consumer_id)) [
      | inl e ↦ ground (
        arith,
        e,
        find_some hello.consumer_id entries,
        fill-same hello request now_ns (fresh_entry hello.consumer_id),
        find-taken (fill hello request now_ns (fresh_entry hello.consumer_id))
            (fill-same hello request now_ns (fresh_entry hello.consumer_id)).0 entries y,
      )
      | inr (k, e) ↦ ground (
        arith,
        e,
        any-find hello.consumer_id entries,
        find-own hello.consumer_id (fill hello request now_ns) (fill-same hello request now_ns)
            entries y k e,
      )
    ]

place-IsRegistry :
    (entries : List Entry) (hello : Hello) (request : Request) (now_ns : ℕ) (out : List Entry × ℕ)
    → IsRegistry entries
    → place entries hello request now_ns ≡ some out
    → IsRegistry out.0
unfolding place
place-IsRegistry entries hello request now_ns out d h = ground (
  arith,
  any-contains hello.consumer_id entries,
  ids-own hello.consumer_id (fill hello request now_ns) (fill-same hello request now_ns) entries,
  fill-same hello request now_ns (fresh_entry hello.consumer_id),
  Distinct-taken (fill hello request now_ns (fresh_entry hello.consumer_id))
      (fill-same hello request now_ns (fresh_entry hello.consumer_id)).0 entries,
)

update-place :
    (entries : List Entry) (hello : Hello) (request : Request) (now_ns : ℕ)
    → request_validate hello ≡ some request
    → update entries hello now_ns ≡ place entries hello request now_ns
unfolding update
update-place entries hello request now_ns v = rw (v, update) refl

-- tp_consumer_registry_update sets its consumer's entry and no other: afterwards the lookup finds
-- for the hello's consumer its entry as it was (a blank one, if it had none), filled from the
-- hello, and for every other id `y` what it found before.
pub update-lookup :
    (entries : List Entry) (hello : Hello) (request : Request) (now_ns y : ℕ) (out : List Entry × ℕ)
    → request_validate hello ≡ some request
    → update entries hello now_ns ≡ some out
    → find out.0 y ≡ (
        if y == hello.consumer_id
        then some (updated entries hello request now_ns)
        else find entries y)
update-lookup entries hello request now_ns y out v h =
    place-lookup entries hello request now_ns y out
      (sym (update-place entries hello request now_ns v) ∙ h)

-- A channel without its stream, or a stream without its channel.
abbrev pub HalfAsked : List ℕ → ℕ → Type 0
HalfAsked channel stream_id =
    ((0 < length channel) × (stream_id ≡ 0)) ⊎ ((length channel ≡ 0) × (stream_id ≢ 0))

request_validate_fails :
    (hello : Hello)
    → (request_validate hello ≡ none) ↔ (
        HalfAsked hello.descriptor_channel hello.descriptor_stream_id
        ⊎ HalfAsked hello.control_channel hello.control_stream_id)
unfolding request_validate
request_validate_fails hello = (λ h. ground arith, λ h. ground arith)

any-All :
    (entries : List Entry) → (any is_unused entries ≡ false) ↔ All (λ e. e.in_use ≡ true) entries
any-All [] = (λ h. tt, λ h. refl)
any-All (e ∷ entries) = (
  λ h. (ground arith, (any-All entries).0 (ground arith)),
  λ h. ground (arith, (any-All entries).1 h.1, h.0),
)

-- tp_consumer_registry_update fails exactly if the hello asks for a channel without its stream or
-- a stream without its channel, for the descriptors or for the control messages, or its consumer
-- has no entry and every entry is in use.
pub update_fails :
    (entries : List Entry) (hello : Hello) (now_ns : ℕ)
    → (update entries hello now_ns ≡ none) ↔ (
        HalfAsked hello.descriptor_channel hello.descriptor_stream_id
        ⊎ HalfAsked hello.control_channel hello.control_stream_id
        ⊎ ((contains hello.consumer_id (ids entries) ≡ false) × All (λ e. e.in_use ≡ true) entries))
unfolding update place
update_fails entries hello now_ns = (
  λ h. elim (Option-cases (request_validate hello)) [
    | inl bad ↦ elim ((request_validate_fails hello).0 bad) [ inl d ↦ inl d | inr c ↦ inr (inl c) ]
    | inr (request, v) ↦ inr (
        inr (
          ground (arith, v, any-contains hello.consumer_id entries),
          (any-All entries).0 (ground (arith, v)),
        ))
  ],
  λ h. elim (Option-cases (request_validate hello)) [
    | inl bad ↦ ground (arith, bad)
    | inr (request, v) ↦ elim h [
      | inl d ↦ absurd (ground (arith, v, (request_validate_fails hello).1 (inl d)))
      | inr other ↦ elim other [
        | inl c ↦ absurd (ground (arith, v, (request_validate_fails hello).1 (inr c)))
        | inr (new, taken) ↦
            ground
              (arith, v, new, any-contains hello.consumer_id entries, (any-All entries).1 taken)
      ]
    ]
  ],
)

pub update-IsRegistry :
    (entries : List Entry) (hello : Hello) (now_ns : ℕ) (out : List Entry × ℕ)
    → IsRegistry entries
    → update entries hello now_ns ≡ some out
    → IsRegistry out.0
unfolding update
update-IsRegistry entries hello now_ns out d h = elim (Option-cases (request_validate hello)) [
  | inl v ↦ ground (arith, v)
  | inr (request, v) ↦
      place-IsRegistry entries hello request now_ns out d
        (sym (update-place entries hello request now_ns v) ∙ h)
]
