-- ===== src/MergeMaps/Lookup.antt =====
-- What is found in the registry of merge maps (src/common/tp_merge_map.c) after an upsert.
use tensor_pool_c.Common.{
  ℕ, ◌≡◌, ◌⊎◌, inl, inr, refl, ap, ◌∙◌, Bool, true, false, not, ◌&&◌, ◌||◌, Option, none, some,
  List, [], ◌∷◌, arith, ◌==◌, if◌then◌else◌, any, find_first, update_first, Bool-cases,
  Option-cases, subst, some_cancel,
}
use tensor_pool_c.JoinBarrier.Maps.{SequenceMap, TimestampMap}
use tensor_pool_c.MergeMaps.Registry.{
  sequence_kind, timestamp_kind, Entry, cleared, is_entry, find_entry, is_outdated,
  invalidate_stream, is_unused, put_slot, upsert, sequence_entry, timestamp_entry, upsert_sequence,
  upsert_timestamp, find_sequence, find_timestamp,
}

-- A write to the first entry that passes `p`, seen by a search for `q`.
update_first-other :
    (p q : Entry → Bool) (new : Entry) (entries : List Entry)
    → ((e : Entry) → p e ≡ true → q e ≡ false)
    → q new ≡ false
    → find_first q (update_first p (λ _. new) entries) ≡ find_first q entries
update_first-other p q new [] apart other = refl
update_first-other p q new (e ∷ entries) apart other = elim (Bool-cases (p e)) [
  | inl hit ↦ ground (arith, hit, apart e hit, other)
  | inr miss ↦ ground (arith, miss, update_first-other p q new entries apart other)
]

update_first-new :
    (p q : Entry → Bool) (new : Entry) (entries : List Entry)
    → (any q entries ≡ false) ⊎ ((e : Entry) → q e ≡ true → p e ≡ true)
    → any p entries ≡ true
    → q new ≡ true
    → find_first q (update_first p (λ _. new) entries) ≡ some new
update_first-new p q new [] before some_p own = cc
update_first-new p q new (e ∷ entries) (inl nowhere) some_p own = elim (Bool-cases (p e)) [
  | inl hit ↦ ground (arith, hit, own)
  | inr miss ↦ ground (
    arith,
    miss,
    nowhere,
    update_first-new p q new entries (inl (ground (arith, nowhere))) (ground (arith, miss, some_p))
        own,
  )
]
update_first-new p q new (e ∷ entries) (inr finer) some_p own = elim (Bool-cases (p e)) [
  | inl hit ↦ ground (arith, hit, own)
  | inr miss ↦ ground (
    arith,
    miss,
    finer e,
    update_first-new p q new entries (inr finer) (ground (arith, miss, some_p)) own,
  )
]

-- The map of one stream is not seen under another key, nor is what is cleared.
invalidate_stream-other :
    (kind stream epoch kind' stream' epoch' : ℕ) (entries : List Entry)
    → (kind' == kind) && (stream' == stream) && not (epoch' == epoch) ≡ false
    → find_entry kind' stream' epoch' (invalidate_stream kind stream epoch entries)
      ≡ find_entry kind' stream' epoch' entries
unfolding invalidate_stream
invalidate_stream-other kind stream epoch kind' stream' epoch' [] other = refl
invalidate_stream-other kind stream epoch kind' stream' epoch' (e ∷ entries) other =
    elim (Bool-cases (is_outdated kind stream epoch e)) [
      | inl old ↦ ground (
        arith,
        old,
        other,
        invalidate_stream-other kind stream epoch kind' stream' epoch' entries other,
      )
      | inr kept ↦ ground (
        arith,
        kept,
        invalidate_stream-other kind stream epoch kind' stream' epoch' entries other,
      )
    ]

invalidate_stream-none :
    (kind stream epoch epoch' : ℕ) (entries : List Entry)
    → epoch' == epoch ≡ false
    → find_entry kind stream epoch' (invalidate_stream kind stream epoch entries) ≡ none
unfolding invalidate_stream
invalidate_stream-none kind stream epoch epoch' [] differ = refl
invalidate_stream-none kind stream epoch epoch' (e ∷ entries) differ =
    elim (Bool-cases (is_outdated kind stream epoch e)) [
      | inl old ↦
          ground (arith, old, invalidate_stream-none kind stream epoch epoch' entries differ)
      | inr kept ↦
          ground
            (arith, kept, differ, invalidate_stream-none kind stream epoch epoch' entries differ)
    ]

find_first-none :
    (q : Entry → Bool) (entries : List Entry) → any q entries ≡ false → find_first q entries ≡ none
find_first-none q [] h = refl
find_first-none q (e ∷ entries) h = ground (arith, h, find_first-none q entries (ground (arith, h)))

same_key :
    (kind stream epoch kind' stream' epoch' : ℕ) (entries : List Entry)
    → (kind' == kind) && (stream' == stream) && (epoch' == epoch) ≡ true
    → find_entry kind' stream' epoch' entries ≡ find_entry kind stream epoch entries
same_key kind stream epoch kind' stream' epoch' entries same =
    ap (λ (n : ℕ). find_entry n stream' epoch' entries) {x = kind'} {y = kind}
      (ground (arith, same))
    ∙ ap (λ (n : ℕ). find_entry kind n epoch' entries) {x = stream'} {y = stream}
        (ground (arith, same))
    ∙ ap (λ (n : ℕ). find_entry kind stream n entries) {x = epoch'} {y = epoch}
        (ground (arith, same))

-- What a slot that is written shows.
abbrev Shows :
    (kind stream epoch kind' stream' epoch' : ℕ) → Entry → List Entry → List Entry → Type 0
Shows kind stream epoch kind' stream' epoch' new entries entries' =
    find_entry kind' stream' epoch' entries' ≡ (
      if (kind' == kind) && (stream' == stream) && (epoch' == epoch)
      then some new
      else find_entry kind' stream' epoch' entries)

module _ (kind stream epoch kind' stream' epoch' : ℕ) (new : Entry) (entries : List Entry)
    (own : is_entry kind stream epoch new ≡ true) where
  written-Shows :
      (p : Entry → Bool)
      → any p entries ≡ true
      → (any (is_entry kind stream epoch) entries ≡ false)
        ⊎ ((e : Entry) → is_entry kind stream epoch e ≡ true → p e ≡ true)
      → ((kind' == kind) && (stream' == stream) && (epoch' == epoch) ≡ false
          → (e : Entry) → p e ≡ true
          → is_entry kind' stream' epoch' e ≡ false)
      → Shows kind stream epoch kind' stream' epoch' new entries (update_first p (λ _. new) entries)
  written-Shows p some_p before apart =
      elim (Bool-cases ((kind' == kind) && (stream' == stream) && (epoch' == epoch))) [
        | inl same ↦ rw same (
            same_key kind stream epoch kind' stream' epoch' (update_first p (λ _. new) entries) same
            ∙ update_first-new p (is_entry kind stream epoch) new entries before some_p own)
        | inr differ ↦ rw differ (
            update_first-other p (is_entry kind' stream' epoch') new entries (apart differ)
              (ground (arith, differ, own)))
      ]

  put_slot-Shows :
      (entries' : List Entry)
      → put_slot kind stream epoch new entries ≡ some entries'
      → Shows kind stream epoch kind' stream' epoch' new entries entries'
  unfolding put_slot
  put_slot-Shows entries' h = elim (Bool-cases (any (is_entry kind stream epoch) entries)) [
    | inl there ↦
        subst (Shows kind stream epoch kind' stream' epoch' new entries)
          {x = update_first (is_entry kind stream epoch) (λ _. new) entries} {y = entries'}
          (some_cancel (ground (arith, there, h)))
          (written-Shows (is_entry kind stream epoch) there (inr (λ e k. k))
            (λ differ e k. ground (arith, differ, k)))
    | inr missing ↦ elim (Bool-cases (any is_unused entries)) [
      | inl room ↦
          subst (Shows kind stream epoch kind' stream' epoch' new entries)
            {x = update_first is_unused (λ _. new) entries} {y = entries'}
            (some_cancel (ground (arith, missing, room, h)))
            (written-Shows is_unused room (inl missing) (λ differ e k. ground (arith, k)))
      | inr crowded ↦ absurd (ground (arith, missing, crowded, h))
    ]
  ]

-- The lookup after an upsert: the new entry under its key, nothing under the other epochs of its
-- stream, and under other streams and kinds what was there.
abbrev pub after_upsert :
    (kind stream epoch : ℕ) → {A : Type 0} → A → (kind' stream' epoch' : ℕ) → Option A → Option A
after_upsert kind stream epoch new kind' stream' epoch' before =
    if (kind' == kind) && (stream' == stream)
    then (if epoch' == epoch then some new else none)
    else before

invalidated-find :
    (kind stream epoch kind' stream' epoch' : ℕ) (new : Entry) (entries entries' : List Entry)
    → Shows kind stream epoch kind' stream' epoch' new
        (invalidate_stream kind stream epoch entries)
        entries'
    → find_entry kind' stream' epoch' entries'
      ≡ after_upsert kind stream epoch new kind' stream' epoch'
          (find_entry kind' stream' epoch' entries)
invalidated-find kind stream epoch kind' stream' epoch' new entries entries' shows =
    elim (Bool-cases ((kind' == kind) && (stream' == stream))) [
      | inl same ↦ elim (Bool-cases (epoch' == epoch)) [
        | inl now ↦ shows ∙ ground (arith, same, now)
        | inr other ↦
            shows
            ∙ ground (
              arith,
              same,
              other,
              same_key kind stream epoch' kind' stream' epoch'
                  (invalidate_stream kind stream epoch entries) (ground (arith, same)),
              invalidate_stream-none kind stream epoch epoch' entries other,
            )
      ]
      | inr apart ↦
          shows
          ∙ ground (
            arith,
            apart,
            invalidate_stream-other kind stream epoch kind' stream' epoch' entries
                (ground (arith, apart)),
          )
    ]

upsert-find_entry :
    (memory : Bool) (new : Entry) (entries entries' : List Entry) (kind' stream' epoch' : ℕ)
    → new.in_use ≡ true
    → upsert memory new entries ≡ (true, entries')
    → find_entry kind' stream' epoch' entries'
      ≡ after_upsert new.kind new.out_stream_id new.epoch new kind' stream' epoch'
          (find_entry kind' stream' epoch' entries)
unfolding upsert
upsert-find_entry memory new entries entries' kind' stream' epoch' used h =
    elim (Bool-cases (memory || (new.rule_count == 0))) [
      | inl given ↦ elim (Option-cases (put_slot new.kind new.out_stream_id new.epoch new valid)) [
        | inl full ↦ absurd (ground (arith, given, full, h))
        | inr (written, e) ↦
            invalidated-find new.kind new.out_stream_id new.epoch kind' stream' epoch' new entries
              entries'
              (put_slot-Shows new.kind new.out_stream_id new.epoch kind' stream' epoch' new valid
                (ground (arith, used)) entries'
                (e
                  ∙ ap some (
                      ap (λ (o : Bool × List Entry). o.1) {x = (true, written)}
                        {y = (true, entries')} (ground (arith, given, e, h)))))
      ]
      | inr short ↦
          elim (Option-cases (put_slot new.kind new.out_stream_id new.epoch cleared valid)) [
            | inl full ↦ absurd (ground (arith, short, full, h))
            | inr (written, e) ↦ absurd (ground (arith, short, e, h))
          ]
    ]
  where
    valid : List Entry
    valid = invalidate_stream new.kind new.out_stream_id new.epoch entries

-- After a sequence map is taken into the registry, it is found for its stream and epoch, no sequence
-- map is found for another epoch of the stream, and all that is found for other streams, and all
-- timestamp maps, are what they were.
pub upsert_sequence-find_sequence :
    (memory : Bool) (entries entries' : List Entry) (m : SequenceMap) (now_ns stream epoch : ℕ)
    → upsert_sequence memory entries m now_ns ≡ (true, entries')
    → (find_sequence entries' stream epoch ≡ (
        if stream == m.out_stream_id
        then (if epoch == m.epoch then some m else none)
        else find_sequence entries stream epoch))
      × (find_timestamp entries' stream epoch ≡ find_timestamp entries stream epoch)
unfolding upsert_sequence find_sequence find_timestamp
upsert_sequence-find_sequence memory entries entries' m now_ns stream epoch h = (
  ground (
    arith,
    upsert-find_entry memory (sequence_entry m now_ns) entries entries' sequence_kind stream epoch
        refl h,
  ),
  ground (
    arith,
    upsert-find_entry memory (sequence_entry m now_ns) entries entries' timestamp_kind stream epoch
        refl h,
  ),
)

-- The same for a timestamp map.
upsert_timestamp-find_timestamp :
    (memory : Bool) (entries entries' : List Entry) (m : TimestampMap) (now_ns stream epoch : ℕ)
    → upsert_timestamp memory entries m now_ns ≡ (true, entries')
    → (find_timestamp entries' stream epoch ≡ (
        if stream == m.out_stream_id
        then (if epoch == m.epoch then some m else none)
        else find_timestamp entries stream epoch))
      × (find_sequence entries' stream epoch ≡ find_sequence entries stream epoch)
unfolding upsert_timestamp find_sequence find_timestamp
upsert_timestamp-find_timestamp memory entries entries' m now_ns stream epoch h = (
  ground (
    arith,
    upsert-find_entry memory (timestamp_entry m now_ns) entries entries' timestamp_kind stream epoch
        refl h,
  ),
  ground (
    arith,
    upsert-find_entry memory (timestamp_entry m now_ns) entries entries' sequence_kind stream epoch
        refl h,
  ),
)
