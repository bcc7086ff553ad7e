-- ===== src/Discovery/Streams.antt =====
-- The streams of the discovery service (src/discovery/tp_discovery_service.c): one entry for each,
-- whose epoch does not go back.
use tensor_pool_c.Common.{
  ℕ, ◌≤◌, ◌≡◌, inl, inr, refl, sym, ap, subst, Bool, true, false, not, ◌||◌, Option, none, some,
  List, [], ◌∷◌, ◌++◌, map, arith, ◌==◌, length, any, find_first, update_first, Bool-cases,
  Option-cases, some_cancel, contains, Distinct, Distinct-snoc, All,
}
use tensor_pool_c.Discovery.Table.{
  Entry, Service, PoolAnnounce, DataSourceAnnounce, is_stream, find_entry, fresh_entry, reserve,
  on_entry, announce_entry, apply_announce, data_source_entry, apply_data_source, tag_entry,
  set_tags, is_expired, prune_loop, prune_expired, expiry_ns,
}
use tensor_pool_c.Discovery.Query.{Request, query}

-- What reaches the service, with what the clock and the allocator answer.
pub data Event : Type 0 where
  announces : Bool → Bool → ℕ → PoolAnnounce → Event
  names : Bool → ℕ → DataSourceAnnounce → Event
  tags : Bool → Bool → ℕ → ℕ → List (List ℕ) → Event
  asks : Bool → ℕ → ℕ → Request → Event
  works : ℕ → Event

unfoldable pub step : Service → Event → Service
step s (announces memory pool_memory now a) = (apply_announce memory pool_memory now s a).1
step s (names memory now a) = (apply_data_source memory now s a).1
step s (tags memory tag_memory now stream_id texts) =
    (set_tags memory tag_memory now s stream_id texts).1
step s (asks memory prune_ns now request) = (query memory prune_ns now s request).1
step s (works now) = prune_expired now s

unfoldable pub run_events : Service → List Event → Service
run_events s [] = s
run_events s (e ∷ events) = run_events (step s e) events

abbrev pub stream_ids : List Entry → List ℕ
stream_ids entries = map (λ e. e.stream_id) entries

-- What an operation writes to an entry keeps its stream, and does not put its epoch back.
abbrev Forward : (Entry → Bool × Entry) → Type 0
Forward f = (e : Entry) → ((f e).1.stream_id ≡ e.stream_id) × (e.epoch ≤ (f e).1.epoch)

announce_entry-Forward :
    (memory : Bool) (now : ℕ) (a : PoolAnnounce) → Forward (announce_entry memory now a)
unfolding announce_entry
announce_entry-Forward memory now a e = ground arith

data_source_entry-Forward : (now : ℕ) (a : DataSourceAnnounce) → Forward (data_source_entry now a)
unfolding data_source_entry
data_source_entry-Forward now a e = ground arith

tag_entry-Forward :
    (memory : Bool) (now : ℕ) (texts : List (List ℕ)) → Forward (tag_entry memory now texts)
unfolding tag_entry
tag_entry-Forward memory now texts e = ground arith

-- Every stream keeps its entry, with an epoch that is not less.
abbrev pub Keeps : List Entry → List Entry → Type 0
Keeps before after =
    (stream_id : ℕ) (e : Entry)
    → find_first (is_stream stream_id) before ≡ some e
    → (e' : Entry) × ((find_first (is_stream stream_id) after ≡ some e') × (e.epoch ≤ e'.epoch))

Keeps-self : (entries : List Entry) → Keeps entries entries
Keeps-self entries stream_id e h = (e, (h, omega arith))

Keeps-trans : (xs ys zs : List Entry) → Keeps xs ys → Keeps ys zs → Keeps xs zs
Keeps-trans xs ys zs h k stream_id e at =
    let (e', (at', le)) = h stream_id e at in
    let (e'', (at'', le')) = k stream_id e' at' in (e'', (at'', omega (arith, le, le')))

Keeps-snoc : (entries : List Entry) (x : Entry) → Keeps entries (entries ++ (x ∷ []))
Keeps-snoc [] x stream_id e h = cc
Keeps-snoc (y ∷ entries) x stream_id e h = elim (Bool-cases (is_stream stream_id y)) [
  | inl same ↦ (e, (ground (arith, same, h), omega arith))
  | inr differ ↦
      let (e', (at, le)) = Keeps-snoc entries x stream_id e (ground (arith, differ, h)) in
      (e', (ground (arith, differ, at), le))
]

module _ (f : Entry → Bool × Entry) (forward : Forward f) where
  Keeps-update :
      (id : ℕ) (entries : List Entry)
      → Keeps entries (update_first (is_stream id) (λ e. (f e).1) entries)
  Keeps-update id [] stream_id e h = cc
  Keeps-update id (y ∷ entries) stream_id e h = elim (Bool-cases (is_stream id y)) [
    | inl hit ↦ elim (Bool-cases (is_stream stream_id y)) [
      | inl same ↦ (
        (f y).1,
        (ground (arith, hit, same, (forward y).0), ground (arith, same, h, (forward y).1)),
      )
      | inr differ ↦ (e, (ground (arith, hit, differ, h, (forward y).0), omega arith))
    ]
    | inr miss ↦ elim (Bool-cases (is_stream stream_id y)) [
      | inl same ↦ (e, (ground (arith, miss, same, h), omega arith))
      | inr differ ↦
          let (e', (at, le)) = Keeps-update id entries stream_id e (ground (arith, differ, h)) in
          (e', (ground (arith, miss, differ, at), le))
    ]
  ]

  stream_ids-update :
      (id : ℕ) (entries : List Entry)
      → stream_ids (update_first (is_stream id) (λ e. (f e).1) entries) ≡ stream_ids entries
  stream_ids-update id [] = refl
  stream_ids-update id (y ∷ entries) = elim (Bool-cases (is_stream id y)) [
    | inl hit ↦ rw hit (ap (λ (n : ℕ). n ∷ stream_ids entries) (forward y).0)
    | inr miss ↦ rw miss (ap (λ l. y.stream_id ∷ l) (stream_ids-update id entries))
  ]

contains-stream_ids :
    (id : ℕ) (entries : List Entry)
    → any (is_stream id) entries ≡ false
    → contains id (stream_ids entries) ≡ false
contains-stream_ids id [] h = refl
contains-stream_ids id (y ∷ entries) h = ground (arith, h, contains-stream_ids id entries)

stream_ids-snoc :
    (entries : List Entry) (x : Entry)
    → stream_ids (entries ++ (x ∷ [])) ≡ stream_ids entries ++ (x.stream_id ∷ [])
stream_ids-snoc [] x = refl
stream_ids-snoc (y ∷ entries) x = ap (λ l. y.stream_id ∷ l) (stream_ids-snoc entries x)

-- No stream has two entries.
abbrev OneEach : List Entry → Type 0
OneEach entries = Distinct (stream_ids entries)

-- What an operation leaves of the table.
abbrev Good : Service → Service → Type 0
Good s s' = Keeps s.entries s'.entries × ((OneEach s.entries → OneEach s'.entries))

reserve-Good : (memory : Bool) (s s' : Service) (id : ℕ) → reserve memory s id ≡ some s' → Good s s'
unfolding reserve
reserve-Good memory s s' id h = elim (Bool-cases (any (is_stream id) s.entries)) [
  | inl there ↦
      subst (Good s) {x = s} {y = s'} (some_cancel (ground (arith, there, h)))
        (Keeps-self s.entries, λ d. d)
  | inr new ↦ elim (Bool-cases memory) [
    | inl given ↦
        subst (Good s) {x = record s { entries = s.entries ++ (fresh_entry id ∷ []) }} {y = s'}
          (some_cancel (ground (arith, new, given, h)))
          (
            Keeps-snoc s.entries (fresh_entry id),
            λ d.
                subst Distinct (sym (stream_ids-snoc s.entries (fresh_entry id))) (
                  Distinct-snoc (stream_ids s.entries) id d (contains-stream_ids id s.entries new)),
          )
    | inr out ↦ absurd (ground (arith, new, out, h))
  ]
]

on_entry-Good :
    (reserved : Option Service) (id : ℕ) (f : Entry → Bool × Entry) (s : Service)
    → Forward f
    → ((s' : Service) → reserved ≡ some s' → Good s s')
    → Good s (on_entry reserved id f s).1
on_entry-Good none id f s forward h = (Keeps-self s.entries, λ d. d)
on_entry-Good (some s') id f s forward h =
    elim (Option-cases (find_first (is_stream id) s'.entries)) [
      | inl missing ↦ rw (missing, on_entry) (h s' refl)
      | inr (e, found) ↦
          rw (found, on_entry)
            (
              Keeps-trans s.entries s'.entries _ (h s' refl).0
                  (Keeps-update f forward id s'.entries),
              λ d.
                  subst Distinct (sym (stream_ids-update f forward id s'.entries))
                    ((h s' refl).1 d),
            )
    ]

apply_announce-Good :
    (memory pool_memory : Bool) (now : ℕ) (s : Service) (a : PoolAnnounce)
    → Good s (apply_announce memory pool_memory now s a).1
unfolding apply_announce
apply_announce-Good memory pool_memory now s a =
    elim (Bool-cases (
      (a.stream_id == 0)
      || not (a.header_slot_bytes == 256)
      || (length a.pools == 0)
      || (a.header_nslots == 0))) [
        | inl bad ↦ rw bad (Keeps-self s.entries, λ d. d)
        | inr good ↦ rw good (
            on_entry-Good (reserve memory s a.stream_id) a.stream_id
              (announce_entry pool_memory now a) s (announce_entry-Forward pool_memory now a)
              (λ s'. reserve-Good memory s s' a.stream_id))
      ]

apply_data_source-Good :
    (memory : Bool) (now : ℕ) (s : Service) (a : DataSourceAnnounce)
    → Good s (apply_data_source memory now s a).1
unfolding apply_data_source
apply_data_source-Good memory now s a = elim (Bool-cases (a.stream_id == 0)) [
  | inl bad ↦ rw bad (Keeps-self s.entries, λ d. d)
  | inr good ↦ rw good (
      on_entry-Good (reserve memory s a.stream_id) a.stream_id (data_source_entry now a) s
        (data_source_entry-Forward now a) (λ s'. reserve-Good memory s s' a.stream_id))
]

set_tags-Good :
    (memory tag_memory : Bool) (now : ℕ) (s : Service) (id : ℕ) (texts : List (List ℕ))
    → Good s (set_tags memory tag_memory now s id texts).1
unfolding set_tags
set_tags-Good memory tag_memory now s id texts = elim (Bool-cases (id == 0)) [
  | inl bad ↦ rw bad (Keeps-self s.entries, λ d. d)
  | inr good ↦ rw good (
      on_entry-Good (reserve memory s id) id (tag_entry tag_memory now texts) s
        (tag_entry-Forward tag_memory now texts) (λ s'. reserve-Good memory s s' id))
]

contains-prune_loop :
    (id now expiry : ℕ) (entries : List Entry)
    → contains id (stream_ids entries) ≡ false
    → contains id (stream_ids (prune_loop now expiry entries)) ≡ false
unfolding prune_loop
contains-prune_loop id now expiry [] h = refl
contains-prune_loop id now expiry (y ∷ entries) h =
    ground (arith, h, contains-prune_loop id now expiry entries)

prune_loop-OneEach :
    (now expiry : ℕ) (entries : List Entry)
    → OneEach entries
    → OneEach (prune_loop now expiry entries)
unfolding prune_loop
prune_loop-OneEach now expiry [] h = h
prune_loop-OneEach now expiry (y ∷ entries) h = elim (Bool-cases (is_expired now expiry y)) [
  | inl old ↦ rw old (prune_loop-OneEach now expiry entries h.1)
  | inr kept ↦ rw kept (
    contains-prune_loop y.stream_id now expiry entries h.0,
    prune_loop-OneEach now expiry entries h.1,
  )
]

query-pruned :
    (memory : Bool) (prune_ns now : ℕ) (s : Service) (request : Request)
    → (query memory prune_ns now s request).1 ≡ prune_expired prune_ns s
unfolding query
query-pruned memory prune_ns now s request = ground arith

step-OneEach : (s : Service) (e : Event) → OneEach s.entries → OneEach (step s e).entries
unfolding step prune_expired
step-OneEach s (announces memory pool_memory now a) d =
    (apply_announce-Good memory pool_memory now s a).1 d
step-OneEach s (names memory now a) d = (apply_data_source-Good memory now s a).1 d
step-OneEach s (tags memory tag_memory now id texts) d =
    (set_tags-Good memory tag_memory now s id texts).1 d
step-OneEach s (works now) d = prune_loop-OneEach now (expiry_ns s) s.entries d
step-OneEach s (asks memory prune_ns now request) d =
    rw (query-pruned memory prune_ns now s request)
      (prune_loop-OneEach prune_ns (expiry_ns s) s.entries d)

-- In a table where no two entries have the same stream, no two have after any sequence of
-- announcements, names, tags, searches and rounds of work.
pub run_events_distinct :
    (s : Service) (events : List Event)
    → Distinct (stream_ids s.entries)
    → Distinct (stream_ids (run_events s events).entries)
unfolding run_events
run_events_distinct s [] d = d
run_events_distinct s (e ∷ events) d = run_events_distinct (step s e) events (step-OneEach s e d)

-- All but a search and a round of work, which remove the entries that are too old.
abbrev pub is_update : Event → Bool
is_update (announces memory pool_memory now a) = true
is_update (names memory now a) = true
is_update (tags memory tag_memory now id texts) = true
is_update (asks memory prune_ns now request) = false
is_update (works now) = false

step-Keeps : (s : Service) (e : Event) → is_update e ≡ true → Keeps s.entries (step s e).entries
unfolding step
step-Keeps s (announces memory pool_memory now a) h =
    (apply_announce-Good memory pool_memory now s a).0
step-Keeps s (names memory now a) h = (apply_data_source-Good memory now s a).0
step-Keeps s (tags memory tag_memory now id texts) h =
    (set_tags-Good memory tag_memory now s id texts).0
step-Keeps s (asks memory prune_ns now request) h = cc
step-Keeps s (works now) h = cc

run_events-Keeps :
    (s : Service) (events : List Event)
    → All (λ e. is_update e ≡ true) events
    → Keeps s.entries (run_events s events).entries
unfolding run_events
run_events-Keeps s [] updates = Keeps-self s.entries
run_events-Keeps s (e ∷ events) updates =
    Keeps-trans s.entries (step s e).entries _ (step-Keeps s e updates.0)
      (run_events-Keeps (step s e) events updates.1)

-- A stream that the table has an entry for has one after any announcements, names and tags,
-- whatever epochs they carry and whether or not memory is given, and the epoch of its entry is not
-- less than before.
pub run_events_epoch :
    (s : Service) (events : List Event) (stream_id : ℕ) (e : Entry)
    → All (λ event. is_update event ≡ true) events
    → find_entry s stream_id ≡ some e
    → (e' : Entry) × ((find_entry (run_events s events) stream_id ≡ some e') × (e.epoch ≤ e'.epoch))
unfolding find_entry
run_events_epoch s events stream_id e updates h = elim (Bool-cases (stream_id == 0)) [
  | inl zero_id ↦ absurd (ground (arith, zero_id, h))
  | inr set_id ↦
      let (e', (at, le)) =
        run_events-Keeps s events updates stream_id e (ground (arith, set_id, h)) in
      (e', (ground (arith, set_id, at), le))
]
