-- ===== src/Driver/Ownership/Holder.antt =====
-- The producer lease that a stream of src/driver/tp_driver.c records, under the operations on the
-- stream table.
use tensor_pool_c.Common.{
  ℕ, ◌≡◌, ◌≢◌, refl, none, some, List, [], ◌∷◌, ◌++◌, arith, ◌==◌, if◌then◌else◌, find_first,
  update_first,
}
use tensor_pool_c.Driver.State.{
  Stream, Driver, Env, find_stream, update_stream, add_stream, bump_epoch, create_shm_epoch,
  Profile,
}

-- 0 where no producer holds the stream, or the stream is not there.
abbrev pub holder : List Stream → ℕ → ℕ
holder streams stream_id = elim (find_stream streams stream_id) [
  | none ↦ 0
  | some s ↦ s.producer_lease_id
]

pub find_stream-stream_id :
    (streams : List Stream) (x : ℕ) (s : Stream)
    → find_stream streams x ≡ some s
    → (s.stream_id ≡ x) × (x ≢ 0)
unfolding find_stream
find_stream-stream_id [] x s h = ground arith
find_stream-stream_id (t ∷ streams) x s h = ground (arith, find_stream-stream_id streams x s)

find_first-update_first :
    (streams : List Stream) (y x : ℕ) (f : Stream → Stream) (s : Stream)
    → find_first (λ t. t.stream_id == y) streams ≡ some s
    → (f s).stream_id ≡ y
    → find_first (λ t. t.stream_id == x) (update_first (λ t. t.stream_id == y) f streams)
      ≡ (if x == y then some (f s) else find_first (λ t. t.stream_id == x) streams)
find_first-update_first [] y x f s h k = cc
find_first-update_first (t ∷ streams) y x f s h k =
    ground (arith, find_first-update_first streams y x f s)

-- A write through the pointer to stream `y` shows at `y` and nowhere else.
pub find_stream-update_stream :
    (streams : List Stream) (y x : ℕ) (f : Stream → Stream) (s : Stream)
    → find_stream streams y ≡ some s
    → (f s).stream_id ≡ y
    → find_stream (update_stream y f streams) x
      ≡ (if x == y then some (f s) else find_stream streams x)
unfolding find_stream update_stream
find_stream-update_stream streams y x f s h k =
    ground (arith, find_first-update_first streams y x f s)

find_stream-snoc :
    (streams : List Stream) (x : ℕ) (t : Stream)
    → t.producer_lease_id ≡ 0
    → holder (streams ++ (t ∷ [])) x ≡ holder streams x
unfolding find_stream
find_stream-snoc [] x t h = ground arith
find_stream-snoc (s ∷ streams) x t h = ground (arith, find_stream-snoc streams x t h)

-- No stream changes hands.
abbrev pub SameHolders : List Stream → List Stream → Type 0
SameHolders ss ts = (x : ℕ) → holder ts x ≡ holder ss x

pub add_stream-SameHolders :
    (env : Env) (d e : Driver) (x : ℕ) (p : Profile)
    → add_stream env d x p ≡ some e
    → SameHolders d.streams e.streams
      × (e.leases ≡ d.leases)
      × (e.lease_counter ≡ d.lease_counter)
      × (e.config ≡ d.config)
unfolding add_stream
add_stream-SameHolders env d e x p h = (
  λ y. ground (
    arith,
    find_stream-snoc d.streams y
        (record {
          stream_id = x;
          profile = some p;
          epoch = 0;
          epoch_created_ns = 0;
          producer_lease_id = 0;
          producer_client_id = 0;
          require_hugepages = d.config.require_hugepages;
        })
        refl,
  ),
  ground arith,
  ground arith,
  ground arith,
)

-- Such a write keeps every holder, if it keeps the stream's.
pub update_stream-SameHolders :
    (streams : List Stream) (y : ℕ) (f : Stream → Stream) (s : Stream)
    → find_stream streams y ≡ some s
    → (f s).stream_id ≡ y
    → (f s).producer_lease_id ≡ s.producer_lease_id
    → SameHolders streams (update_stream y f streams)
update_stream-SameHolders streams y f s h k e x =
    ground (arith, find_stream-update_stream streams y x f s h k)

-- A new epoch is the same stream with the same producer.
pub bump_epoch-same :
    (now : ℕ) (s : Stream)
    → ((bump_epoch now s).stream_id ≡ s.stream_id)
      × ((bump_epoch now s).producer_lease_id ≡ s.producer_lease_id)
      × ((bump_epoch now s).profile ≡ s.profile)
unfolding bump_epoch
bump_epoch-same now s = ground arith

pub create_shm_epoch-same :
    (env : Env) (k : ℕ) (s : Stream)
    → ((create_shm_epoch env k s).0.stream_id ≡ s.stream_id)
      × ((create_shm_epoch env k s).0.producer_lease_id ≡ s.producer_lease_id)
      × ((create_shm_epoch env k s).0.epoch ≡ s.epoch)
unfolding create_shm_epoch
create_shm_epoch-same env k s = ground arith
