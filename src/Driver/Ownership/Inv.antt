-- ===== src/Driver/Ownership/Inv.antt =====
-- The invariant of the lease table of src/driver/tp_driver.c.
use tensor_pool_c.Common.{
  ℕ, ◌≢◌, ◌<◌, ◌≤◌, ◌≡◌, ◌⊎◌, refl, Bool, true, false, ◌&&◌, List, [], ◌∷◌, map, arith, ◌==◌, any,
  contains, Distinct, All, All-map,
}
use tensor_pool_c.Driver.State.{Lease, Stream, producer, client_id_in_use}
use tensor_pool_c.Driver.Ownership.Holder.{holder, SameHolders}

abbrev pub lease_ids : List Lease → List ℕ
lease_ids leases = map (λ l. l.lease_id) leases

abbrev pub client_ids : List Lease → List ℕ
client_ids leases = map (λ l. l.client_id) leases

-- A lease has an id that the counter has passed and a client; a producer's is the one that its
-- stream records.
pub record IsIssued (streams : List Stream) (counter : ℕ) (l : Lease) : Type 0 where
  pub positive : 0 < l.lease_id
  pub issued : l.lease_id ≤ counter
  pub client : 0 < l.client_id
  pub owns : (l.role ≢ producer) ⊎ (holder streams l.stream_id ≡ l.lease_id)

-- The lease is the producer's lease on stream `x`, with the id `h`.
abbrev pub is_claim : ℕ → ℕ → Lease → Bool
is_claim x h l = (l.lease_id == h) && ((l.stream_id == x) && (l.role == producer))

pub record Inv (streams : List Stream) (leases : List Lease) (counter : ℕ) : Type 0 where
  pub ids : Distinct (lease_ids leases)
  pub clients : Distinct (client_ids leases)
  pub each : All (IsIssued streams counter) leases
  -- what a stream records is a live producer lease on it
  pub held : (x : ℕ) → (holder streams x ≡ 0) ⊎ (any (is_claim x (holder streams x)) leases ≡ true)

-- The invariant sees the streams only through their holders, and the counter may grow.
pub Inv-SameHolders :
    {ss ts : List Stream} {leases : List Lease} {m n : ℕ}
    → SameHolders ss ts
    → m ≤ n
    → Inv ss leases m
    → Inv ts leases n
Inv-SameHolders {ss} {ts} {leases} {m} {n} same grow inv = record {
  ids = inv.ids;
  clients = inv.clients;
  each = All-map leases keep inv.each;
  held = λ x. rw (same x) (inv.held x);
}
  where
    keep : (l : Lease) → IsIssued ss m l → IsIssued ts n l
    keep l h = record {
      positive = h.positive;
      issued = omega arith;
      client = h.client;
      owns = rw (same l.stream_id) h.owns;
    }

pub client_id_in_use-contains :
    (leases : List Lease) (c : ℕ)
    → client_id_in_use leases c ≡ false
    → (0 < c) × (contains c (client_ids leases) ≡ false)
unfolding client_id_in_use
client_id_in_use-contains [] c h = ground arith
client_id_in_use-contains (l ∷ leases) c h = ground (arith, client_id_in_use-contains leases c)

pub fresh-contains :
    (streams : List Stream) (n m : ℕ) (leases : List Lease)
    → n < m
    → All (IsIssued streams n) leases
    → contains m (lease_ids leases) ≡ false
fresh-contains streams n m [] lt h = refl
fresh-contains streams n m (l ∷ leases) lt h =
    ground (arith, h.0.issued, fresh-contains streams n m leases lt h.1)
