-- ===== src/Driver/Ownership/Tables.antt =====
-- Adding a lease and removing one keep the invariant of the lease table.
use tensor_pool_c.Common.{
  ℕ, ◌<◌, ◌≡◌, ◌≢◌, false, ◌&&◌, some, List, [], ◌∷◌, ◌++◌, arith, ◌==◌, if◌then◌else◌, contains,
  All, get_elem?, remove_at, Distinct-snoc, Distinct-remove_at, All-append, All-map, All-both,
  All-remove_at, map-remove_at, contains-remove_at_self, any-append, any-remove_at, get_elem?-map,
}
use mathlib.Core.List.{map-append}
use tensor_pool_c.Driver.State.{
  Lease, Stream, producer, find_stream, update_stream, client_id_in_use, release_producer,
}
use tensor_pool_c.Driver.Attach.{take_stream}
use tensor_pool_c.Driver.Ownership.Holder.{holder, find_stream-update_stream, find_stream-stream_id}
use tensor_pool_c.Driver.Ownership.Inv.{
  lease_ids, client_ids, IsIssued, is_claim, Inv, client_id_in_use-contains, fresh-contains,
}

take_stream-same :
    (l : Lease) (s : Stream)
    → ((take_stream l s).stream_id ≡ s.stream_id)
      × ((take_stream l s).producer_lease_id
          ≡ (if l.role == producer then l.lease_id else s.producer_lease_id))
unfolding take_stream
take_stream-same l s = ground arith

module _ (streams : List Stream) (l : Lease) (s : Stream)
    (found : find_stream streams l.stream_id ≡ some s) where
  taken : List Stream
  taken = update_stream l.stream_id (take_stream l) streams

  pub holder-taken :
      (x : ℕ)
      → holder (update_stream l.stream_id (take_stream l) streams) x
        ≡ (if (x == l.stream_id) && (l.role == producer) then l.lease_id else holder streams x)
  holder-taken x = ground (
    arith,
    take_stream-same l s,
    find_stream-stream_id streams l.stream_id s found,
    find_stream-update_stream streams l.stream_id x (take_stream l) s found,
  )

-- A lease with the next id, for a client that has none, on a stream that no producer holds if the
-- lease is a producer's, keeps the invariant.
pub add_lease-Inv :
    (streams : List Stream) (leases : List Lease) (n : ℕ) (l : Lease) (s : Stream)
    → Inv streams leases n
    → n < l.lease_id
    → client_id_in_use leases l.client_id ≡ false
    → find_stream streams l.stream_id ≡ some s
    → (l.role ≡ producer → s.producer_lease_id ≡ 0)
    → Inv (update_stream l.stream_id (take_stream l) streams) (leases ++ (l ∷ [])) l.lease_id
add_lease-Inv streams leases n l s inv next unused found vacant = record {
  ids = rw (map-append (λ k. k.lease_id) leases (l ∷ [])) (
      Distinct-snoc (lease_ids leases) l.lease_id inv.ids
        (fresh-contains streams n l.lease_id leases next inv.each));
  clients = rw (map-append (λ k. k.client_id) leases (l ∷ [])) (
      Distinct-snoc (client_ids leases) l.client_id inv.clients
        (client_id_in_use-contains leases l.client_id unused).1);
  each = All-append _ leases (l ∷ []) (All-map leases keep inv.each) (new, tt);
  held = λ x. ground (
    arith,
    holder-taken streams l s found x,
    inv.held x,
    any-append (is_claim x (holder streams x)) leases (l ∷ []),
    any-append (is_claim x l.lease_id) leases (l ∷ []),
  );
}
  where
    keep :
        (k : Lease)
        → IsIssued streams n k
        → IsIssued (update_stream l.stream_id (take_stream l) streams) l.lease_id k
    keep k h = record {
      positive = h.positive;
      issued = omega (arith, h.issued);
      client = h.client;
      owns = ground (arith, holder-taken streams l s found k.stream_id, h.owns, h.positive);
    }

    new : IsIssued (update_stream l.stream_id (take_stream l) streams) l.lease_id l
    new = record {
      positive = omega arith;
      issued = omega arith;
      client = (client_id_in_use-contains leases l.client_id unused).0;
      owns = ground (arith, holder-taken streams l s found l.stream_id);
    }

holder-release :
    (streams : List Stream) (y id x : ℕ)
    → holder (update_stream y (release_producer id) streams) x
      ≡ (if (x == y) && (holder streams x == id) then 0 else holder streams x)
unfolding update_stream find_stream release_producer
holder-release [] y id x = ground arith
holder-release (s ∷ streams) y id x = ground (arith, holder-release streams y id x)

absent :
    (a : ℕ) (leases : List Lease)
    → contains a (lease_ids leases) ≡ false
    → All (λ k. k.lease_id ≢ a) leases
absent a [] h = tt
absent a (k ∷ leases) h = (ground arith, absent a leases (ground arith))

-- Removing a lease, with the release of its stream, keeps the invariant.
pub remove_lease-Inv :
    (streams : List Stream) (leases : List Lease) (n i : ℕ) (l : Lease)
    → Inv streams leases n
    → get_elem? leases i ≡ some l
    → Inv (update_stream l.stream_id (release_producer l.lease_id) streams) (remove_at i leases) n
remove_lease-Inv streams leases n i l inv at = record {
  ids =
      rw (map-remove_at (λ k. k.lease_id) i leases)
        (Distinct-remove_at i (lease_ids leases) inv.ids);
  clients =
      rw (map-remove_at (λ k. k.client_id) i leases)
        (Distinct-remove_at i (client_ids leases) inv.clients);
  each =
      All-both (remove_at i leases) keep (All-remove_at _ i leases inv.each)
        (absent l.lease_id (remove_at i leases) gone);
  held = λ x. ground (
    arith,
    holder-release streams l.stream_id l.lease_id x,
    inv.held x,
    any-remove_at (is_claim x (holder streams x)) i leases l at,
  );
}
  where
    gone : contains l.lease_id (lease_ids (remove_at i leases)) ≡ false
    gone = rw (map-remove_at (λ k. k.lease_id) i leases) (
        contains-remove_at_self (lease_ids leases) i l.lease_id inv.ids
          (get_elem?-map (λ k. k.lease_id) leases i l at))

    keep :
        (k : Lease)
        → IsIssued streams n k
        → k.lease_id ≢ l.lease_id
        → IsIssued (update_stream l.stream_id (release_producer l.lease_id) streams) n k
    keep k h ne = record {
      positive = h.positive;
      issued = h.issued;
      client = h.client;
      owns = ground (arith, holder-release streams l.stream_id l.lease_id k.stream_id, h.owns);
    }
