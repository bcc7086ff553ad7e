-- ===== src/Driver/Ownership/Resolve.antt =====
-- How `tp_driver_handle_attach` finds or creates its stream.
use tensor_pool_c.Common.{
  ℕ, ◌≡◌, ◌⊎◌, inl, inr, refl, ◌∙◌, Option, none, some, List, arith, ◌==◌, Option-cases, if_both,
}
use tensor_pool_c.Driver.State.{Stream, Driver, Env, Code, find_stream, add_stream}
use tensor_pool_c.Driver.Ids.{allocate_stream_id}
use tensor_pool_c.Driver.Ids.Fresh.{allocate_stream_id-free}
use tensor_pool_c.Driver.Attach.{AttachRequest, create_stream, resolve_stream, default_profile}
use tensor_pool_c.Driver.Ownership.Holder.{
  SameHolders, find_stream-stream_id, add_stream-SameHolders,
}

-- What finding or creating the stream leaves alone, and what it finds.
pub record Resolved (d : Driver) (out : Driver × (Code ⊎ Stream)) : Type 0 where
  pub holders : SameHolders d.streams out.0.streams
  pub leases : out.0.leases ≡ d.leases
  pub counter : out.0.lease_counter ≡ d.lease_counter
  pub found : (s : Stream) → out.1 ≡ inr s → find_stream out.0.streams s.stream_id ≡ some s

refused-Resolved : (d : Driver) (code : Code) → Resolved d (d, inl code)
refused-Resolved d code = record {
  holders = λ y. refl;
  leases = refl;
  counter = refl;
  found = λ s h. cc;
}

found_there :
    (streams : List Stream) (x : ℕ) (s : Stream)
    → find_stream streams x ≡ some s
    → find_stream streams s.stream_id ≡ some s
found_there streams x s h = ground (arith, find_stream-stream_id streams x s h)

create_stream-Resolved : (env : Env) (x : ℕ) (d : Driver) → Resolved d (create_stream env x d)
unfolding create_stream
create_stream-Resolved env x d = elim (Option-cases (default_profile d.config)) [
  | inl e ↦ rw (e, create_stream) (refused-Resolved d _)
  | inr p ↦ elim (Option-cases (add_stream env d x p.0)) [
    | inl e ↦ rw (p.1, create_stream, e) (refused-Resolved d _)
    | inr a ↦
        let added = add_stream-SameHolders env d a.0 x p.0 a.1 in
        rw (p.1, create_stream, a.1)
          (record {
            holders = added.0;
            leases = added.1;
            counter = added.2;
            found = λ s h. elim (Option-cases (find_stream a.0.streams x)) [
              | inl n ↦ ground arith
              | inr t ↦ found_there a.0.streams x s (ground (arith, t.1))
            ];
          })
  ]
]

allocated :
    (env : Env) (d : Driver)
    → Resolved d (elim (allocate_stream_id d) [
      | none ↦ (d, inl Code.invalid_params)
      | some r ↦ create_stream env r.0 r.1
    ])
allocated env d = go (allocate_stream_id d) refl
  where
    go :
        (o : Option (ℕ × Driver))
        → allocate_stream_id d ≡ o
        → Resolved d
            (elim o [ none ↦ (d, inl Code.invalid_params) | some r ↦ create_stream env r.0 r.1 ])
    go none e = refused-Resolved d _
    go (some r) e =
        let same = allocate_stream_id-free d r e in
        let made = create_stream-Resolved env r.0 r.1 in
        record {
          holders = λ y. ground (arith, made.holders y, same.1);
          leases = made.leases ∙ same.2;
          counter = made.counter ∙ same.3;
          found = made.found;
        }

pub resolve_stream-Resolved :
    (env : Env) (req : AttachRequest) (d : Driver) → Resolved d (resolve_stream env req d)
unfolding resolve_stream
resolve_stream-Resolved env req d = elim (Option-cases (find_stream d.streams req.stream_id)) [
  | inr t ↦
      rw (t.1, resolve_stream)
        (record {
          holders = λ y. refl;
          leases = refl;
          counter = refl;
          found = λ s h. found_there d.streams req.stream_id s (ground (arith, t.1));
        })
  | inl e ↦
      rw (e, resolve_stream)
        (if_both (Resolved d) _
          (λ _.
            if_both (Resolved d) (req.stream_id == 0) (λ _. allocated env d)
              (λ _. create_stream-Resolved env req.stream_id d))
          (λ _. refused-Resolved d Code.rejected))
]

pub resolve_stream-counter :
    (env : Env) (req : AttachRequest) (d : Driver)
    → (resolve_stream env req d).0.lease_counter ≡ d.lease_counter
resolve_stream-counter env req d = (resolve_stream-Resolved env req d).counter
