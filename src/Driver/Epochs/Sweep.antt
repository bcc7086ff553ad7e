-- ===== src/Driver/Epochs/Sweep.antt =====
-- The expiry sweep of src/driver/tp_driver.c drops the expired leases and no other.
use mathlib.Core.List.{append_assoc}
use tensor_pool_c.Common.{
  ℕ, ◌≡◌, refl, ◌∙◌, inl, inr, some, List, [], ◌∷◌, ◌++◌, arith, if◌then◌else◌, length,
  length-append, get_elem?, remove_at, get_elem?-middle, remove_at-middle, Bool-cases,
}
use tensor_pool_c.Driver.State.{Lease, Driver, Env, remove_lease}
use tensor_pool_c.Driver.Cooldowns.{record_cooldown}
use tensor_pool_c.Driver.Leases.{
  end_lease, advance_epoch, is_expired, expire_lease, expire_loop, handle_expired_leases,
}

-- The leases that have not expired, in order.
abbrev pub live : ℕ → List Lease → List Lease
live now [] = []
live now (l ∷ leases) = if is_expired now l then live now leases else l ∷ live now leases

expire_lease-leases :
    (env : Env) (k i : ℕ) (l : Lease) (d : Driver)
    → (expire_lease env k i l d).0.leases ≡ remove_at i d.leases
unfolding expire_lease advance_epoch end_lease remove_lease record_cooldown
expire_lease-leases env k i l d = ground arith

expire_loop-live :
    (env : Env) (done ls : List Lease) (d : Driver)
    → d.leases ≡ done ++ ls
    → (expire_loop (length ls) (length done) env d).0.leases ≡ done ++ live env.now ls
unfolding expire_loop
expire_loop-live env done [] d e = e
expire_loop-live env done (l ∷ ls) d e =
    let here : get_elem? d.leases (length done) ≡ some l = rw e (get_elem?-middle l ls done) in
    let dropped : (expire_lease env (length ls) (length done) l d).0.leases ≡ done ++ ls =
      expire_lease-leases env (length ls) (length done) l d ∙ rw e (remove_at-middle l ls done) in
    elim (Bool-cases (is_expired env.now l)) [
      | inl over ↦ ground (
        arith,
        here,
        over,
        expire_loop-live env done ls (expire_lease env (length ls) (length done) l d).0 dropped,
      )
      | inr runs ↦ ground (
        arith,
        here,
        runs,
        length-append done (l ∷ []),
        append_assoc done (l ∷ []) ls,
        append_assoc done (l ∷ []) (live env.now ls),
        expire_loop-live env (done ++ (l ∷ [])) ls d,
      )
    ]

-- tp_driver_handle_expired_leases ends with exactly the leases that have not expired at its
-- reading of the clock (an expiry of 0 never passes), in their order: its loop visits every lease
-- once, though the table shrinks under it.
pub handle_expired_leases-live :
    (env : Env) (d : Driver) → (handle_expired_leases env d).0.leases ≡ live env.now d.leases
unfolding handle_expired_leases
handle_expired_leases-live env d = expire_loop-live env [] d.leases d refl
