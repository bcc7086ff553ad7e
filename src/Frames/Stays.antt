-- ===== src/Frames/Stays.antt =====
-- While a sequence word of the shared memory is odd and stays, its slot and payload stay too.
use tensor_pool_c.Common.{
  ℕ, zero, suc, ◌+◌, ◌-◌, ◌%◌, ◌^◌, ◌<◌, ◌≤◌, ◌≡◌, inl, inr, refl, sym, ap, ◌∙◌, subst, [], arith,
}
use tensor_pool_c.Frames.Memory.{Memory}
use tensor_pool_c.Frames.Bytes.{IsAddressable}
use tensor_pool_c.Frames.Publish.{Ring, Codec, Frame}
use tensor_pool_c.Frames.Writer.{State, Same, Move, commit_of, run, Inv}
use tensor_pool_c.Frames.Stores.{step-Inv, step-Move, step-next_seq}

-- The moment `d` stores after `t`.
later : ℕ → ℕ → ℕ
later zero t = t
later (suc d) t = suc (later d t)

later-sum : (d t : ℕ) → later d t ≡ d + t
unfolding later
later-sum zero t = omega arith
later-sum (suc d) t = omega (arith, later-sum d t)

module _ {T : Type 0} (codec : Codec T) (ring : Ring) (frames : ℕ → Frame T) (s : State)
    (wide : IsAddressable ring) (blank : (i : ℕ) → commit_of s.memory i ≡ 0)
    (first : s.next_seq ≡ 0) (calm : s.pending ≡ []) where
  abbrev at : ℕ → State
  at t = run codec ring frames t s

  abbrev commit_at : ℕ → ℕ → ℕ
  commit_at t i = commit_of (at t).memory i

  start-Inv : Inv codec ring frames s
  start-Inv = record {
    bound = λ i. ground (arith, blank i);
    shown = λ i k h. absurd (ground (arith, blank i));
    flight = inl calm;
  }

  at-next_seq : (t : ℕ) → t < 2 ^ 62 → (at t).next_seq ≤ t
  unfolding run
  at-next_seq zero small = omega (arith, first)
  at-next_seq (suc t) small =
      step-next_seq codec ring frames (at t) t (omega arith) (at-next_seq t (omega arith))

  pub at-Inv : (t : ℕ) → t < 2 ^ 62 → Inv codec ring frames (at t)
  unfolding run
  at-Inv zero small = start-Inv
  at-Inv (suc t) small =
      step-Inv codec ring frames (at t) wide (at-Inv t (omega arith))
        (omega (arith, at-next_seq t (omega arith)))

  at-Move : (t i : ℕ) → t < 2 ^ 62 → Move ring.pools i (at t).memory (at (suc t)).memory
  unfolding run
  at-Move t i small = step-Move codec ring frames (at t) i (at-Inv t small)

  later-Move :
      (d t i : ℕ)
      → d + t < 2 ^ 62
      → Move ring.pools i (at (later d t)).memory (at (suc (later d t))).memory
  later-Move d t i small = at-Move (later d t) i (omega (arith, later-sum d t))

  -- The sequence word does not go back.
  later_grows : (t d i : ℕ) → d + t < 2 ^ 62 → commit_at t i ≤ commit_at (later d t) i
  unfolding later
  later_grows t zero i small = omega arith
  later_grows t (suc d) i small = elim (later-Move d t i (omega arith)) [
    | inl up ↦ omega (arith, later_grows t d i (omega arith))
    | inr stays ↦ elim stays [
      | inl same ↦ omega (arith, later_grows t d i (omega arith), ap (λ x. x.seq_commit) same.slot)
      | inr (_, kept) ↦ omega (arith, later_grows t d i (omega arith))
    ]
  ]

  Same-trans :
      (i : ℕ) (m m' m'' : Memory)
      → Same ring.pools i m m'
      → Same ring.pools i m' m''
      → Same ring.pools i m m''
  Same-trans i m m' m'' p q = record {
    slot = q.slot ∙ p.slot;
    payload = λ r pool o found low high.
        q.payload r pool o found low high ∙ p.payload r pool o found low high;
  }

  -- While the word is odd and stays, so does all else.
  later_stays :
      (t d i : ℕ)
      → d + t < 2 ^ 62
      → commit_at t i % 2 ≡ 1
      → commit_at (later d t) i ≡ commit_at t i
      → Same ring.pools i (at t).memory (at (later d t)).memory
  unfolding later
  later_stays t zero i small odd same = record {
    slot = refl;
    payload = λ p pool o found low high. refl;
  }
  later_stays t (suc d) i small odd same =
      let low = later_grows t d i (omega arith) in
      elim (later-Move d t i (omega arith)) [
        | inl up ↦ absurd (omega arith)
        | inr stays ↦ elim stays [
          | inl kept ↦
              Same-trans i (at t).memory (at (later d t)).memory (at (suc (later d t))).memory
                (later_stays t d i (omega arith) odd
                  (sym (ap (λ x. x.seq_commit) kept.slot) ∙ same))
                kept
          | inr (is_even, kept) ↦ absurd (omega arith)
        ]
      ]

  later-id : (t t' : ℕ) → t ≤ t' → later (t' - t) t ≡ t'
  later-id t t' le = omega (arith, later-sum (t' - t) t)

  at_grows : (t t' i : ℕ) → t ≤ t' → t' < 2 ^ 62 → commit_at t i ≤ commit_at t' i
  at_grows t t' i le small =
      subst (λ u. commit_at t i ≤ commit_at u i) (later-id t t' le)
        (later_grows t (t' - t) i (omega arith))

  pub at_stays :
      (t t' i : ℕ)
      → t ≤ t'
      → t' < 2 ^ 62
      → commit_at t i % 2 ≡ 1
      → commit_at t' i ≡ commit_at t i
      → Same ring.pools i (at t).memory (at t').memory
  at_stays t t' i le small odd same =
      subst (λ u. Same ring.pools i (at t).memory (at u).memory) (later-id t t' le)
        (later_stays t (t' - t) i (omega arith) odd
          (ap (λ u. commit_at u i) (later-id t t' le) ∙ same))

  pub at_between :
      (t u t' i : ℕ)
      → t ≤ u
      → u ≤ t'
      → t' < 2 ^ 62
      → commit_at t i % 2 ≡ 1
      → commit_at t' i ≡ commit_at t i
      → Same ring.pools i (at t).memory (at u).memory
  at_between t u t' i le le' small odd same =
      at_stays t u i le (omega arith) odd
        (omega (arith, at_grows t u i le (omega arith), at_grows u t' i le' small))
