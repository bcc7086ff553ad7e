-- ===== src/Progress/Entries.antt =====
-- The entries of a poller of progress messages (src/client/tp_progress_poller.c).
use tensor_pool_c.Common.{
  ℕ, zero, suc, ◌<◌, ◌≤◌, ◌≡◌, ◌≢◌, ◌⊎◌, inl, inr, refl, subst, true, false, none, some, List, [],
  ◌∷◌, arith, length, get_elem?, set, find_first, update_first, All, Bool-cases, some_cancel,
}
use tensor_pool_c.Progress.Poller.{FrameProgress, Entry, is_for, advance}

-- The entry is not for the frame of `v`, or has at least its bytes.
abbrev pub Safe : FrameProgress → Entry → Type 0
Safe v e = (is_for v e ≡ false) ⊎ (v.payload_bytes_filled ≤ e.last_bytes)

pub set-Safe :
    (v : FrameProgress) (xs : List Entry) (i : ℕ) (e : Entry)
    → All (Safe v) xs
    → Safe v e
    → All (Safe v) (set xs i e)
set-Safe v [] i e h s = tt
set-Safe v (x ∷ xs) zero e h s = (s, h.1)
set-Safe v (x ∷ xs) (suc i) e h s = (h.0, set-Safe v xs i e h.1 s)

pub length-update_first :
    (w : FrameProgress) (xs : List Entry)
    → length (update_first (is_for w) (advance w) xs) ≡ length xs
length-update_first w [] = refl
length-update_first w (x ∷ xs) = ground (arith, length-update_first w xs)

-- The entry of a frame stays where it is.
pub update_first_keeps :
    (v w : FrameProgress) (xs : List Entry) (j : ℕ) (e : Entry)
    → get_elem? xs j ≡ some e
    → is_for v e ≡ true
    → (e' : Entry) × ((get_elem? (update_first (is_for w) (advance w) xs) j ≡ some e')
        × (is_for v e' ≡ true))
update_first_keeps v w [] j e at own = cc
update_first_keeps v w (x ∷ xs) zero e at own = elim (Bool-cases (is_for w x)) [
  | inl same ↦ (advance w x, (ground (arith, same), ground (arith, at, own)))
  | inr differ ↦ (x, (ground (arith, differ), ground (arith, at, own)))
]
update_first_keeps v w (x ∷ xs) (suc j) e at own = elim (Bool-cases (is_for w x)) [
  | inl same ↦ (e, (ground (arith, same, at), own))
  | inr differ ↦
      let (e', (at', own')) = update_first_keeps v w xs j e at own in
      (e', (ground (arith, differ, at'), own'))
]

-- An entry that is for a frame is found, or one before it.
pub find_first_finds :
    (v : FrameProgress) (xs : List Entry) (j : ℕ) (e : Entry)
    → get_elem? xs j ≡ some e
    → is_for v e ≡ true
    → find_first (is_for v) xs ≢ none
find_first_finds v [] j e at own = cc
find_first_finds v (x ∷ xs) zero e at own = ground (arith, at, own)
find_first_finds v (x ∷ xs) (suc j) e at own = ground (arith, find_first_finds v xs j e at own)

-- The entry that is found is for the frame, and safe as all are.
pub find_first-Safe :
    (v u : FrameProgress) (xs : List Entry) (e : Entry)
    → All (Safe v) xs
    → find_first (is_for u) xs ≡ some e
    → (is_for u e ≡ true) × Safe v e
find_first-Safe v u [] e h found = cc
find_first-Safe v u (x ∷ xs) e h found = elim (Bool-cases (is_for u x)) [
  | inl same ↦ subst (λ z. (is_for u z ≡ true) × Safe v z) (some_cancel (hit same)) (same, h.0)
  | inr differ ↦ find_first-Safe v u xs e h.1 (ground (arith, found, differ))
]
  where
    hit : is_for u x ≡ true → some x ≡ some e
    hit same = ground (arith, same, found)

pub advance-Safe :
    (v w : FrameProgress) (xs : List Entry) (e : Entry)
    → All (Safe v) xs
    → find_first (is_for w) xs ≡ some e
    → e.last_bytes ≤ w.payload_bytes_filled
    → All (Safe v) (update_first (is_for w) (advance w) xs)
advance-Safe v w [] e h first up = tt
advance-Safe v w (x ∷ xs) e h first up = elim (Bool-cases (is_for w x)) [
  | inl same ↦ rw same (
    elim h.0 [
      | inl other ↦ inl (ground (arith, other))
      | inr le ↦ inr (ground (arith, le, first, same, up))
    ],
    h.1,
  )
  | inr differ ↦ rw differ (h.0, advance-Safe v w xs e h.1 (ground (arith, first, differ)) up)
]

pub find_first-none-Safe :
    (v : FrameProgress) (xs : List Entry) → find_first (is_for v) xs ≡ none → All (Safe v) xs
find_first-none-Safe v [] h = tt
find_first-none-Safe v (x ∷ xs) h =
    (inl (ground (arith, h)), find_first-none-Safe v xs (ground (arith, h)))

pub get_elem?-lt : (xs : List Entry) (i : ℕ) (e : Entry) → get_elem? xs i ≡ some e → i < length xs
get_elem?-lt [] i e h = cc
get_elem?-lt (x ∷ xs) zero e h = omega arith
get_elem?-lt (x ∷ xs) (suc i) e h = omega (arith, get_elem?-lt xs i e h)
