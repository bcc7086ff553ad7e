-- ===== src/Progress/Turns.antt =====
-- The cursor of a poller of progress messages (src/client/tp_progress_poller.c) goes around.
use native.Mathlib.Nat.{mod-eq_of_lt, mod_self}
use native.Mathlib.Decide.{dec_lt}
use tensor_pool_c.Common.{
  ℕ, suc, ◌+◌, ◌-◌, ◌%◌, ◌<◌, ◌≤◌, ◌≡◌, ◌≢◌, ap, ◌∙◌, arith, leb, if◌then◌else◌,
}

-- How many new frames the cursor takes before it comes to entry `j`.
abbrev pub before_turn : (capacity cursor j : ℕ) → ℕ
before_turn capacity cursor j = if leb cursor j then j - cursor else j + capacity - cursor

-- A turn of the cursor.
pub next_turn :
    (capacity cursor j turns : ℕ)
    → cursor < capacity
    → j < capacity
    → suc turns ≤ before_turn capacity cursor j
    → ((cursor + 1) % capacity < capacity)
      × (turns ≤ before_turn capacity ((cursor + 1) % capacity) j)
      × (cursor ≢ j)
next_turn capacity cursor j turns below j_below turn = elim (dec_lt (cursor + 1) capacity) [
  | yes inside ↦
      rw (mod-eq_of_lt inside) (inside, ground (arith, inside, turn), ground (arith, turn))
  | no last ↦
      let around : (cursor + 1) % capacity ≡ 0 =
        ap (λ (n : ℕ). n % capacity) {x = cursor + 1} {y = capacity} (omega (arith, last))
        ∙ mod_self capacity in
      rw around (omega arith, ground (arith, last, turn), ground (arith, turn))
]

pub full_turn :
    (capacity cursor turns : ℕ)
    → cursor < capacity
    → suc turns ≤ capacity
    → ((cursor + 1) % capacity < capacity)
      × (turns ≤ before_turn capacity ((cursor + 1) % capacity) cursor)
full_turn capacity cursor turns below few = elim (dec_lt (cursor + 1) capacity) [
  | yes inside ↦ rw (mod-eq_of_lt inside) (inside, ground (arith, inside, few))
  | no last ↦
      let around : (cursor + 1) % capacity ≡ 0 =
        ap (λ (n : ℕ). n % capacity) {x = cursor + 1} {y = capacity} (omega (arith, last))
        ∙ mod_self capacity in
      rw around (omega arith, ground (arith, last, few))
]
