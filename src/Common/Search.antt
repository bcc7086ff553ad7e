-- ===== src/Common/Search.antt =====
-- Linear searches in a list, as the C code writes them with a loop and a pointer to the hit, and
-- lists of numbers with no repetition.
use Prim.Native.Nat.{ℕ, zero, suc}
use mathlib.Core.Path.{◌≡◌, refl, ap}
use mathlib.Core.Bool.{Bool, true, false, ◌||◌}
use mathlib.Core.List.{List, [], ◌∷◌, ◌++◌}
use mathlib.Core.Option.{Option, none, some}
use native.Mathlib.Omega.{arith}
use tensor_pool_c.Common.Tests.{◌==◌, if◌then◌else◌}
use tensor_pool_c.Common.Lists.{get_elem?, remove_at, some_cancel}

module _ {ℓ} {A : Type ℓ} where
  -- The first element that passes.
  abbrev pub find_first : (A → Bool) → List A → Option A
  find_first p [] = none
  find_first p (x ∷ xs) = if p x then some x else find_first p xs

  -- A write through the pointer to the first element that passes.
  abbrev pub update_first : (A → Bool) → (A → A) → List A → List A
  update_first p f [] = []
  update_first p f (x ∷ xs) = if p x then f x ∷ xs else x ∷ update_first p f xs

  -- The index of the first element that passes; 0 if none does.
  abbrev pub find_index : (A → Bool) → List A → ℕ
  find_index p [] = 0
  find_index p (x ∷ xs) = if p x then 0 else suc (find_index p xs)

  abbrev pub any : (A → Bool) → List A → Bool
  any p [] = false
  any p (x ∷ xs) = p x || any p xs

abbrev pub contains : ℕ → List ℕ → Bool
contains a [] = false
contains a (x ∷ xs) = x == a || contains a xs

abbrev pub Distinct : List ℕ → Type 0
Distinct [] = Unit
Distinct (x ∷ xs) = (contains x xs ≡ false) × Distinct xs

pub contains-append :
    (a : ℕ) (xs ys : List ℕ) → contains a (xs ++ ys) ≡ contains a xs || contains a ys
contains-append a [] ys = refl
contains-append a (x ∷ xs) ys = ground (arith, contains-append a xs ys)

pub contains-remove_at :
    (a i : ℕ) (xs : List ℕ) → contains a xs ≡ false → contains a (remove_at i xs) ≡ false
contains-remove_at a i [] h = refl
contains-remove_at a zero (x ∷ xs) h = ground arith
contains-remove_at a (suc i) (x ∷ xs) h = ground (arith, contains-remove_at a i xs)

pub Distinct-remove_at : (i : ℕ) (xs : List ℕ) → Distinct xs → Distinct (remove_at i xs)
Distinct-remove_at i [] h = h
Distinct-remove_at zero (x ∷ xs) h = h.1
Distinct-remove_at (suc i) (x ∷ xs) h = (contains-remove_at x i xs h.0, Distinct-remove_at i xs h.1)

pub Distinct-snoc :
    (xs : List ℕ) (a : ℕ) → Distinct xs → contains a xs ≡ false → Distinct (xs ++ (a ∷ []))
Distinct-snoc [] a h k = (refl, tt)
Distinct-snoc (x ∷ xs) a h k =
    (ground (arith, contains-append x xs (a ∷ [])), Distinct-snoc xs a h.1 (ground arith))

pub contains-get_elem? : (xs : List ℕ) (i a : ℕ) → get_elem? xs i ≡ some a → contains a xs ≡ true
contains-get_elem? [] i a e = cc
contains-get_elem? (x ∷ xs) zero a e = ground arith
contains-get_elem? (x ∷ xs) (suc i) a e = ground (arith, contains-get_elem? xs i a e)

-- In a list with no repetition a value stands at one index.
pub Distinct-get_elem? :
    (xs : List ℕ) (i j a : ℕ)
    → Distinct xs
    → get_elem? xs i ≡ some a
    → get_elem? xs j ≡ some a
    → i ≡ j
Distinct-get_elem? [] i j a h p q = cc
Distinct-get_elem? (x ∷ xs) zero zero a h p q = refl
Distinct-get_elem? (x ∷ xs) zero (suc j) a h p q = ground (arith, contains-get_elem? xs j a q)
Distinct-get_elem? (x ∷ xs) (suc i) zero a h p q = ground (arith, contains-get_elem? xs i a p)
Distinct-get_elem? (x ∷ xs) (suc i) (suc j) a h p q = ap suc (Distinct-get_elem? xs i j a h.1 p q)

-- What stood at index `i` is gone once it is removed.
pub contains-remove_at_self :
    (xs : List ℕ) (i a : ℕ)
    → Distinct xs
    → get_elem? xs i ≡ some a
    → contains a (remove_at i xs) ≡ false
contains-remove_at_self [] i a h e = refl
contains-remove_at_self (x ∷ xs) zero a h e = ground arith
contains-remove_at_self (x ∷ xs) (suc i) a h e =
    ground (arith, contains-remove_at_self xs i a h.1 e, contains-get_elem? xs i a e)

module _ {ℓ} {A : Type ℓ} where
  pub any-append : (p : A → Bool) (xs ys : List A) → any p (xs ++ ys) ≡ any p xs || any p ys
  any-append p [] ys = refl
  any-append p (x ∷ xs) ys = ground (arith, any-append p xs ys)

  -- Removing an element that fails keeps the answer.
  pub any-remove_at :
      (p : A → Bool) (i : ℕ) (xs : List A) (x : A)
      → get_elem? xs i ≡ some x
      → p x ≡ false
      → any p (remove_at i xs) ≡ any p xs
  any-remove_at p i [] x e h = refl
  any-remove_at p zero (y ∷ xs) x e h = rw (some_cancel e, h)
  any-remove_at p (suc i) (y ∷ xs) x e h = ground (arith, any-remove_at p i xs x e h)
