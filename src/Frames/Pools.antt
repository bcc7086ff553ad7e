-- ===== src/Frames/Pools.antt =====
-- The choice of a pool in src/client/tp_producer.c.
use tensor_pool_c.Common.{
  ℕ, ◌<◌, ◌≤◌, ◌≡◌, ◌⊎◌, inl, inr, refl, sym, ap, suc, get_elem?, Option, none, some, List, [], ◌∷◌,
  arith, ltb, leb, All, Bool-cases,
}
use tensor_pool_c.Frames.Publish.{Pool, fitting, find_pool_for_length}

-- The pool is the one at some index.
abbrev pub IsAmong : Pool → List Pool → Type 0
IsAmong p pools = (i : ℕ) × (get_elem? pools i ≡ some p)

-- Every pool is too small, or the one that was found is one of them and large enough, and no
-- smaller one is large enough.
abbrev pub SmallestFit : List Pool → ℕ → Option Pool → Type 0
SmallestFit pools len none = All (λ p. p.stride_bytes < len) pools
SmallestFit pools len (some best) =
    IsAmong best pools
    × (len ≤ best.stride_bytes)
    × All (λ p. (p.stride_bytes < len) ⊎ (best.stride_bytes ≤ p.stride_bytes)) pools

-- With the best so far, which is large enough.
record StillFit (pools : List Pool) (len : ℕ) (b : Pool) (out : Option Pool) : Type 0 where
  p : Pool
  is : out ≡ some p
  from : (p ≡ b) ⊎ IsAmong p pools
  le : p.stride_bytes ≤ b.stride_bytes
  fit : len ≤ p.stride_bytes
  rest : All (λ q. (q.stride_bytes < len) ⊎ (p.stride_bytes ≤ q.stride_bytes)) pools

-- Where the best so far is the first pool, or stays from before.
IsAmong-first : (p b : Pool) (pools : List Pool) → (p ≡ b) ⊎ IsAmong p pools → IsAmong p (b ∷ pools)
IsAmong-first p b pools (inl e) = (0, ap (λ q. some q) (sym e))
IsAmong-first p b pools (inr (i, e)) = (suc i, e)

IsAmong-rest :
    (p b k : Pool) (pools : List Pool) → (p ≡ b) ⊎ IsAmong p pools → (p ≡ b) ⊎ IsAmong p (k ∷ pools)
IsAmong-rest p b k pools (inl e) = inl e
IsAmong-rest p b k pools (inr (i, e)) = inr (suc i, e)

find-StillFit :
    (pools : List Pool) (len : ℕ) (b : Pool)
    → len ≤ b.stride_bytes
    → StillFit pools len b (find_pool_for_length pools len (some b))
unfolding find_pool_for_length fitting
find-StillFit [] len b fits = record {
  p = b;
  is = refl;
  from = inl refl;
  le = omega arith;
  fit = fits;
  rest = tt;
}
find-StillFit (k ∷ pools) len b fits = elim (Bool-cases (leb len k.stride_bytes)) [
  | inr small ↦
      let s = find-StillFit pools len b fits in
      record {
        p = s.p;
        is = rw (small) s.is;
        from = IsAmong-rest s.p b k pools s.from;
        le = s.le;
        fit = s.fit;
        rest = (inl (ground arith), s.rest);
      }
  | inl large ↦ elim (Bool-cases (ltb k.stride_bytes b.stride_bytes)) [
    | inl better ↦
        let s = find-StillFit pools len k (ground arith) in
        record {
          p = s.p;
          is = rw (large, better) s.is;
          from = inr (IsAmong-first s.p k pools s.from);
          le = ground (arith, s.le, better);
          fit = s.fit;
          rest = (inr s.le, s.rest);
        }
    | inr worse ↦
        let s = find-StillFit pools len b fits in
        record {
          p = s.p;
          is = rw (large, worse) s.is;
          from = IsAmong-rest s.p b k pools s.from;
          le = s.le;
          fit = s.fit;
          rest = (inr (ground (arith, s.le, worse)), s.rest);
        }
  ]
]

-- tp_find_pool_for_length finds one of the producer's pools, whose stride holds the length, and no
-- pool with a smaller stride does; it finds none exactly where every pool is too small.
pub find_pool_for_length-smallest :
    (pools : List Pool) (len : ℕ) → SmallestFit pools len (find_pool_for_length pools len none)
unfolding find_pool_for_length fitting
find_pool_for_length-smallest [] len = tt
find_pool_for_length-smallest (p ∷ pools) len = elim (Bool-cases (leb len p.stride_bytes)) [
  | inr small ↦ rw small (
      passed (ground arith) (find_pool_for_length pools len none)
        (find_pool_for_length-smallest pools len))
  | inl large ↦
      let s = find-StillFit pools len p (ground arith) in
      rw (large) (rw s.is (IsAmong-first s.p p pools s.from, s.fit, (inr s.le, s.rest)))
]
  where
    passed :
        p.stride_bytes < len
        → (out : Option Pool) → SmallestFit pools len out
        → SmallestFit (p ∷ pools) len out
    passed small none h = (small, h)
    passed small (some q) (among, fit, rest) = ((suc among.0, among.1), fit, (inl small, rest))
