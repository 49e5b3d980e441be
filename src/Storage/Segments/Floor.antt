-- ===== src/Storage/Segments/Floor.antt =====
-- The segment found is the last one whose base offset is not above the offset.
use kaf_go.Base.{
  ℕ, zero, suc, ◌+◌, ◌-◌, ◌/◌, ◌%◌, ◌^◌, ◌≤◌, ◌<◌, ◌≡◌, refl, arith, true, List, some, get_elem?,
  length,
}
use kaf_go.Base.{ltb, ltb→lt, sle64, rank64, two64, Bool-cases, inl, inr}
use kaf_go.Storage.Search.{
  looked, stop, pred, upto, IsOrdered, upto-le, upto-above, upto-below, get_elem?-total,
}
use kaf_go.Storage.Segments.{probe, search_round, search_loop, find_segment_by_offset}

module _ (bases : List ℕ) (offset : ℕ) (o : IsOrdered bases) (fits : length bases < 2 ^ 62) where
  search_round-stop :
      (l result : ℕ)
      → l ≤ length bases
      → search_round bases offset l (pred l) result ≡ stop (looked result)
  unfolding search_round
  search_round-stop l result h = ground arith

  search_round-probe :
      (l r mid k result : ℕ)
      → l < r
      → r ≤ length bases
      → mid ≡ (l + (r - 1)) / 2
      → get_elem? bases mid ≡ some k
      → search_round bases offset l (pred r) result ≡ probe offset l (pred r) result mid (some k)
  unfolding search_round
  search_round-probe l r mid k result h b m e =
      let inside : sle64 l (pred r) ≡ true = ground arith in
      let middle : (l + pred r) % two64 / 2 ≡ mid = omega arith in rw (inside, middle, e) refl

  search_loop-upto :
      (rounds l r : ℕ)
      → l ≤ upto offset bases
      → upto offset bases ≤ r
      → r ≤ length bases
      → r < l + rounds
      → search_loop bases offset rounds l (pred r) (pred l) ≡ looked (pred (upto offset bases))
  unfolding search_loop
  search_loop-upto zero l r lo hi b enough = absurd (omega arith)
  search_loop-upto (suc rounds) l r lo hi b enough = elim (Bool-cases (ltb l r)) [
    | inr ge ↦
        let whole : l ≡ r = ground arith in
        let all : l ≡ upto offset bases = omega arith in
        rw (← whole, search_round-stop l (pred l) (omega arith), all) refl
    | inl below ↦
        let lt : l < r = ltb→lt l r below in
        let mid = (l + (r - 1)) / 2 in
        let (k, e) = get_elem?-total bases mid (omega arith) in
        rw (search_round-probe l r mid k (pred l) lt b refl e) (elim (Bool-cases (sle64 k offset)) [
          | inl low ↦
              let more_than : mid < upto offset bases =
                upto-above offset bases mid k o e (ground arith) in
              let next : (mid + 1) % two64 ≡ suc mid = omega arith in
              let same : pred (suc mid) ≡ mid = omega arith in
              rw (low, next)
                (rw same at (search_loop-upto rounds (suc mid) r more_than hi b (omega arith)))
          | inr high ↦
              let at_most : upto offset bases ≤ mid =
                upto-below offset bases mid k e (ground arith) in
              rw high (search_loop-upto rounds l mid lo at_most (omega arith) (omega arith))
        ])
  ]

-- On segments whose base offsets strictly increase findSegmentByOffset ends, and returns c - 1 for
-- a number c such that the segments with a base offset not above `offset` are exactly the first c:
-- the index of the last of them, or -1 where there is none.
pub find_segment_by_offset-floor :
    (bases : List ℕ) (offset : ℕ)
    → IsOrdered bases
    → length bases < 2 ^ 62
    → (c : ℕ) × (find_segment_by_offset bases offset ≡ looked (pred c))
      × (c ≤ length bases)
      × ((i k : ℕ)
          → get_elem? bases i ≡ some k
          → (rank64 k ≤ rank64 offset → i < c) × (rank64 offset < rank64 k → c ≤ i))
unfolding find_segment_by_offset
find_segment_by_offset-floor bases offset o fits = (
  upto offset bases,
  search_loop-upto bases offset o fits (suc (length bases)) 0 (length bases) (omega arith)
      (upto-le offset bases) (omega arith) (omega arith),
  upto-le offset bases,
  λ i k e. (λ low. upto-above offset bases i k o e low, λ high. upto-below offset bases i k e high),
)
