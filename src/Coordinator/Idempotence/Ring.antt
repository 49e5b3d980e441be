-- ===== src/Coordinator/Idempotence/Ring.antt =====
-- The ring of the last five batches of a producer.
use kaf_go.Base.{
  ℕ, zero, suc, ◌+◌, ◌%◌, ◌^◌, ◌≤◌, ◌<◌, ◌≡◌, ◌≢◌, refl, ap, arith, Bool, true, false,
}
use kaf_go.Base.{List, [], ◌∷◌, none, some, ◌&&◌, not, ◌==◌, slt32, set, length}
use kaf_go.Coordinator.Idempotence.{
  ring_size, ProducerRingSlot, ProducerBatchLog, lookup_ring, record_in, Batch,
}

abbrev pub matches : ProducerRingSlot → ℕ → ℕ → Bool
matches e f l = not (slt32 e.first_seq 0) && ((e.first_seq == f) && (e.last_seq == l))

module _ (f l b : ℕ) where
  -- The first slot with the pair (f, l) stands at `p`, and holds the offset b.
  abbrev Holds : List ProducerRingSlot → ℕ → Type 0
  Holds [] p = ⊥
  Holds (e ∷ ring) zero = (matches e f l ≡ true) × (e.base_offset ≡ b)
  Holds (e ∷ ring) (suc p) = (matches e f l ≡ false) × Holds ring p

  Holds-lookup :
      (ring : List ProducerRingSlot) (p : ℕ) → Holds ring p → lookup_ring ring f l ≡ some b
  unfolding lookup_ring
  Holds-lookup [] p h = elim h [ ]
  Holds-lookup (e ∷ ring) zero h = ground arith
  Holds-lookup (e ∷ ring) (suc p) h = ground (arith, Holds-lookup ring p h.1)

  Holds-set_ne :
      (ring : List ProducerRingSlot) (p i : ℕ) (e : ProducerRingSlot)
      → i ≢ p
      → matches e f l ≡ false
      → Holds ring p
      → Holds (set ring i e) p
  Holds-set_ne [] p i e ne m h = elim h [ ]
  Holds-set_ne (x ∷ ring) zero zero e ne m h = absurd (ne refl)
  Holds-set_ne (x ∷ ring) zero (suc i) e ne m h = h
  Holds-set_ne (x ∷ ring) (suc p) zero e ne m h = (m, h.1)
  Holds-set_ne (x ∷ ring) (suc p) (suc i) e ne m h =
      (h.0, Holds-set_ne ring p i e (λ q. ne (ap suc q)) m h.1)

  Holds-set_new :
      (ring : List ProducerRingSlot) (i : ℕ) (e : ProducerRingSlot)
      → i < length ring
      → lookup_ring ring f l ≡ none
      → matches e f l ≡ true
      → e.base_offset ≡ b
      → Holds (set ring i e) i
  unfolding lookup_ring
  Holds-set_new [] i e lt new m o = elim lt [ ]
  Holds-set_new (x ∷ ring) zero e lt new m o = (m, o)
  Holds-set_new (x ∷ ring) (suc i) e lt new m o =
      (ground arith, Holds-set_new ring i e (omega arith) (ground arith) m o)

-- The batches recorded one after the other in a producer's log.
unfoldable pub record_all : ℕ → List Batch → ProducerBatchLog → ProducerBatchLog
record_all epoch [] prod = prod
record_all epoch (x ∷ xs) prod =
    record_all epoch xs (record_in x.now epoch x.first_seq x.last_seq x.base_offset prod)

-- No batch of the list carries the sequence numbers f to l.
abbrev pub NoneIs : ℕ → ℕ → List Batch → Type 0
NoneIs f l [] = Unit
NoneIs f l (x ∷ xs) = (((x.first_seq == f) && (x.last_seq == l)) ≡ false) × NoneIs f l xs

kept :
    (f l b epoch p j : ℕ) (xs : List Batch) (prod : ProducerBatchLog)
    → p < 5
    → j + length xs ≤ 4
    → prod.ring_head ≡ (p + 1 + j) % 5
    → NoneIs f l xs
    → Holds f l b prod.ring p
    → lookup_ring (record_all epoch xs prod).ring f l ≡ some b
unfolding record_all record_in
kept f l b epoch p j [] prod hp hj head other h = Holds-lookup f l b prod.ring p h
kept f l b epoch p j (x ∷ xs) prod hp hj head other h =
    kept f l b epoch p (j + 1) xs (record_in x.now epoch x.first_seq x.last_seq x.base_offset prod)
      hp (omega arith) (omega arith) other.1
      (Holds-set_ne f l b prod.ring p prod.ring_head _ (omega arith) (ground arith) h)

-- A batch stays in the ring while at most four more batches are recorded: whatever the ring held
-- before (but not the pair itself), a retry finds the offset that the batch was given.
pub recent_batch_found :
    (now epoch f l b : ℕ) (xs : List Batch) (prod : ProducerBatchLog)
    → length prod.ring ≡ ring_size
    → prod.ring_head < ring_size
    → f < 2 ^ 31
    → lookup_ring prod.ring f l ≡ none
    → length xs ≤ 4
    → NoneIs f l xs
    → lookup_ring (record_all epoch xs (record_in now epoch f l b prod)).ring f l ≡ some b
unfolding record_in
recent_batch_found now epoch f l b xs prod five head pos new few other =
    kept f l b epoch prod.ring_head 0 xs (record_in now epoch f l b prod) head (omega arith)
      (omega arith) other
      (Holds-set_new f l b prod.ring prod.ring_head _ (omega arith) new (ground arith) refl)
