-- ===== src/Coordinator/Idempotence/Chain.antt =====
-- The order that Validate enforces on the batches of a producer.
use kaf_go.Base.{ℕ, ◌+◌, ◌%◌, ◌^◌, ◌≤◌, ◌<◌, ◌≡◌, ◌⊎◌, inl, inr, refl, arith, false}
use kaf_go.Base.{List, [], ◌∷◌, none, some, ◌==◌, Bool-cases, two32, All}
use kaf_go.Base.Assoc.{lookup, lookup-insert}
use kaf_go.Coordinator.Idempotence.{
  producer_id_expiration_ms, max_int32, minus_one32, ProducerBatchLog, IdempotenceState, Verdict,
  accept, duplicate, reject, found_or_new, validate_sequence, expired, record_in, record_batch,
  Batch, Appending, appends, no_commit_log, append_fails, Gated, recorded, cached, refused,
  unknown_topic_or_partition, kafka_storage_error, append_after, gate, gate_after,
}
use kaf_go.Coordinator.Idempotence.Sequence.{validate_known}

-- The sequence number f may follow p.
abbrev pub Follows : ℕ → ℕ → Type 0
Follows p f = (f ≡ (p + 1) % two32) ⊎ ((f ≡ 0) × (p ≡ max_int32))

abbrev pub Chain : ℕ → List Batch → Type 0
Chain p [] = Unit
Chain p (b ∷ bs) = Follows p b.first_seq × Chain b.last_seq bs

abbrev pub kept_if : Gated → Batch → List Batch → List Batch
kept_if recorded b rest = b ∷ rest
kept_if _ b rest = rest

-- The batches that are appended and recorded, in order, of those presented one after the other.
unfoldable pub accepted : ℕ → ℕ → List (Batch × Appending) → IdempotenceState → List Batch
unfolding gate
accepted pid epoch [] s = []
accepted pid epoch ((b, a) ∷ bs) s =
    let (s', v) = gate pid epoch b a s in kept_if v b (accepted pid epoch bs s')

accept-Follows :
    (prod : ProducerBatchLog) (f l : ℕ)
    → validate_sequence prod f l ≡ accept
    → Follows prod.last_seq f
unfolding validate_sequence
accept-Follows prod f l h = ground arith

module _ (pid epoch t0 : ℕ) (room : t0 + producer_id_expiration_ms < 2 ^ 63) where
  abbrev InWindow : ℕ → Type 0
  InWindow t = (t0 ≤ t) × (t ≤ t0 + producer_id_expiration_ms)

  abbrev Latest : ℕ → IdempotenceState → Type 0
  Latest last s =
      ((lookup pid s ≡ none) × (last ≡ minus_one32))
      ⊎ ((prod : ProducerBatchLog) × (lookup pid s ≡ some prod)
          × (prod.last_epoch ≡ epoch)
          × (prod.last_seq ≡ last)
          × InWindow prod.last_timestamp)

  abbrev Stepped : ℕ → Batch → IdempotenceState × Gated → Type 0
  Stepped last b (s', recorded) = Follows last b.first_seq × Latest b.last_seq s'
  Stepped last b (s', _) = Latest last s'

  Latest-record :
      (b : Batch) (s : IdempotenceState)
      → InWindow b.now
      → Latest b.last_seq (record_batch b.now pid epoch b.first_seq b.last_seq b.base_offset s)
  unfolding record_batch record_in
  Latest-record b s w = inr (
    record_in b.now epoch b.first_seq b.last_seq b.base_offset (found_or_new epoch (lookup pid s)),
    ground (
      arith,
      lookup-insert pid pid
          (record_in b.now epoch b.first_seq b.last_seq b.base_offset
            (found_or_new epoch (lookup pid s)))
          s,
    ),
    refl,
    refl,
    w,
  )

  Stepped-append :
      (last : ℕ) (b : Batch) (a : Appending) (s : IdempotenceState)
      → Follows last b.first_seq
      → InWindow b.now
      → Latest last s
      → Stepped last b (append_after pid epoch b a s)
  Stepped-append last b appends s f w h = (f, Latest-record b s w)
  Stepped-append last b no_commit_log s f w h = h
  Stepped-append last b append_fails s f w h = h

  Stepped-verdict :
      (last : ℕ) (b : Batch) (a : Appending) (s : IdempotenceState) (v : Verdict)
      → (v ≡ accept → Follows last b.first_seq)
      → InWindow b.now
      → Latest last s
      → Stepped last b (gate_after pid epoch b a (s, v))
  Stepped-verdict last b a s accept f w h = Stepped-append last b a s (f refl) w h
  Stepped-verdict last b a s (duplicate base) f w h = h
  Stepped-verdict last b a s (reject e) f w h = h

  gate-Stepped :
      (last : ℕ) (b : Batch) (a : Appending) (s : IdempotenceState)
      → InWindow b.now
      → Latest last s
      → Stepped last b (gate pid epoch b a s)
  unfolding gate
  gate-Stepped last b a s w (inl (absent, start)) = elim (Bool-cases (b.first_seq == 0)) [
    | inl first ↦
        rw (absent, first)
          (Stepped-verdict last b a s accept (λ _. inl (ground arith)) w (inl (absent, start)))
    | inr later ↦ rw (absent, later) (inl (absent, start))
  ]
  gate-Stepped last b a s w (inr (prod, found, same, at_last, wp)) =
      let fresh : expired b.now prod ≡ false = unfold expired in ground arith in
      rw (validate_known b.now pid epoch b.first_seq b.last_seq s prod found same fresh) (
        Stepped-verdict last b a s (validate_sequence prod b.first_seq b.last_seq)
          (λ e. rw at_last at (accept-Follows prod b.first_seq b.last_seq e)) w
          (inr (prod, found, same, at_last, wp)))

  Chain-kept :
      (last : ℕ) (b : Batch) (bs : List (Batch × Appending)) (r : IdempotenceState × Gated)
      → ((last' : ℕ) (s : IdempotenceState)
          → Latest last' s
          → Chain last' (accepted pid epoch bs s))
      → Stepped last b r
      → Chain last (kept_if r.1 b (accepted pid epoch bs r.0))
  Chain-kept last b bs (s, recorded) ih h = (h.0, ih b.last_seq s h.1)
  Chain-kept last b bs (s, cached base) ih h = ih last s h
  Chain-kept last b bs (s, refused e) ih h = ih last s h
  Chain-kept last b bs (s, unknown_topic_or_partition) ih h = ih last s h
  Chain-kept last b bs (s, kafka_storage_error) ih h = ih last s h

  accepted-Chain-Latest :
      (bs : List (Batch × Appending)) (last : ℕ) (s : IdempotenceState)
      → All (λ p. InWindow p.0.now) bs
      → Latest last s
      → Chain last (accepted pid epoch bs s)
  unfolding accepted
  accepted-Chain-Latest [] last s w h = tt
  accepted-Chain-Latest ((b, a) ∷ bs) last s w h =
      Chain-kept last b bs (gate pid epoch b a s)
        (λ last' s' h'. accepted-Chain-Latest bs last' s' w.1 h') (gate-Stepped last b a s w.0 h)

abbrev pub Within : ℕ → ℕ → Type 0
Within t0 t = (t0 ≤ t) × (t ≤ t0 + producer_id_expiration_ms)

-- Whatever batches a producer without state presents one after the other under one epoch within an hour, and
-- whichever of their appends fail, the batches whose AppendRaw succeeds follow one another: the first has sequence 0,
-- and each later one starts right after the one before it (0 after 2^31 - 1). What an AppendRaw that gives an error
-- leaves in the log is not counted.
pub accepted-Chain :
    (pid epoch t0 : ℕ) (bs : List (Batch × Appending)) (s : IdempotenceState)
    → t0 + producer_id_expiration_ms < 2 ^ 63
    → lookup pid s ≡ none
    → All (λ p. Within t0 p.0.now) bs
    → Chain minus_one32 (accepted pid epoch bs s)
accepted-Chain pid epoch t0 bs s room absent w =
    accepted-Chain-Latest pid epoch t0 room bs minus_one32 s w (inl (absent, refl))
