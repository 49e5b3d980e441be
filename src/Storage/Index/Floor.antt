-- ===== src/Storage/Index/Floor.antt =====
-- The entry found is the last one whose offset is not above the offset looked up.
use kaf_go.Base.{
  ap, sym, ◌∙◌, ltb, ltb→lt, ℕ, zero, suc, ◌+◌, ◌-◌, ◌/◌, ◌%◌, ◌^◌, ◌≤◌, ◌<◌, ◌≡◌, refl, arith,
  true, false, List, [], ◌∷◌, ◌++◌, Option, none, some, get_elem?,
}
use kaf_go.Base.{Bool-cases, inl, inr, length, map, All, ◌==◌, sle64, slt64, rank64, two64}
use kaf_go.Storage.Search.{
  looked, stop, pred, upto, IsOrdered, upto-le, upto-above, upto-below, upto-equal, get_elem?-total,
  All-get_elem?,
}
use kaf_go.Storage.Index.{
  OffsetIndex, looked_of, position_at, probe, middle, lookup_round, lookup_loop, lookup,
}
use kaf_go.Storage.Index.Entries.{IndexEntry, IsEntry, encode, Holds, uint32_at-encode}

abbrev pub offsets : List IndexEntry → List ℕ
offsets es = map (λ e. e.relative_offset) es

abbrev pub position_of : Option IndexEntry → ℕ
position_of none = 0
position_of (some e) = e.position

-- The position of the last of the first c entries, or 0.
abbrev pub before : List IndexEntry → ℕ → ℕ
before es zero = 0
before es (suc c) = position_of (get_elem? es c)

abbrev offset_of : Option IndexEntry → Option ℕ
offset_of none = none
offset_of (some e) = some e.relative_offset

get_elem?-offsets :
    (es : List IndexEntry) (i : ℕ) (e : IndexEntry)
    → get_elem? es i ≡ some e
    → get_elem? (offsets es) i ≡ some e.relative_offset
get_elem?-offsets [] i e h = cc
get_elem?-offsets (x ∷ es) zero e h = ap (λ y. offset_of y) h
get_elem?-offsets (x ∷ es) (suc i) e h = get_elem?-offsets es i e h

length-offsets : (es : List IndexEntry) → length (offsets es) ≡ length es
length-offsets [] = refl
length-offsets (x ∷ es) = ap suc (length-offsets es)

module _ (es : List IndexEntry) (spare : List ℕ) (t : ℕ) (valid : All IsEntry es)
    (o : IsOrdered (offsets es)) (fits : length es < 2 ^ 60) (small : t < two64) where
  abbrev mapped : List ℕ
  mapped = encode es ++ spare

  abbrev found : ℕ
  found = upto t (offsets es)

  position_at-before :
      (i : ℕ) (e : IndexEntry)
      → get_elem? es i ≡ some e
      → position_at mapped i ≡ looked (before es (suc i))
  position_at-before i e h =
      ap looked_of (uint32_at-encode es spare i e valid h).1
      ∙ ap (λ x. looked (position_of x)) (sym h)

  lookup_round-stop :
      (c result : ℕ)
      → c ≤ length es
      → result ≡ pred c
      → lookup_round mapped t c (pred c) result ≡ stop (looked (before es c))
  unfolding lookup_round
  lookup_round-stop zero result h e =
      let negative : sle64 0 result ≡ false = ground arith in rw negative refl
  lookup_round-stop (suc c) result h e =
      let (x, there) = get_elem?-total es c (omega arith) in
      let over : sle64 (suc c) (pred (suc c)) ≡ false = ground arith in
      let positive : sle64 0 result ≡ true = ground arith in
      let at_c : result ≡ c = omega arith in
      rw (over, positive, at_c) (ap stop (position_at-before c x there))

  lookup_round-probe :
      (l r mid result : ℕ) (e : IndexEntry)
      → l < r
      → r ≤ length es
      → mid ≡ l + (r - 1 - l) / 2
      → get_elem? es mid ≡ some e
      → lookup_round mapped t l (pred r) result
        ≡ probe mapped t l (pred r) result mid (some e.relative_offset)
  unfolding lookup_round
  lookup_round-probe l r mid result e h b m there =
      let inside : sle64 l (pred r) ≡ true = ground arith in
      let at_mid : middle l (pred r) ≡ mid = omega arith in
      rw (inside, at_mid, (uint32_at-encode es spare mid e valid there).0) refl

  lookup_loop-upto :
      (rounds l r : ℕ)
      → l ≤ found
      → found ≤ r
      → r ≤ length es
      → r < l + rounds
      → lookup_loop mapped t rounds l (pred r) (pred l) ≡ looked (before es found)
  unfolding lookup_loop
  lookup_loop-upto zero l r lo hi b enough = absurd (omega arith)
  lookup_loop-upto (suc rounds) l r lo hi b enough = elim (Bool-cases (ltb l r)) [
    | inr ge ↦
        let whole : l ≡ r = ground arith in
        let all : l ≡ found = omega arith in
        rw (← whole, lookup_round-stop l (pred l) (omega arith) refl, all) refl
    | inl below ↦
        let lt : l < r = ltb→lt l r below in
        let mid = l + (r - 1 - l) / 2 in
        let (e, there) = get_elem?-total es mid (omega arith) in
        let key = get_elem?-offsets es mid e there in
        let narrow = (All-get_elem? IsEntry es mid e valid there).0 in
        rw (lookup_round-probe l r mid (pred l) e lt b refl there)
          (elim (Bool-cases (e.relative_offset == t)) [
            | inl hit ↦
                let same : e.relative_offset ≡ t = ground arith in
                let last : found ≡ suc mid = upto-equal t (offsets es) mid o (key ∙ ap some same) in
                rw (hit, position_at-before mid e there, last) refl
            | inr miss ↦ elim (Bool-cases (slt64 e.relative_offset t)) [
              | inl low ↦
                  let more_than : mid < found =
                    upto-above t (offsets es) mid e.relative_offset o key (ground arith) in
                  let next : (mid + 1) % two64 ≡ suc mid = omega arith in
                  let same : pred (suc mid) ≡ mid = omega arith in
                  rw (miss, low, next)
                    (rw same at (lookup_loop-upto rounds (suc mid) r more_than hi b (omega arith)))
              | inr high ↦
                  let at_most : found ≤ mid =
                    upto-below t (offsets es) mid e.relative_offset key (ground arith) in
                  rw (miss, high)
                    (lookup_loop-upto rounds l mid lo at_most (omega arith) (omega arith))
            ]
          ])
  ]

-- On an index that holds entries with strictly increasing offsets Lookup ends, and gives the
-- position of the last of the first c entries, or 0 where c is 0, for a number c such that the
-- entries not above the offset looked up, relative to the base, are exactly the first c.
pub lookup-floor :
    (idx : OffsetIndex) (es : List IndexEntry) (spare : List ℕ) (offset : ℕ)
    → Holds idx es spare
    → All IsEntry es
    → IsOrdered (offsets es)
    → length es < 2 ^ 60
    → (c : ℕ) × (lookup offset idx ≡ looked (before es c))
      × (c ≤ length es)
      × ((i : ℕ) (e : IndexEntry)
          → get_elem? es i ≡ some e
          → (rank64 e.relative_offset ≤ rank64 ((offset + (two64 - idx.base_offset)) % two64)
              → i < c)
            × (rank64 ((offset + (two64 - idx.base_offset)) % two64) < rank64 e.relative_offset
                → c ≤ i))
unfolding lookup
lookup-floor idx es spare offset h valid o fits =
    let t = (offset + (two64 - idx.base_offset)) % two64 in
    (
      upto t (offsets es),
      result,
      omega (arith, upto-le t (offsets es), length-offsets es),
      λ i e there. (
        λ low. upto-above t (offsets es) i e.relative_offset o (get_elem?-offsets es i e there) low,
        λ high. upto-below t (offsets es) i e.relative_offset (get_elem?-offsets es i e there) high,
      ),
    )
  where
    relative : ℕ
    relative = (offset + (two64 - idx.base_offset)) % two64

    most : upto relative (offsets es) ≤ length es
    most = omega (arith, upto-le relative (offsets es), length-offsets es)

    whole :
        lookup_loop idx.mmap relative (suc idx.entry_count) 0 (pred idx.entry_count) (two64 - 1)
        ≡ looked (before es (upto relative (offsets es)))
    whole =
        ap (λ m. lookup_loop m relative (suc idx.entry_count) 0 (pred idx.entry_count) (two64 - 1))
          h.mapped
        ∙ ap (λ n. lookup_loop (encode es ++ spare) relative (suc n) 0 (pred n) (two64 - 1))
            h.counted
        ∙ lookup_loop-upto es spare relative valid o fits (omega arith) (suc (length es)) 0
            (length es) (omega arith) most (omega arith) (omega arith)

    result : lookup offset idx ≡ looked (before es (upto relative (offsets es)))
    result = elim (Bool-cases (idx.entry_count == 0)) [
      | inl empty ↦
          let none_found : upto relative (offsets es) ≡ 0 = ground (arith, most, h.counted) in
          rw (empty, none_found) refl
      | inr some_entries ↦ rw some_entries whole
    ]
