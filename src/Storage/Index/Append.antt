-- ===== src/Storage/Index/Append.antt =====
-- What Append adds to an index, with and without a growth of the mapping.
use kaf_go.Base.{
  ap, sym, ◌∙◌, leb, ltb, ℕ, zero, suc, ◌+◌, ◌-◌, ◌*◌, ◌%◌, ◌≤◌, ◌≡◌, refl, arith, true, List, [],
  ◌∷◌, ◌++◌, some,
}
use kaf_go.Base.{
  Bool-cases, inl, inr, length, drop, length-append, take-append_length, append_assoc, two32, two64,
}
use kaf_go.Protocol.Writer.{fixed_bytes}
use kaf_go.Storage.Index.{
  OffsetIndex, zeros, put_uint32, grows, grow, put_then, counted, put_entry, append,
}
use kaf_go.Storage.Index.Entries.{IndexEntry, encode, Holds, length-encode}

drop-append_more : (front xs : List ℕ) (n : ℕ) → drop (length front + n) (front ++ xs) ≡ drop n xs
drop-append_more [] xs n = ap (λ m. drop m xs) (omega arith)
drop-append_more (x ∷ front) xs n =
    let next : suc (length front) + n ≡ suc (length front + n) = omega arith in
    rw next (drop-append_more front xs n)

length-drop : (n : ℕ) (xs : List ℕ) → length (drop n xs) ≡ length xs - n
length-drop zero xs = omega arith
length-drop (suc n) [] = omega arith
length-drop (suc n) (x ∷ xs) = omega (arith, length-drop n xs)

pub length-zeros : (n : ℕ) → length (zeros n) ≡ n
length-zeros zero = refl
length-zeros (suc n) = omega (arith, length-zeros n)

put_uint32-front :
    (front spare : List ℕ) (p v : ℕ)
    → p ≡ length front
    → 4 ≤ length spare
    → put_uint32 (front ++ spare) p v ≡ some (front ++ (fixed_bytes 4 v ++ drop 4 spare))
unfolding put_uint32
put_uint32-front front spare p v e h =
    let room : leb (length front + 4) (length (front ++ spare)) ≡ true =
      ground (arith, length-append front spare) in
    rw (e, room, take-append_length front spare, drop-append_more front spare 4) refl

encode-append :
    (es : List IndexEntry) (e : IndexEntry) (spare : List ℕ)
    → (encode es ++ fixed_bytes 4 e.relative_offset) ++ (fixed_bytes 4 e.position ++ spare)
      ≡ encode (es ++ (e ∷ [])) ++ spare
unfolding fixed_bytes
encode-append [] e spare = refl
encode-append (x ∷ es) e spare =
    ap (λ t. fixed_bytes 4 x.relative_offset ++ (fixed_bytes 4 x.position ++ t))
      (encode-append es e spare)

-- The entry that Append writes.
abbrev pub entry_of : ℕ → ℕ → ℕ → IndexEntry
entry_of base offset position = record {
  relative_offset = (offset + (two64 - base)) % two64 % two32;
  position = position % two32;
}

module _ (idx : OffsetIndex) (es : List IndexEntry) (spare : List ℕ) (h : Holds idx es spare)
    (offset position : ℕ) where
  abbrev entry : IndexEntry
  entry = entry_of idx.base_offset offset position

  abbrev extended : OffsetIndex
  extended = record idx {
    mmap = encode (es ++ (entry ∷ [])) ++ drop 4 (drop 4 spare);
    entry_count = idx.entry_count + 1;
  }

  spare_room : idx.size ≡ 8 * length es + length spare
  spare_room =
      omega (arith, h.sized, ap length h.mapped, length-append (encode es) spare, length-encode es)

  grown-Holds : Holds (grow grows idx).1 es (spare ++ zeros idx.size)
  grown-Holds = record {
    mapped =
        ap (λ mmap. mmap ++ zeros idx.size) h.mapped
        ∙ append_assoc (encode es) spare (zeros idx.size);
    sized = omega (arith, h.sized, length-append idx.mmap (zeros idx.size), length-zeros idx.size);
    counted = h.counted;
  }

  module _ (room : 8 ≤ length spare) where
    abbrev first : List ℕ
    first = encode es ++ (fixed_bytes 4 entry.relative_offset ++ drop 4 spare)

    put_first : put_uint32 idx.mmap (idx.entry_count * 8) entry.relative_offset ≡ some first
    put_first =
        ap (λ mmap. put_uint32 mmap (idx.entry_count * 8) entry.relative_offset) h.mapped
        ∙ put_uint32-front (encode es) spare (idx.entry_count * 8) entry.relative_offset
            (omega (arith, length-encode es, h.counted)) (omega arith)

    put_second : put_uint32 first (idx.entry_count * 8 + 4) entry.position ≡ some extended.mmap
    put_second =
        ap (λ mmap. put_uint32 mmap (idx.entry_count * 8 + 4) entry.position)
          (sym (append_assoc (encode es) (fixed_bytes 4 entry.relative_offset) (drop 4 spare)))
        ∙ put_uint32-front (encode es ++ fixed_bytes 4 entry.relative_offset) (drop 4 spare)
            (idx.entry_count * 8 + 4) entry.position
            (unfold fixed_bytes in
              omega (
                arith,
                length-append (encode es) (fixed_bytes 4 entry.relative_offset),
                length-encode es,
                h.counted,
              ))
            (omega (arith, length-drop 4 spare))
        ∙ ap some (encode-append es entry (drop 4 (drop 4 spare)))

    put_entry-extended : put_entry offset position (true, idx) ≡ some (true, extended)
    put_entry-extended =
        ap (λ o. counted idx (put_then (idx.entry_count * 8 + 4) entry.position o)) put_first
        ∙ ap (counted idx) put_second

    extended-Holds : Holds extended (es ++ (entry ∷ [])) (drop 4 (drop 4 spare))
    extended-Holds = record {
      mapped = refl;
      sized = omega (
        arith,
        spare_room,
        length-append (encode (es ++ (entry ∷ []))) (drop 4 (drop 4 spare)),
        length-encode (es ++ (entry ∷ [])),
        length-append es (entry ∷ []),
        length-drop 4 (drop 4 spare),
        length-drop 4 spare,
      );
      counted = omega (arith, h.counted, length-append es (entry ∷ []));
    }

-- Append adds its entry behind those that the index holds, in room that the mapping has or, when
-- there is none and the growth succeeds, in the room that it gains.
pub append-Holds :
    (idx : OffsetIndex) (es : List IndexEntry) (spare : List ℕ) (offset position : ℕ)
    → Holds idx es spare
    → 8 ≤ idx.size
    → (idx' : OffsetIndex) × (spare' : List ℕ) × (append grows offset position idx
        ≡ some (true, idx'))
      × Holds idx' (es ++ (entry_of idx.base_offset offset position ∷ [])) spare'
unfolding append
append-Holds idx es spare offset position h some_room =
    elim (Bool-cases (ltb idx.size ((idx.entry_count + 1) * 8))) [
      | inr room ↦
          let enough : 8 ≤ length spare =
            ground (arith, spare_room idx es spare h offset position, h.counted) in
          (
            extended idx es spare h offset position,
            drop 4 (drop 4 spare),
            rw room (put_entry-extended idx es spare h offset position enough),
            extended-Holds idx es spare h offset position enough,
          )
      | inl full ↦
          let wide = grown-Holds idx es spare h offset position in
          let more = spare ++ zeros idx.size in
          let enough : 8 ≤ length more =
            omega (arith, length-append spare (zeros idx.size), length-zeros idx.size) in
          (
            extended (grow grows idx).1 es more wide offset position,
            drop 4 (drop 4 more),
            rw full (put_entry-extended (grow grows idx).1 es more wide offset position enough),
            extended-Holds (grow grows idx).1 es more wide offset position enough,
          )
    ]
