-- ===== src/Storage/Index/Entries.antt =====
-- The entries that the bytes of an index hold, and what Append adds.
use kaf_go.Base.{
  ap, ◌∙◌, leb, ℕ, zero, suc, ◌+◌, ◌*◌, ◌<◌, ◌≡◌, refl, arith, true, List, [], ◌∷◌, ◌++◌, some,
  get_elem?,
}
use kaf_go.Base.{length, All, two32}
use kaf_go.Protocol.Writer.{fixed_bytes}
use kaf_go.Protocol.RoundTrip.Fixed.{value_32}
use kaf_go.Storage.Index.{OffsetIndex, uint32_at}

pub record IndexEntry : Type 0 where
  pub relative_offset : ℕ
  pub position : ℕ

abbrev pub IsEntry : IndexEntry → Type 0
IsEntry e = (e.relative_offset < two32) × (e.position < two32)

abbrev pub encode : List IndexEntry → List ℕ
encode [] = []
encode (e ∷ es) = fixed_bytes 4 e.relative_offset ++ (fixed_bytes 4 e.position ++ encode es)

-- The mapping starts with the entries, and the rest is spare.
pub record Holds (idx : OffsetIndex) (es : List IndexEntry) (spare : List ℕ) : Type 0 where
  pub mapped : idx.mmap ≡ encode es ++ spare
  pub sized : idx.size ≡ length idx.mmap
  pub counted : idx.entry_count ≡ length es

pub length-encode : (es : List IndexEntry) → length (encode es) ≡ 8 * length es
unfolding fixed_bytes
length-encode [] = refl
length-encode (e ∷ es) = omega (arith, length-encode es)

uint32_at-suc : (x : ℕ) (xs : List ℕ) (p : ℕ) → uint32_at (x ∷ xs) (suc p) ≡ uint32_at xs p
unfolding uint32_at
uint32_at-suc x xs p = ground arith

uint32_at-four :
    (v : ℕ) (xs : List ℕ) (p : ℕ)
    → uint32_at (fixed_bytes 4 v ++ xs) (suc (suc (suc (suc p)))) ≡ uint32_at xs p
unfolding fixed_bytes
uint32_at-four v xs p =
    uint32_at-suc _ _ (suc (suc (suc p)))
    ∙ uint32_at-suc _ _ (suc (suc p))
    ∙ uint32_at-suc _ _ (suc p)
    ∙ uint32_at-suc _ _ p

uint32_at-zero : (v : ℕ) (xs : List ℕ) → v < two32 → uint32_at (fixed_bytes 4 v ++ xs) 0 ≡ some v
unfolding uint32_at fixed_bytes
uint32_at-zero v xs h =
    let room : leb 4 (suc (suc (suc (suc (length xs))))) ≡ true = ground arith in
    rw room (ap some (unfold fixed_bytes in value_32 v h))

module _ (e : IndexEntry) (es : List IndexEntry) (spare : List ℕ) where
  split_entry :
      encode (e ∷ es) ++ spare
      ≡ fixed_bytes 4 e.relative_offset ++ (fixed_bytes 4 e.position ++ (encode es ++ spare))
  unfolding fixed_bytes
  split_entry = refl

  uint32_at-skip :
      (p : ℕ) → uint32_at (encode (e ∷ es) ++ spare) (8 + p) ≡ uint32_at (encode es ++ spare) p
  uint32_at-skip p =
      let far : 8 + p ≡ suc (suc (suc (suc (suc (suc (suc (suc p))))))) = omega arith in
      rw (split_entry, far)
        (uint32_at-four e.relative_offset (fixed_bytes 4 e.position ++ (encode es ++ spare))
            (suc (suc (suc (suc p))))
          ∙ uint32_at-four e.position (encode es ++ spare) p)

  uint32_at-first :
      IsEntry e
      → (uint32_at (encode (e ∷ es) ++ spare) 0 ≡ some e.relative_offset)
        × (uint32_at (encode (e ∷ es) ++ spare) 4 ≡ some e.position)
  uint32_at-first h = rw split_entry (
    uint32_at-zero e.relative_offset _ h.0,
    uint32_at-four e.relative_offset (fixed_bytes 4 e.position ++ (encode es ++ spare)) 0
        ∙ uint32_at-zero e.position _ h.1,
  )

same : (x e : IndexEntry) → some x ≡ some e → x ≡ e
same x e p = cc

-- What an index lookup reads at entry i.
pub uint32_at-encode :
    (es : List IndexEntry) (spare : List ℕ) (i : ℕ) (e : IndexEntry)
    → All IsEntry es
    → get_elem? es i ≡ some e
    → (uint32_at (encode es ++ spare) (i * 8) ≡ some e.relative_offset)
      × (uint32_at (encode es ++ spare) (i * 8 + 4) ≡ some e.position)
uint32_at-encode [] spare i e h found = cc
uint32_at-encode (x ∷ es) spare zero e h found =
    rw (← same x e found) (uint32_at-first x es spare h.0)
uint32_at-encode (x ∷ es) spare (suc i) e h found =
    let there = uint32_at-encode es spare i e h.1 found in
    let next : suc i * 8 ≡ 8 + i * 8 = omega arith in
    let next4 : suc i * 8 + 4 ≡ 8 + (i * 8 + 4) = omega arith in
    (
      rw next (uint32_at-skip x es spare (i * 8) ∙ there.0),
      rw next4 (uint32_at-skip x es spare (i * 8 + 4) ∙ there.1),
    )
