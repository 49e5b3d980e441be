-- ===== src/Protocol/RoundTrip/Uvarint.antt =====
-- Variable-length integers: seven bits a byte, the lowest first.
use mathlib.Core.WellFounded.{Acc}
use mathlib.Core.Path.{subst}
use native.Mathlib.Nat.{div-add-mod, pow-suc}
use native.Mathlib.Numerals.{towards_suc}
use kaf_go.Base.{
  ℕ, zero, suc, ◌+◌, ◌*◌, ◌/◌, ◌%◌, ◌^◌, ◌≤◌, ◌<◌, ◌≡◌, ap, leb, ◌==◌, ◌&&◌, false, arith,
}
use kaf_go.Base.{
  List, [], ◌∷◌, ◌++◌, append_assoc, bit_and, bit_or, ltb, ltb→lt, Bool-cases, inl, inr,
  if◌then◌else◌, two64,
}
use kaf_go.Base.Bits.{low_seven, top_bit, or_disjoint}
use kaf_go.Protocol.Reader
use kaf_go.Protocol.Reader.{read_fixed, read_uvarint}
use kaf_go.Protocol.Writer
use kaf_go.Protocol.Writer.{write_uvarint, all_below}
use kaf_go.Protocol.RoundTrip.Stream.{Reads}
use kaf_go.Protocol.RoundTrip.Fixed.{Reads-byte}

-- The bytes for `v`, of at most `suc k` groups.
unfoldable pub groups : ℕ → ℕ → List ℕ
groups zero v = v ∷ []
groups (suc k) v =
    let rest = groups k (v / 128) in if ltb v 128 then v ∷ [] else (v % 128 + 128) ∷ rest

write_groups :
    (k v : ℕ) (w : List ℕ) (a : Acc ◌<◌ v)
    → v < 128 ^ suc k
    → Writer.uvarint_loop v a w ≡ w ++ groups k v
unfolding Writer.uvarint_loop groups
write_groups zero v w (Acc.intro _ smaller) h = grind arith
write_groups (suc k) v w (Acc.intro _ smaller) h = grind (
  arith,
  top_bit (v % 256),
  λ (a : Acc ◌<◌ (v / 2 ^ 7)).
      write_groups k (v / 2 ^ 7) (w ++ (bit_or (v % 256) 0x80 ∷ [])) a (omega arith),
  append_assoc w (bit_or (v % 256) 0x80 ∷ []) (groups k (v / 128)),
)

pub write_uvarint-groups : (v : ℕ) (w : List ℕ) → v < two64 → write_uvarint v w ≡ w ++ groups 9 v
unfolding write_uvarint
write_uvarint-groups v w h = write_groups 9 v w (all_below v) (omega arith)

seven_more : (s : ℕ) → 2 ^ (s + 7) ≡ 128 * 2 ^ s
seven_more s = simp towards_suc (omega arith)

shift_group : (v s : ℕ) → v * 2 ^ s ≡ v % 128 * 2 ^ s + v / 128 * 2 ^ (s + 7)
shift_group v s = omega (
  arith,
  ap (λ (t : ℕ). t * 2 ^ s) (div-add-mod v 128),
  ap (λ (t : ℕ). v / 128 * t) (seven_more s),
)

last_group :
    (rounds result shift v : ℕ)
    → v < 128
    → shift ≤ 63
    → result < 2 ^ shift
    → result + v * 2 ^ shift < two64
    → Reads (Reader.uvarint_loop (suc rounds) result shift) (v ∷ []) (result + v * 2 ^ shift)
unfolding Reader.uvarint_loop
last_group rounds result shift v hv hs hr fits front rest h =
    rw (Reads-byte v front rest h) (ground (arith, low_seven v, or_disjoint shift result v))

inner_group :
    (rounds result shift g : ℕ) (xs : List ℕ) (total : ℕ)
    → g < 128
    → shift + 7 ≤ 63
    → result < 2 ^ shift
    → result + g * 2 ^ shift < two64
    → Reads (Reader.uvarint_loop rounds (result + g * 2 ^ shift) (shift + 7)) xs total
    → Reads (Reader.uvarint_loop (suc rounds) result shift) ((g + 128) ∷ xs) total
unfolding Reader.uvarint_loop
inner_group rounds result shift g xs total hg hs hr fits rest_ok front rest h =
    rw
      (
        Reads-byte (g + 128) front (xs ++ rest) h,
        ← append_assoc front ((g + 128) ∷ []) xs,
        not_last,
        not_small,
        not_done,
        value,
      )
      (rest_ok (front ++ ((g + 128) ∷ [])) rest
        (rw (append_assoc front ((g + 128) ∷ []) (xs ++ rest)) h))
  where
    not_last : (shift == 63 && ltb 1 (g + 128)) ≡ false
    not_last = ground arith

    not_small : ltb (g + 128) 0x80 ≡ false
    not_small = ground arith

    not_done : leb 64 (shift + 7) ≡ false
    not_done = ground arith

    value : bit_or result (bit_and (g + 128) 0x7f * 2 ^ shift % two64) ≡ result + g * 2 ^ shift
    value = ground (arith, low_seven (g + 128), or_disjoint shift result g)

group_fits : (r g s : ℕ) → g < 128 → r < 2 ^ s → r + g * 2 ^ s < 2 ^ (s + 7)
group_fits r g s hg hr = rw (seven_more s) (grind arith)

groups-Reads :
    (k rounds result shift v : ℕ)
    → v < 128 ^ suc k
    → k ≤ rounds
    → shift + 7 * k ≤ 63
    → result < 2 ^ shift
    → result + v * 2 ^ shift < two64
    → Reads (Reader.uvarint_loop (suc rounds) result shift) (groups k v) (result + v * 2 ^ shift)
unfolding groups
groups-Reads zero rounds result shift v hv hk hs hr fits =
    last_group rounds result shift v (omega arith) (omega arith) hr fits
groups-Reads (suc k) zero result shift v hv hk hs hr fits = absurd (omega arith)
groups-Reads (suc k) (suc rounds) result shift v hv hk hs hr fits = elim (Bool-cases (ltb v 128)) [
  | inl small ↦
      rw small (last_group (suc rounds) result shift v (ltb→lt v 128 small) (omega arith) hr fits)
  | inr large ↦ rw large (
      subst
        (λ t.
          Reads (Reader.uvarint_loop (suc (suc rounds)) result shift)
            ((v % 128 + 128) ∷ groups k (v / 128)) t)
        (omega (arith, shift_group v shift))
        (inner_group (suc rounds) result shift (v % 128) (groups k (v / 128)) _ (omega arith)
          (omega arith) hr (omega (arith, shift_group v shift))
          (groups-Reads k rounds (result + v % 128 * 2 ^ shift) (shift + 7) (v / 128)
            (omega (arith, pow-suc 128 (suc k))) (omega arith) (omega arith)
            (group_fits result (v % 128) shift (omega arith) hr)
            (omega (arith, shift_group v shift)))))
]

pub Reads-uvarint : (v : ℕ) → v < two64 → Reads read_uvarint (groups 9 v) v
unfolding read_uvarint
Reads-uvarint v h =
    subst (λ t. Reads (Reader.uvarint_loop 10 0 0) (groups 9 v) t) (omega arith)
      (groups-Reads 9 9 0 0 v (omega arith) (omega arith) (omega arith) (omega arith) (omega arith))
