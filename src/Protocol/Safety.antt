-- ===== src/Protocol/Safety.antt =====
-- Which reads survive any input: the reader on arbitrary bytes, well formed or not.
use native.Mathlib.Nat.{le_trans}
use kaf_go.Base.{
  ℕ, zero, suc, ◌+◌, ◌*◌, ◌%◌, ◌^◌, ◌≤◌, ◌<◌, ◌≡◌, refl, ◌∙◌, arith, true, false, some, ◌&&◌,
}
use kaf_go.Base.{
  List, [], ◌∷◌, length, take, drop, All, ltb, leb, ◌==◌, Bool-cases, inl, inr, slt16, slt32, slt64,
  two64, extend16, extend32,
}
use kaf_go.Protocol.Outcome.{
  Outcome, ok, fail, panic, diverge, Reader, M, ◌>>◌, then_do, pure, require, chunk,
}
use kaf_go.Protocol.Reader.{
  read_fixed, uvarint_loop, read_uvarint, read_counted, nullable_string_body, read_nullable_string,
  nullable_bytes_body, read_nullable_bytes, read_array_len, minus_one32, big_endian,
}

abbrev pub IsByte : ℕ → Type 0
IsByte b = b < 256

-- A buffer of bytes, of a size that memory can hold, with the position in it.
pub record IsValid (r : Reader) : Type 0 where
  pub inside : r.pos ≤ length r.buff
  pub fits : length r.buff < 2 ^ 62
  pub bytes : All IsByte r.buff

-- A read that ends with a value further on in the same buffer, or with an error: no panic, and no
-- endless loop. `P` is what is known of the value.
abbrev pub Safe : {A : Type 0} → (A → Type 0) → Reader → Outcome (A × Reader) → Type 0
Safe P r (ok (a, s)) = P a × (s.buff ≡ r.buff) × (r.pos ≤ s.pos) × (s.pos ≤ length r.buff)
Safe P r (fail e) = Unit
Safe P r panic = ⊥
Safe P r diverge = ⊥

abbrev pub Anything : {A : Type 0} → A → Type 0
Anything a = Unit

moved : {r s : Reader} → IsValid r → s.buff ≡ r.buff → s.pos ≤ length r.buff → IsValid s
moved {r} {s} v e h = record { inside = rw e h; fits = rw e v.fits; bytes = rw e v.bytes }

Safe-after :
    {A : Type 0} (P : A → Type 0) (r s : Reader) (o : Outcome (A × Reader))
    → s.buff ≡ r.buff
    → r.pos ≤ s.pos
    → Safe P s o
    → Safe P r o
Safe-after P r s (ok (a, t)) e le (p, b, lo, hi) = (p, b ∙ e, omega arith, rw (← e) hi)
Safe-after P r s (fail x) e le h = tt
Safe-after P r s panic e le h = h
Safe-after P r s diverge e le h = h

Safe-bind :
    {A B : Type 0} (P : A → Type 0) (Q : B → Type 0) (r : Reader) (o : Outcome (A × Reader))
    (f : A → M B)
    → IsValid r
    → Safe P r o
    → ((a : A) (s : Reader) → P a → IsValid s → Safe Q s (f a s))
    → Safe Q r (then_do o f)
Safe-bind P Q r (ok (a, s)) f v (p, e, lo, hi) k =
    Safe-after Q r s (f a s) e lo (k a s p (moved v e hi))
Safe-bind P Q r (fail x) f v h k = tt
Safe-bind P Q r panic f v h k = h
Safe-bind P Q r diverge f v h k = h

Safe-pure :
    {A : Type 0} (P : A → Type 0) (a : A) (r : Reader) → P a → IsValid r → Safe P r (pure a r)
Safe-pure P a r p v = (p, refl, omega arith, v.inside)

All-drop : (n : ℕ) (xs : List ℕ) → All IsByte xs → All IsByte (drop n xs)
All-drop zero xs h = h
All-drop (suc n) [] h = h
All-drop (suc n) (x ∷ xs) h = All-drop n xs h.1

All-take : (n : ℕ) (xs : List ℕ) → All IsByte xs → All IsByte (take n xs)
All-take zero xs h = tt
All-take (suc n) [] h = h
All-take (suc n) (x ∷ xs) h = (h.0, All-take n xs h.1)

length-take_le : (n : ℕ) (xs : List ℕ) → length (take n xs) ≤ n
length-take_le zero xs = omega arith
length-take_le (suc n) [] = omega arith
length-take_le (suc n) (x ∷ xs) = omega (arith, length-take_le n xs)

abbrev Chunk : ℕ → List ℕ → Type 0
Chunk n bytes = All IsByte bytes × (length bytes ≤ n)

counted-Safe :
    (n : ℕ) (r : Reader) → n < 2 ^ 32 → IsValid r → Safe (Chunk n) r ((require n >> chunk n) r)
unfolding require chunk
counted-Safe n r small v = elim (Bool-cases (slt64 (length r.buff) ((r.pos + n) % two64))) [
  | inl over ↦ rw over tt
  | inr within ↦
      rw (within, low, high within)
        (
          (
            All-take _ _ (All-drop _ _ v.bytes),
            le_trans (length-take_le _ (drop r.pos r.buff)) (omega arith),
          ),
          refl,
          omega arith,
          ground arith,
        )
]
  where
    low : leb r.pos ((r.pos + n) % two64) ≡ true
    low = ground arith

    high :
        slt64 (length r.buff) ((r.pos + n) % two64) ≡ false
        → leb ((r.pos + n) % two64) (length r.buff) ≡ true
    high w = ground arith

then_do_assoc :
    {A B C : Type 0} (o : Outcome (A × Reader)) (f : A → M B) (g : B → M C)
    → then_do (then_do o f) g ≡ then_do o (λ a s. then_do (f a s) g)
then_do_assoc (ok (a, s)) f g = refl
then_do_assoc (fail e) f g = refl
then_do_assoc panic f g = refl
then_do_assoc diverge f g = refl

abbrev Under : ℕ → ℕ → Type 0
Under bound v = v < bound

fixed-Safe :
    (n bound : ℕ) (r : Reader)
    → n < 2 ^ 32
    → ((bytes : List ℕ) → Chunk n bytes → big_endian 0 bytes < bound)
    → IsValid r
    → Safe (Under bound) r (read_fixed n r)
unfolding read_fixed
fixed-Safe n bound r small value v =
    rw (← then_do_assoc (require n r) (λ _. chunk n) (λ bytes. pure (big_endian 0 bytes))) (
      Safe-bind (Chunk n) (Under bound) r _ _ v (counted-Safe n r small v)
        (λ bytes s h v'. Safe-pure (Under bound) _ s (value bytes h) v'))

value_one : (bytes : List ℕ) → Chunk 1 bytes → big_endian 0 bytes < 2 ^ 8
unfolding big_endian
value_one [] h = omega arith
value_one (a ∷ []) h = omega arith
value_one (a ∷ b ∷ bs) h = absurd (omega arith)

value_two : (bytes : List ℕ) → Chunk 2 bytes → big_endian 0 bytes < 2 ^ 16
unfolding big_endian
value_two [] h = omega arith
value_two (a ∷ []) h = omega arith
value_two (a ∷ b ∷ []) h = omega arith
value_two (a ∷ b ∷ c ∷ bs) h = absurd (omega arith)

value_four : (bytes : List ℕ) → Chunk 4 bytes → big_endian 0 bytes < 2 ^ 32
unfolding big_endian
value_four [] h = omega arith
value_four (a ∷ []) h = omega arith
value_four (a ∷ b ∷ []) h = omega arith
value_four (a ∷ b ∷ c ∷ []) h = omega arith
value_four (a ∷ b ∷ c ∷ d ∷ []) h = omega arith
value_four (a ∷ b ∷ c ∷ d ∷ e ∷ bs) h = absurd (omega arith)

uvarint_loop-Safe :
    (rounds result shift : ℕ) (r : Reader)
    → shift < 64
    → 64 ≤ shift + 7 * rounds
    → IsValid r
    → Safe Anything r (uvarint_loop rounds result shift r)
unfolding uvarint_loop
uvarint_loop-Safe zero result shift r low enough v = absurd (omega arith)
uvarint_loop-Safe (suc rounds) result shift r low enough v =
    Safe-bind (Under (2 ^ 8)) Anything r (read_fixed 1 r) _ v
      (fixed-Safe 1 (2 ^ 8) r (omega arith) value_one v)
      (λ b s _ v'. elim (Bool-cases (shift == 63 && ltb 1 b)) [
        | inl over ↦ rw over tt
        | inr fits ↦ elim (Bool-cases (ltb b 0x80)) [
          | inl last ↦ rw (fits, last) (tt, refl, omega arith, v'.inside)
          | inr inner ↦ elim (Bool-cases (leb 64 (shift + 7))) [
            | inl wide ↦ rw (fits, inner, wide) tt
            | inr more ↦
                rw (fits, inner, more)
                  (uvarint_loop-Safe rounds _ (shift + 7) s (ground arith) (omega arith) v')
          ]
        ]
      ])

-- Whatever bytes come, ReadUVarInt ends within its ten rounds: with a number, the position moved
-- on and still inside the buffer, or with an error. It never panics.
pub read_uvarint-Safe : (r : Reader) → IsValid r → Safe Anything r (read_uvarint r)
unfolding read_uvarint
read_uvarint-Safe r v = uvarint_loop-Safe 10 0 0 r (omega arith) (omega arith) v

Safe-any :
    {A : Type 0} (P : A → Type 0) (r : Reader) (o : Outcome (A × Reader))
    → Safe P r o
    → Safe Anything r o
Safe-any P r (ok (a, s)) h = (tt, h.1, h.2, h.3)
Safe-any P r (fail e) h = h
Safe-any P r panic h = h
Safe-any P r diverge h = h

counted_small : (n : ℕ) (r : Reader) → n < 2 ^ 32 → IsValid r → Safe Anything r (read_counted n r)
unfolding read_counted
counted_small n r h v = Safe-any (Chunk n) r _ (counted-Safe n r h v)

string_body-Safe :
    (n : ℕ) (s : Reader) → n < 2 ^ 16 → IsValid s → Safe Anything s (nullable_string_body n s)
unfolding nullable_string_body
string_body-Safe n s h v = elim (Bool-cases (n == 0xffff)) [
  | inl null ↦ rw null (tt, refl, omega arith, v.inside)
  | inr some_value ↦ elim (Bool-cases (slt16 n 1)) [
    | inl negative ↦ rw (some_value, negative) tt
    | inr pos ↦
        rw (some_value, pos)
          (Safe-bind Anything Anything s (read_counted (extend16 n) s) (λ bytes. pure (some bytes))
            v (counted_small (extend16 n) s (ground arith) v)
            (λ a t _ v'. (tt, refl, omega arith, v'.inside)))
  ]
]

bytes_body-Safe :
    (n : ℕ) (s : Reader) → n < 2 ^ 32 → IsValid s → Safe Anything s (nullable_bytes_body n s)
unfolding nullable_bytes_body
bytes_body-Safe n s h v = elim (Bool-cases (n == minus_one32)) [
  | inl null ↦ rw null (tt, refl, omega arith, v.inside)
  | inr some_value ↦ elim (Bool-cases (slt32 n minus_one32)) [
    | inl negative ↦ rw (some_value, negative) tt
    | inr pos ↦
        rw (some_value, pos)
          (Safe-bind Anything Anything s (read_counted (extend32 n) s) (λ bytes. pure (some bytes))
            v (counted_small (extend32 n) s (ground arith) v)
            (λ a t _ v'. (tt, refl, omega arith, v'.inside)))
  ]
]

-- Whatever bytes come, the reads that check the sign of their length (ReadNullableString,
-- ReadNullableBytes, ReadArrayLen) end with a value or an error, and never panic.
pub checked_reads-Safe :
    (r : Reader)
    → IsValid r
    → Safe Anything r (read_nullable_string r)
      × Safe Anything r (read_nullable_bytes r)
      × Safe Anything r (read_array_len r)
unfolding read_nullable_string read_nullable_bytes read_array_len
checked_reads-Safe r v = (
  Safe-bind (Under (2 ^ 16)) Anything r _ nullable_string_body v
      (fixed-Safe 2 (2 ^ 16) r (omega arith) value_two v) string_body-Safe,
  Safe-bind (Under (2 ^ 32)) Anything r _ nullable_bytes_body v
      (fixed-Safe 4 (2 ^ 32) r (omega arith) value_four v) bytes_body-Safe,
  Safe-bind (Under (2 ^ 32)) Anything r _ _ v (fixed-Safe 4 (2 ^ 32) r (omega arith) value_four v)
      (λ n s _ v'. elim (Bool-cases (slt32 n minus_one32)) [
        | inl negative ↦ rw negative tt
        | inr pos ↦ rw pos (tt, refl, omega arith, v'.inside)
      ]),
)
