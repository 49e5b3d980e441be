-- ===== src/Protocol/Outcome.antt =====
-- What a call of the decoder can do, and the decoder's state, `Reader` of protocol/reader.go.
-- A read that fails or panics gives no reader back: every caller of the repository gives the
-- request up then.
use kaf_go.Base.{ℕ, ◌+◌, List, ◌-◌, length, take, drop}
use kaf_go.Base.{leb, if◌then◌else◌, ◌&&◌, two64, slt64, ◌%◌}

-- `eof` is io.EOF; the others are the errors.New values of the reader.
pub data Error : Type 0 where
  eof uvarint_overflow invalid_length : Error

-- `diverge` stands for a loop that outlives the rounds given to it.
pub data Outcome {ℓ} (A : Type ℓ) : Type ℓ where
  ok : A → Outcome A
  fail : Error → Outcome A
  panic : Outcome A
  diverge : Outcome A

-- `pos` is an int, so a bit pattern of 64 bits.
pub record Reader : Type 0 where
  pub buff : List ℕ
  pub pos : ℕ

abbrev pub M : Type 0 → Type 0
M A = Reader → Outcome (A × Reader)

abbrev pub then_do : {A B : Type 0} → Outcome (A × Reader) → (A → M B) → Outcome (B × Reader)
then_do (ok (a, r)) f = f a r
then_do (fail e) f = fail e
then_do panic f = panic
then_do diverge f = diverge

infixl 5 ◌>>=◌ ◌>>◌
abbrev pub ◌>>=◌ : {A B : Type 0} → M A → (A → M B) → M B
◌>>=◌ m f r = then_do (m r) f

abbrev pub ◌>>◌ : {B : Type 0} → M (Unit {0}) → M B → M B
m >> k = m >>= λ _. k

abbrev pub pure : {A : Type 0} → A → M A
pure a r = ok (a, r)

abbrev pub throw : {A : Type 0} → Error → M A
throw e r = fail e

-- r.require(n)
unfoldable pub require : ℕ → M (Unit {0})
require n r = if slt64 (length r.buff) ((r.pos + n) % two64) then fail eof else ok (tt, r)

-- r.buff[lo:hi], with the bounds check of a slice expression: a negative bound is a large pattern.
unfoldable pub slice : List ℕ → ℕ → ℕ → Outcome (List ℕ)
slice buff lo hi =
    if leb lo hi && leb hi (length buff) then ok (take (hi - lo) (drop lo buff)) else panic

abbrev pub advance : ℕ → Reader → Outcome (List ℕ) → Outcome (List ℕ × Reader)
advance n r (ok bytes) = ok (bytes, record r { pos = (r.pos + n) % two64 })
advance n r (fail e) = fail e
advance n r panic = panic
advance n r diverge = diverge

-- The bytes r.buff[r.pos : r.pos+n], and r.pos += n.
unfoldable pub chunk : ℕ → M (List ℕ)
unfolding slice
chunk n r = advance n r (slice r.buff r.pos ((r.pos + n) % two64))
