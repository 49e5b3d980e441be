-- ===== src/Storage/Search.antt =====
-- What the binary searches of the log have in common, and how many keys of an ordered list a
-- search stands behind.
use mathlib.Core.Path.{subst}
use kaf_go.Base.{
  refl, ℕ, zero, suc, ◌+◌, ◌-◌, ◌%◌, ◌≤◌, ◌<◌, ◌≡◌, arith, List, [], ◌∷◌, some, get_elem?, length,
}
use kaf_go.Base.{if◌then◌else◌, slt64, rank64, two64, All}

-- The end of a search: a value, an index out of range, or more rounds than were given.
pub data Looked : Type 0 where
  looked : ℕ → Looked
  panics : Looked
  unfinished : Looked

-- One round of a loop: it returns, or goes on with the bounds and the result so far.
pub data Round : Type 0 where
  stop : Looked → Round
  more : ℕ → ℕ → ℕ → Round

abbrev pub follow : Round → (ℕ → ℕ → ℕ → Looked) → Looked
follow (stop x) loop = x
follow (more left right result) loop = loop left right result

-- How many keys stand before the first that is above t.
unfoldable pub upto : ℕ → List ℕ → ℕ
upto t [] = 0
upto t (k ∷ ks) = let rest = upto t ks in if slt64 t k then 0 else suc rest

-- Strictly increasing, as int64 patterns.
abbrev pub IsOrdered : List ℕ → Type 0
IsOrdered [] = Unit
IsOrdered (k ∷ ks) = All (λ x. rank64 k < rank64 x) ks × IsOrdered ks

pub upto-le : (t : ℕ) (ks : List ℕ) → upto t ks ≤ length ks
unfolding upto
upto-le t [] = omega arith
upto-le t (k ∷ ks) = ground (arith, upto-le t ks)

same {ℓ} : {A : Type ℓ} (x k : A) → some x ≡ some k → x ≡ k
same x k e = cc

pub All-get_elem? {ℓ} :
    {A : Type ℓ} (P : A → Type 0) (ks : List A) (i : ℕ) (k : A)
    → All P ks
    → get_elem? ks i ≡ some k
    → P k
All-get_elem? P [] i k all e = cc
All-get_elem? P (x ∷ ks) zero k all e = subst P (same x k e) all.0
All-get_elem? P (x ∷ ks) (suc i) k all e = All-get_elem? P ks i k all.1 e

upto-zero : (t : ℕ) (ks : List ℕ) → All (λ x. rank64 t < rank64 x) ks → upto t ks ≡ 0
unfolding upto
upto-zero t [] all = refl
upto-zero t (k ∷ ks) all = ground (arith, all.0)

-- A key that is not above t, at i, is among the first; one above it is not.
pub upto-above :
    (t : ℕ) (ks : List ℕ) (i k : ℕ)
    → IsOrdered ks
    → get_elem? ks i ≡ some k
    → rank64 k ≤ rank64 t
    → i < upto t ks
unfolding upto
upto-above t [] i k o e h = cc
upto-above t (x ∷ ks) zero k o e h = ground (arith, same x k e)
upto-above t (x ∷ ks) (suc i) k o e h =
    ground
      (arith, All-get_elem? (λ y. rank64 x < rank64 y) ks i k o.0 e, upto-above t ks i k o.1 e h)

pub upto-below :
    (t : ℕ) (ks : List ℕ) (i k : ℕ) → get_elem? ks i ≡ some k → rank64 t < rank64 k → upto t ks ≤ i
unfolding upto
upto-below t [] i k e h = cc
upto-below t (x ∷ ks) zero k e h = ground (arith, same x k e)
upto-below t (x ∷ ks) (suc i) k e h = ground (arith, upto-below t ks i k e h)

-- Behind the key t itself every key is above t.
pub upto-equal :
    (t : ℕ) (ks : List ℕ) (i : ℕ) → IsOrdered ks → get_elem? ks i ≡ some t → upto t ks ≡ suc i
unfolding upto
upto-equal t [] i o e = cc
upto-equal t (x ∷ ks) zero o e = ground (arith, same x t e, upto-zero t ks)
upto-equal t (x ∷ ks) (suc i) o e =
    ground (arith, All-get_elem? (λ y. rank64 x < rank64 y) ks i t o.0 e, upto-equal t ks i o.1 e)

pub get_elem?-total {ℓ} :
    {A : Type ℓ} (ks : List A) (i : ℕ) → i < length ks → (k : A) × (get_elem? ks i ≡ some k)
get_elem?-total [] i h = absurd (omega arith)
get_elem?-total (k ∷ ks) zero h = (k, refl)
get_elem?-total (k ∷ ks) (suc i) h = get_elem?-total ks i (omega arith)

-- x - 1 on int64.
abbrev pub pred : ℕ → ℕ
pred x = (x + (two64 - 1)) % two64
