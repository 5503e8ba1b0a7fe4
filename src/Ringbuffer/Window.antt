-- ===== src/Ringbuffer/Window.antt =====
-- The elements of a ring as the values of an index function over a range of places.
use distributed_framework.Common.{
  ℕ, zero, suc, ◌+◌, ◌-◌, ◌≤◌, ◌<◌, ◌≡◌, refl, ap, ap₂, ◌∙◌, List, [], ◌∷◌, ◌++◌, arith, take, drop,
  length, if◌then◌else◌, leb,
}

pub next_suc : (i : ℕ) → i + 1 ≡ suc i
next_suc i = omega arith

pub next_place : (h i : ℕ) → h + 1 + i ≡ h + suc i
next_place h i = omega arith

pub zero_left : (k : ℕ) → 0 + k ≡ k
zero_left k = omega arith

-- The values of `f` at the `n` places from `i` on.
abbrev pub seg {ℓ} : {T : Type ℓ} → (ℕ → T) → ℕ → ℕ → List T
seg f i zero = []
seg f i (suc n) = f i ∷ seg f (suc i) n

module _ {ℓ} {T : Type ℓ} where
  pub seg_ext :
      (f g : ℕ → T) (i n : ℕ) → ((k : ℕ) → i ≤ k → k < i + n → f k ≡ g k) → seg f i n ≡ seg g i n
  seg_ext f g i zero h = refl
  seg_ext f g i (suc n) h =
      ap₂ ◌∷◌ (h i (omega arith) (omega arith))
        (seg_ext f g (suc i) n (λ k p q. h k (omega arith) (omega arith)))

  pub seg_snoc : (f : ℕ → T) (i n : ℕ) → seg f i (suc n) ≡ seg f i n ++ f (i + n) ∷ []
  seg_snoc f i zero = ap (λ k. f k ∷ []) (omega arith)
  seg_snoc f i (suc n) =
      ap (λ l. f i ∷ l) (seg_snoc f (suc i) n ∙ ap (λ k. seg f (suc i) n ++ f k ∷ []) (omega arith))

  pub seg_push : (f : ℕ → T) (i n : ℕ) → seg f i (n + 1) ≡ seg f i n ++ f (i + n) ∷ []
  seg_push f i n = ap (seg f i) (next_suc n) ∙ seg_snoc f i n

  pub seg_shift :
      (f g : ℕ → T) (c i n : ℕ)
      → ((k : ℕ) → i ≤ k → k < i + n → g k ≡ f (c + k))
      → seg g i n ≡ seg f (c + i) n
  seg_shift f g c i zero h = refl
  seg_shift f g c i (suc n) h = ap₂ ◌∷◌ (h i (omega arith) (omega arith)) (
      seg_shift f g c (suc i) n (λ k p q. h k (omega arith) (omega arith))
      ∙ ap (λ k. seg f k n) (omega arith))

  -- Of a segment that is shorter, `take` takes all and `drop` leaves nothing.
  pub take-seg : (f : ℕ → T) (i c n : ℕ) → take c (seg f i n) ≡ seg f i (if leb n c then n else c)
  take-seg f i zero zero = refl
  take-seg f i zero (suc n) = ap (seg f i) {x = 0} (ground arith)
  take-seg f i (suc c) zero = ap (seg f i) {x = 0} (ground arith)
  take-seg f i (suc c) (suc n) =
      ap (λ l. f i ∷ l) (take-seg f (suc i) c n)
      ∙ ap (seg f i) {x = suc (if leb n c then n else c)} (ground arith)

  pub drop-seg : (f : ℕ → T) (i c n : ℕ) → drop c (seg f i n) ≡ seg f (c + i) (n - c)
  drop-seg f i zero n = ap₂ (seg f) (omega arith) (omega arith)
  drop-seg f i (suc c) zero = ap (seg f (suc c + i)) {x = 0} (omega arith)
  drop-seg f i (suc c) (suc n) = drop-seg f (suc i) c n ∙ ap₂ (seg f) (omega arith) (omega arith)

  pub length-seg : (f : ℕ → T) (i n : ℕ) → length (seg f i n) ≡ n
  length-seg f i zero = refl
  length-seg f i (suc n) = ap suc (length-seg f (suc i) n)

  pub seg_none : (f : ℕ → T) (i n : ℕ) → n ≡ 0 → seg f i n ≡ []
  seg_none f i n e = ap (seg f i) e
