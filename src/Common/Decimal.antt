-- ===== src/Common/Decimal.antt =====
-- Go's strconv.Itoa and strconv.Atoi, for the ports that the program reads and writes.
use Prim.Native.Char.{Char, code}
use Prim.Native.String.{◌++◌}
use text.Mathlib.TextLemmas.{nil-append, cons-append, append-nil, append_assoc}
use Prim.Native.Nat.{ℕ, zero, suc, ◌+◌, ◌-◌, ◌*◌, ◌/◌, ◌%◌, ◌^◌, ◌≤◌, ◌<◌}
use Prim.Native.String.{String}
use mathlib.Core.Path.{◌≡◌, refl, sym, ap, subst, ◌∙◌}
use mathlib.Core.Bool.{Bool, true, false, ◌||◌}
use native.Mathlib.Omega.{arith}
use mathlib.Core.Logic.{inl, inr}
use distributed_framework.Common.Tests.{Bool-cases, ltb, leb, nat_eq, if◌then◌else◌}

-- An `int` of 64 bits: `negsuc n` is -(n + 1).
pub data ℤ : Type 0 where
  pos : ℕ → ℤ
  negsuc : ℕ → ℤ

abbrev pub minus : ℕ → ℤ
minus zero = pos 0
minus (suc n) = negsuc n

-- Whether a text has the character with a code.
unfoldable pub has_code : ℕ → String → Bool
has_code k String.[] = false
has_code k (String.◌∷◌ c s) = nat_eq (code c) k || has_code k s

digit : ℕ → Char
digit zero = "0"
digit (suc zero) = "1"
digit (suc (suc zero)) = "2"
digit (suc (suc (suc zero))) = "3"
digit (suc (suc (suc (suc zero)))) = "4"
digit (suc (suc (suc (suc (suc zero))))) = "5"
digit (suc (suc (suc (suc (suc (suc zero)))))) = "6"
digit (suc (suc (suc (suc (suc (suc (suc zero))))))) = "7"
digit (suc (suc (suc (suc (suc (suc (suc (suc zero)))))))) = "8"
digit n = "9"

-- The digits of a number below the fuel.
digits : ℕ → ℕ → String
unfolding digit
digits zero n = String.[]
digits (suc f) n = elim (ltb n 10) [
  | true ↦ String.◌∷◌ (digit n) String.[]
  | false ↦ digits f (n / 10) ++ String.◌∷◌ (digit (n % 10)) String.[]
]

unfoldable pub itoa : ℤ → String
unfolding digits
itoa (pos n) = digits (suc n) n
itoa (negsuc n) = "-" ++ digits (suc (suc n)) (suc n)

-- What `ParseUint` makes of digits: an error of syntax, an error of range, or the number.
pub data Scan : Type 0 where
  syntax range : Scan
  value : ℕ → Scan

scan : String → ℕ → Scan
scan String.[] n = value n
scan (String.◌∷◌ c s) n =
    let d : ℕ = code c - 48 in
    let rest : Scan = scan s (n * 10 + d) in
    if ltb (code c) 48 || ltb 57 (code c)
    then syntax
    else if leb (2 ^ 64) (n * 10 + d)
    then range
    else rest

-- The value that `Atoi` returns, and whether there is no error: with an error it is 0 where the
-- text is no number, and the nearest `int` where it is out of range.
atoi_from : (ℕ → ℤ) → ℕ → String → ℤ × Bool
unfolding scan
atoi_from sign limit String.[] = (pos 0, false)
atoi_from sign limit (String.◌∷◌ c s) = elim (scan (String.◌∷◌ c s) 0) [
  | syntax ↦ (pos 0, false)
  | range ↦ (sign limit, false)
  | value n ↦ if ltb limit n then (sign limit, false) else (sign n, true)
]

unfoldable pub atoi : String → ℤ × Bool
unfolding atoi_from
atoi String.[] = (pos 0, false)
atoi (String.◌∷◌ c s) =
    if nat_eq (code c) 43
    then atoi_from pos (2 ^ 63 - 1) s
    else if nat_eq (code c) 45
    then atoi_from minus (2 ^ 63) s
    else atoi_from pos (2 ^ 63 - 1) (String.◌∷◌ c s)

digit-code : (n : ℕ) → n < 10 → code (digit n) ≡ 48 + n
unfolding digit
digit-code zero h = refl
digit-code (suc zero) h = refl
digit-code (suc (suc zero)) h = refl
digit-code (suc (suc (suc zero))) h = refl
digit-code (suc (suc (suc (suc zero)))) h = refl
digit-code (suc (suc (suc (suc (suc zero))))) h = refl
digit-code (suc (suc (suc (suc (suc (suc zero)))))) h = refl
digit-code (suc (suc (suc (suc (suc (suc (suc zero))))))) h = refl
digit-code (suc (suc (suc (suc (suc (suc (suc (suc zero)))))))) h = refl
digit-code (suc (suc (suc (suc (suc (suc (suc (suc (suc n))))))))) h = omega arith

scan-digit :
    (d n : ℕ) (t : String)
    → d < 10
    → n * 10 + d < 2 ^ 64
    → scan (String.◌∷◌ (digit d) t) n ≡ scan t (n * 10 + d)
unfolding scan
scan-digit d n t h k = ground (arith, digit-code d h)

digits_small : (f n : ℕ) → ltb n 10 ≡ true → digits (suc f) n ≡ String.◌∷◌ (digit n) String.[]
unfolding digits
digits_small f n h = rw (h, digits) refl

digits_large :
    (f n : ℕ)
    → ltb n 10 ≡ false
    → digits (suc f) n ≡ digits f (n / 10) ++ String.◌∷◌ (digit (n % 10)) String.[]
unfolding digits
digits_large f n h = rw (h, digits) refl

single-append : (c : Char) (t : String) → String.◌∷◌ c String.[] ++ t ≡ String.◌∷◌ c t
single-append c t = cons-append c String.[] t ∙ ap (String.◌∷◌ c) (nil-append t)

-- Reading the digits of a number, and then a text, is reading the text behind the number.
scan-digits : (f n : ℕ) (t : String) → n < f → n < 2 ^ 64 → scan (digits f n ++ t) 0 ≡ scan t n
scan-digits zero n t h k = absurd (omega arith)
scan-digits (suc f) n t h k = elim (Bool-cases (ltb n 10)) [
  | inl small ↦
      ap (λ s. scan (s ++ t) 0) (digits_small f n small)
      ∙ ap (λ s. scan s 0) (single-append (digit n) t)
      ∙ scan-digit n 0 t (ground arith) (omega arith)
      ∙ ap (scan t) (omega arith)
  | inr large ↦
      ap (λ s. scan (s ++ t) 0) (digits_large f n large)
      ∙ ap (λ s. scan s 0)
          (append_assoc (digits f (n / 10)) (String.◌∷◌ (digit (n % 10)) String.[]) t
            ∙ ap (λ s. digits f (n / 10) ++ s) (single-append (digit (n % 10)) t))
      ∙ scan-digits f (n / 10) (String.◌∷◌ (digit (n % 10)) t) (ground arith) (omega arith)
      ∙ scan-digit (n % 10) (n / 10) t (omega arith) (omega arith)
      ∙ ap (scan t) (omega arith)
]

-- The text of a number begins with a digit.
abbrev StartsDigit : String → Type 0
StartsDigit String.[] = ⊥
StartsDigit (String.◌∷◌ c s) = (48 ≤ code c) × (code c ≤ 57)

StartsDigit-append : (s t : String) → StartsDigit s → StartsDigit (s ++ t)
StartsDigit-append String.[] t h = absurd h
StartsDigit-append (String.◌∷◌ c s) t h = rw (cons-append c s t) h

digits-StartsDigit : (f n : ℕ) → n < f → StartsDigit (digits f n)
digits-StartsDigit zero n h = absurd (omega arith)
digits-StartsDigit (suc f) n h = elim (Bool-cases (ltb n 10)) [
  | inl small ↦
      subst StartsDigit (sym (digits_small f n small))
        (let e : code (digit n) ≡ 48 + n = digit-code n (ground arith) in ground (arith, e))
  | inr large ↦ subst StartsDigit (sym (digits_large f n large)) (
      StartsDigit-append (digits f (n / 10)) (String.◌∷◌ (digit (n % 10)) String.[])
        (digits-StartsDigit f (n / 10) (ground arith)))
]

atoi_digits :
    (s : String) (n : ℕ) → StartsDigit s → scan s 0 ≡ value n → n < 2 ^ 63 → atoi s ≡ (pos n, true)
unfolding atoi
atoi_digits String.[] n h e k = absurd h
atoi_digits (String.◌∷◌ c s) n h e k = ground (arith, e)

pub atoi-itoa : (n : ℕ) → n < 2 ^ 63 → atoi (itoa (pos n)) ≡ (pos n, true)
unfolding itoa scan
atoi-itoa n h =
    atoi_digits (digits (suc n) n) n (digits-StartsDigit (suc n) n (omega arith))
      (ap (λ s. scan s 0) (sym (append-nil (digits (suc n) n)))
        ∙ scan-digits (suc n) n String.[] (omega arith) (omega arith))
      h

has_code-append : (k : ℕ) (s t : String) → has_code k (s ++ t) ≡ (has_code k s || has_code k t)
unfolding has_code
has_code-append k String.[] t = ap (has_code k) (nil-append t)
has_code-append k (String.◌∷◌ c s) t =
    ap (has_code k) (cons-append c s t) ∙ ground (arith, has_code-append k s t)

single_has_code : (k n : ℕ) → 57 < k → n < 10 → has_code k (String.◌∷◌ (digit n) String.[]) ≡ false
unfolding has_code
single_has_code k n h m = let e : code (digit n) ≡ 48 + n = digit-code n m in ground (arith, e)

digits-has_code : (k f n : ℕ) → 57 < k → has_code k (digits f n) ≡ false
unfolding has_code digits
digits-has_code k zero n h = refl
digits-has_code k (suc f) n h = elim (Bool-cases (ltb n 10)) [
  | inl small ↦ ap (has_code k) (digits_small f n small) ∙ single_has_code k n h (ground arith)
  | inr large ↦
      ap (has_code k) (digits_large f n large)
      ∙ has_code-append k (digits f (n / 10)) (String.◌∷◌ (digit (n % 10)) String.[])
      ∙ ground (arith, digits-has_code k f (n / 10) h, single_has_code k (n % 10) h)
]

-- The text of a number has no character behind the digits in the order of the codes.
pub itoa-has_code : (k n : ℕ) → 57 < k → has_code k (itoa (pos n)) ≡ false
unfolding itoa
itoa-has_code k n h = digits-has_code k (suc n) n h
