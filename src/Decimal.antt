-- ===== src/Decimal.antt =====
-- Natural numbers in decimal, as the f-strings of hivescope/scenarios.py print them into names.
use Prim.Native.Nat.{◌/◌, ◌%◌}
use Prim.Native.Char.{Char, char, code}
use Prim.Native.String.{[] as nil_text, ◌∷◌ as cons_text}
use hivescope.Prelude.{
  ℕ, zero, suc, ◌+◌, ◌-◌, ◌*◌, ◌<◌, ◌≡◌, refl, sym, ◌∙◌, ap, String, arith, ltb, Bool-cases, inl,
  inr, if◌then◌else◌,
}

unfoldable pub digit : ℕ → Char
digit zero = char 48 tt
digit (suc zero) = char 49 tt
digit (suc (suc zero)) = char 50 tt
digit (suc (suc (suc zero))) = char 51 tt
digit (suc (suc (suc (suc zero)))) = char 52 tt
digit (suc (suc (suc (suc (suc zero))))) = char 53 tt
digit (suc (suc (suc (suc (suc (suc zero)))))) = char 54 tt
digit (suc (suc (suc (suc (suc (suc (suc zero))))))) = char 55 tt
digit (suc (suc (suc (suc (suc (suc (suc (suc zero)))))))) = char 56 tt
digit _ = char 57 tt

-- The last digit is put in front of those that are there; one unit of fuel for each digit.
unfoldable pub digits : ℕ → ℕ → String → String
unfolding digit
digits zero n out = out
digits (suc fuel) n out =
    let rest = digits fuel (n / 10) (cons_text (digit (n % 10)) out) in
    if ltb n 10 then cons_text (digit n) out else rest

-- str(n): a number has at most as many digits as its successor counts.
unfoldable pub decimal : ℕ → String
unfolding digits
decimal n = digits (suc n) n nil_text

unfoldable read : ℕ → String → ℕ
read n nil_text = n
read n (cons_text c s) = read (n * 10 + (code c - 48)) s

code-digit : (d : ℕ) → d < 10 → code (digit d) ≡ 48 + d
unfolding digit
code-digit zero h = refl
code-digit (suc zero) h = refl
code-digit (suc (suc zero)) h = refl
code-digit (suc (suc (suc zero))) h = refl
code-digit (suc (suc (suc (suc zero)))) h = refl
code-digit (suc (suc (suc (suc (suc zero))))) h = refl
code-digit (suc (suc (suc (suc (suc (suc zero)))))) h = refl
code-digit (suc (suc (suc (suc (suc (suc (suc zero))))))) h = refl
code-digit (suc (suc (suc (suc (suc (suc (suc (suc zero)))))))) h = refl
code-digit (suc (suc (suc (suc (suc (suc (suc (suc (suc zero))))))))) h = refl
code-digit (suc (suc (suc (suc (suc (suc (suc (suc (suc (suc d)))))))))) h = absurd (omega arith)

read-digit : (n d : ℕ) (s : String) → d < 10 → read n (cons_text (digit d) s) ≡ read (n * 10 + d) s
unfolding read
read-digit n d s h = ap (λ x. read x s) (omega (arith, code-digit d h))

read-digits : (fuel n : ℕ) (out : String) → n < fuel → read 0 (digits fuel n out) ≡ read n out
unfolding digits
read-digits zero n out h = absurd (omega arith)
read-digits (suc fuel) n out h = elim (Bool-cases (ltb n 10)) [
  | inl e ↦ rw e (read-digit 0 n out (ground arith) ∙ ap (λ x. read x out) (omega arith))
  | inr e ↦ rw e (
      read-digits fuel (n / 10) (cons_text (digit (n % 10)) out) (ground arith)
      ∙ read-digit (n / 10) (n % 10) out (omega arith)
      ∙ ap (λ x. read x out) (omega arith))
]

-- The fuel is enough: the number is read back from its print.
read-decimal : (n : ℕ) → read 0 (decimal n) ≡ n
unfolding decimal read
read-decimal n = read-digits (suc n) n nil_text (omega arith)

-- Different numbers print differently.
pub decimal_inj : (m n : ℕ) → decimal m ≡ decimal n → m ≡ n
decimal_inj m n h = sym (read-decimal m) ∙ ap (λ s. read 0 s) h ∙ read-decimal n
