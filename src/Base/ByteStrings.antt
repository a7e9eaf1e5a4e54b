-- ===== src/Base/ByteStrings.antt =====
-- Byte strings (std::string): equality, and std::to_string of an unsigned number.
use Prim.Native.Nat.{ℕ, zero, suc, ◌+◌, ◌-◌, ◌*◌, ◌/◌, ◌%◌, ◌≤◌}
use mathlib.Core.Path.{sym, subst, ap, ap₂, ◌≡◌, refl}
use mathlib.Core.Logic.{◌≢◌}
use mathlib.Core.Bool.{Bool, true, false, ◌&&◌}
use mathlib.Core.List.{List, [], ◌∷◌, ◌++◌}
use native.Mathlib.Omega.{arith}
use wotex_matter.Base.Lists.{All, All-append}
use wotex_matter.Base.Tests.{if_cases, ltb→lt, ◌==◌, ltb, if◌then◌else◌}

cons-injective : {x y : ℕ} {xs ys : List ℕ} → x ∷ xs ≡ y ∷ ys → (x ≡ y) × (xs ≡ ys)
cons-injective e = (cc, cc)

abbrev pub Bytes : Type 0
Bytes = List ℕ

unfoldable pub eq_bytes : Bytes → Bytes → Bool
eq_bytes [] [] = true
eq_bytes [] (y ∷ ys) = false
eq_bytes (x ∷ xs) [] = false
eq_bytes (x ∷ xs) (y ∷ ys) = (x == y) && eq_bytes xs ys

pub eq_bytes→eq : (xs ys : Bytes) → eq_bytes xs ys ≡ true → xs ≡ ys
unfolding eq_bytes
eq_bytes→eq [] [] h = refl
eq_bytes→eq [] (y ∷ ys) h = cc
eq_bytes→eq (x ∷ xs) [] h = cc
eq_bytes→eq (x ∷ xs) (y ∷ ys) h = ground (arith, eq_bytes→eq xs ys)

pub eq_bytes_refl : (xs : Bytes) → eq_bytes xs xs ≡ true
unfolding eq_bytes
eq_bytes_refl [] = refl
eq_bytes_refl (x ∷ xs) = ground (arith, eq_bytes_refl xs)

-- The digits of a number of at most `fuel`, highest first.
unfoldable pub decimal : ℕ → ℕ → Bytes
decimal zero n = (n + 48) ∷ []
decimal (suc fuel) n =
    let front = decimal fuel (n / 10) in
    if ltb n 10 then (n + 48) ∷ [] else front ++ (n % 10 + 48) ∷ []

-- std::to_string of an unsigned number.
unfoldable pub to_string : ℕ → Bytes
unfolding decimal
to_string n = decimal n n

-- The number that a run of digits writes, behind those already read.
digits_value : ℕ → Bytes → ℕ
digits_value acc [] = acc
digits_value acc (d ∷ ds) = digits_value (acc * 10 + (d - 48)) ds

digits_value-append :
    (acc : ℕ) (ds : Bytes) (d : ℕ)
    → digits_value acc (ds ++ d ∷ []) ≡ digits_value acc ds * 10 + (d - 48)
unfolding digits_value
digits_value-append acc [] d = refl
digits_value-append acc (x ∷ ds) d = digits_value-append (acc * 10 + (x - 48)) ds d

digits_value-decimal : (fuel n : ℕ) → digits_value 0 (decimal fuel n) ≡ n
unfolding decimal digits_value
digits_value-decimal zero n = omega arith
digits_value-decimal (suc fuel) n = ground (
  arith,
  digits_value-append 0 (decimal fuel (n / 10)) (n % 10 + 48),
  digits_value-decimal fuel (n / 10),
)

pub to_string-injective : (n m : ℕ) → to_string n ≡ to_string m → n ≡ m
unfolding to_string
to_string-injective n m e =
    omega (arith, digits_value-decimal n n, digits_value-decimal m m, ap (digits_value 0) e)

abbrev HasNoColon : Bytes → Type 0
HasNoColon bs = All (λ b. b ≢ b':') bs

decimal-HasNoColon : (fuel n : ℕ) → n ≤ fuel → HasNoColon (decimal fuel n)
unfolding decimal
decimal-HasNoColon zero n h = omega arith
decimal-HasNoColon (suc fuel) n h =
    if_cases HasNoColon (ltb n 10) (λ e. omega (arith, ltb→lt n 10 e))
      (λ e.
        All-append _ (decimal fuel (n / 10)) _ (decimal-HasNoColon fuel (n / 10) (omega arith))
          (omega arith))

pub to_string-HasNoColon : (n : ℕ) → HasNoColon (to_string n)
unfolding to_string
to_string-HasNoColon n = decimal-HasNoColon n n (omega arith)

no_colon_in : (xs ys : Bytes) → HasNoColon (xs ++ b':' ∷ ys) → ⊥
no_colon_in [] ys h = h.0 refl
no_colon_in (x ∷ xs) ys h = no_colon_in xs ys h.1

-- The last colon of a byte string splits it in one way.
pub split_at_colon :
    (xs ys us vs : Bytes)
    → HasNoColon us
    → HasNoColon vs
    → xs ++ b':' ∷ us ≡ ys ++ b':' ∷ vs
    → (xs ≡ ys) × (us ≡ vs)
split_at_colon [] [] us vs hu hv e = (refl, cc)
split_at_colon [] (y ∷ ys) us vs hu hv e =
    absurd (no_colon_in ys vs (subst HasNoColon (cons-injective e).1 hu))
split_at_colon (x ∷ xs) [] us vs hu hv e =
    absurd (no_colon_in xs us (subst HasNoColon (sym (cons-injective e).1) hv))
split_at_colon (x ∷ xs) (y ∷ ys) us vs hu hv e =
    let (head, tail) = cons-injective e in
    let (front, back) = split_at_colon xs ys us vs hu hv tail in (ap₂ ◌∷◌ head front, back)
