-- ===== src/Ucicfg/Value/RoundTrip.antt =====
-- What toInt and toBool read is what Itoa and fromBool wrote.
use x_divine_ray.Prelude.{
  Bool, ltb→lt, ◌⊎◌, Text, [], arith, codes, false, some, text_eq, true, ℕ, ◌*◌, ◌+◌, ◌/◌, ◌%◌, ◌∷◌,
  ◌++◌, ◌<◌, ◌≡◌, refl, sym, ap, ◌∙◌, append_assoc, ◌==◌, append-nil, ltb, suc, zero, Bool-cases,
  inl, inr,
}
use mathlib.Core.Option
use x_divine_ray.Prelude.Trim.{trim, is_space, drop_space, trim_id}
use x_divine_ray.Model.Int.{ℤ, pos, negsuc}
use x_divine_ray.Ucicfg.Syntax.{decimal, digits}
use x_divine_ray.Ucicfg.Value.{
  itoa, atoi, to_int, to_bool, from_bool, is_digit, digits_from, number, negated, or_else,
}

is_digit-48 : (d : ℕ) → d < 10 → is_digit (48 + d) ≡ true
unfolding is_digit
is_digit-48 d h = ground arith

digits_from-digit :
    (acc d : ℕ) (s : Text) → d < 10 → digits_from acc ((48 + d) ∷ s) ≡ digits_from (acc * 10 + d) s
unfolding digits_from
digits_from-digit acc d s h = rw (is_digit-48 d h) (ap (λ x. digits_from x s) (omega arith))

mod_10 : (n : ℕ) → n % 10 < 10
mod_10 n = omega arith

whole : (n : ℕ) → (n / 10) * 10 + n % 10 ≡ n
whole n = omega arith

-- The digits of `n` count up to `n`, whatever follows them.
digits_from-digits :
    (fuel n : ℕ) (s : Text) → n < fuel → digits_from 0 (digits fuel n ++ s) ≡ digits_from n s
digits_from-digits zero n s h = absurd (omega arith)
digits_from-digits (suc fuel) n s h = elim (Bool-cases (ltb n 10)) [
  | inl e ↦ rw e (digits_from-digit 0 n s (ltb→lt n 10 e) ∙ ap (λ x. digits_from x s) (omega arith))
  | inr e ↦
      rw (e, append_assoc)
        (digits_from-digits fuel (n / 10) ((48 + n % 10) ∷ s) (ground arith)
          ∙ (digits_from-digit (n / 10) (n % 10) s (mod_10 n)
              ∙ ap (λ x. digits_from x s) (whole n)))
]

-- A decimal is one digit, or one, others and one.
abbrev Framed : Text → Type 0
Framed t =
    ((a : ℕ) × (t ≡ a ∷ []) × (is_digit a ≡ true))
    ⊎ ((a : ℕ) × (s : Text) × (b : ℕ) × (t ≡ a ∷ (s ++ b ∷ []))
        × (is_digit a ≡ true)
        × (is_digit b ≡ true))

Framed-snoc : (t : Text) (b : ℕ) → Framed t → is_digit b ≡ true → Framed (t ++ b ∷ [])
Framed-snoc t b (inl (a, e, ha)) hb = inr (a, [], b, rw e refl, ha, hb)
Framed-snoc t b (inr (a, s, c, e, ha, hc)) hb = inr (a, s ++ c ∷ [], b, rw e refl, ha, hb)

digits-Framed : (fuel n : ℕ) → n < fuel → Framed (digits fuel n)
digits-Framed zero n h = absurd (omega arith)
digits-Framed (suc fuel) n h = elim (Bool-cases (ltb n 10)) [
  | inl e ↦ rw e (inl (48 + n, refl, is_digit-48 n (ltb→lt n 10 e)))
  | inr e ↦ rw e (
      Framed-snoc (digits fuel (n / 10)) (48 + n % 10) (digits-Framed fuel (n / 10) (ground arith))
        (is_digit-48 (n % 10) (mod_10 n)))
]

is_digit-is_space : (a : ℕ) → is_digit a ≡ true → is_space a ≡ false
unfolding is_digit is_space
is_digit-is_space a h = ground arith

trim_one : (a : ℕ) → is_space a ≡ false → trim (a ∷ []) ≡ a ∷ []
unfolding trim drop_space
trim_one a h = rw h (rw h refl)

-- A sign may stand before it.
trim_minus : (t : Text) → Framed t → trim (45 ∷ t) ≡ 45 ∷ t
unfolding is_space
trim_minus t (inl (a, e, ha)) = rw e (trim_id 45 [] a refl (is_digit-is_space a ha))
trim_minus t (inr (a, s, b, e, ha, hb)) = rw e (trim_id 45 (a ∷ s) b refl (is_digit-is_space b hb))

digits_from-decimal : (n : ℕ) → digits_from 0 (decimal n) ≡ some n
unfolding decimal digits_from
digits_from-decimal n =
    ap (digits_from 0) (sym (append-nil (digits (suc n) n)))
    ∙ digits_from-digits (suc n) n [] (omega arith)

no_sign : (c : ℕ) → is_digit c ≡ true → ((c == 45) ≡ false) × ((c == 43) ≡ false)
unfolding is_digit
no_sign c h = (ground arith, ground arith)

-- Of a text that begins with a digit, Atoi reads the digits.
atoi_digit :
    (c : ℕ) (s : Text) → is_digit c ≡ true → atoi (c ∷ s) ≡ Option.map pos (digits_from 0 (c ∷ s))
unfolding atoi
atoi_digit c s h = rw ((no_sign c h).0, (no_sign c h).1) refl

atoi-Framed : (t : Text) (n : ℕ) → Framed t → digits_from 0 t ≡ some n → atoi t ≡ some (pos n)
atoi-Framed t n (inl (a, e, ha)) h =
    ap atoi e ∙ (atoi_digit a [] ha ∙ ap (Option.map pos) (ap (digits_from 0) (sym e) ∙ h))
atoi-Framed t n (inr (a, s, b, e, ha, hb)) h =
    ap atoi e
    ∙ (atoi_digit a (s ++ b ∷ []) ha ∙ ap (Option.map pos) (ap (digits_from 0) (sym e) ∙ h))

number-Framed : (t : Text) → Framed t → number t ≡ digits_from 0 t
number-Framed t (inl (a, e, ha)) = rw e refl
number-Framed t (inr (a, s, b, e, ha, hb)) = rw e refl

to_int-Framed : (t : Text) (def : ℤ) → Framed t → to_int t def ≡ or_else (atoi t) def
unfolding to_int
to_int-Framed t def (inl (a, e, ha)) =
    rw e (ap (λ x. or_else (atoi x) def) (trim_one a (is_digit-is_space a ha)))
to_int-Framed t def (inr (a, s, b, e, ha, hb)) = rw e (
    ap (λ x. or_else (atoi x) def)
      (trim_id a s b (is_digit-is_space a ha) (is_digit-is_space b hb)))

decimal-Framed : (n : ℕ) → Framed (decimal n)
unfolding decimal
decimal-Framed n = digits-Framed (suc n) n (omega arith)

-- What Itoa writes, toInt reads, whatever its default is.
pub to_int-itoa : (z def : ℤ) → to_int (itoa z) def ≡ z
unfolding to_int itoa atoi
to_int-itoa (pos n) def =
    to_int-Framed (decimal n) def (decimal-Framed n)
    ∙ ap (λ o. or_else o def) (atoi-Framed (decimal n) n (decimal-Framed n) (digits_from-decimal n))
to_int-itoa (negsuc n) def =
    ap (λ x. or_else (atoi x) def) (trim_minus (decimal (suc n)) (decimal-Framed (suc n)))
    ∙ ap (λ o. or_else (Option.map negated o) def)
        (number-Framed (decimal (suc n)) (decimal-Framed (suc n)) ∙ digits_from-decimal (suc n))

pub to_bool-from_bool : (b def : Bool) → to_bool (from_bool b) def ≡ b
unfolding to_bool from_bool codes text_eq trim drop_space is_space
to_bool-from_bool true def = refl
to_bool-from_bool false def = refl
