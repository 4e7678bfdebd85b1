-- ===== src/Model/Rule/Validate/Ports.antt =====
-- Which port specifications the checks accept.
use x_divine_ray.Prelude.{
  Bool, List, Option, Text, [], none, some, if◌then◌else◌, text_eq, text_eq_iff, true, false, ℕ,
  ◌≤◌, ◌∷◌, ◌≡◌, ◌↔◌, ◌⊎◌, inl, inr, refl, arith, ap, ◌∙◌, sym, All,
}
use mathlib.Core.Path.{subst}
use x_divine_ray.Prelude.Trim.{trim, drop_space}
use x_divine_ray.Model.Int.{ℤ, pos, negsuc, lt}
use x_divine_ray.Ucicfg.Value.{atoi}
use x_divine_ray.Model.Rule.Validate.{
  RuleError, cut, split, both_ok, all_ok, port_range, validate_port_number, validate_port_part,
  validate_port_spec, number_or_zero, empty_port, range_backwards,
}

abbrev InRange : Option ℤ → ℕ → Type 0
InRange o n = (o ≡ some (pos n)) × (1 ≤ n) × (n ≤ 65535)

abbrev pub IsPort : Text → ℕ → Type 0
IsPort t n = InRange (atoi (trim t)) n

abbrev pub IsRange : Text × Text → Type 0
IsRange ends = (l : ℕ) × ((h : ℕ) × (IsPort ends.0 l × IsPort ends.1 h × (l ≤ h)))

-- A number, or two around the first hyphen of which the second is not smaller.
abbrev pub PartOk : Text → Type 0
PartOk part =
    ((cut 45 (trim part) ≡ none) × ((n : ℕ) × IsPort (trim part) n))
    ⊎ ((ends : Text × Text) × ((cut 45 (trim part) ≡ some ends) × IsRange ends))

port_range_iff : (v : Text) (o : Option ℤ) → (port_range v o ≡ none) ↔ ((n : ℕ) × InRange o n)
port_range_iff v none = (λ e. cc, λ k. cc (k.1.0))
port_range_iff v (some (pos n)) =
    (λ e. (n, (refl, ground arith, ground arith)), λ k. ground (arith, k.1))
port_range_iff v (some (negsuc n)) = (λ e. cc, λ k. cc (k.1.0))

validate_port_number_iff : (v : Text) → (validate_port_number v ≡ none) ↔ ((n : ℕ) × IsPort v n)
unfolding validate_port_number
validate_port_number_iff v = port_range_iff v (atoi (trim v))

both_ok_iff : (a b : Option RuleError) → (both_ok a b ≡ none) ↔ ((a ≡ none) × (b ≡ none))
both_ok_iff none b = (λ e. (refl, e), λ k. k.1)
both_ok_iff (some x) b = (λ e. cc, λ k. cc (k.0))

range_check : Text → Text × Text → Option RuleError
range_check part ends = both_ok (validate_port_number ends.0) (
    both_ok (validate_port_number ends.1) (
      if lt (number_or_zero (atoi (trim ends.1))) (number_or_zero (atoi (trim ends.0)))
      then some (range_backwards part)
      else none))

range_check_iff : (part : Text) (ends : Text × Text) → (range_check part ends ≡ none) ↔ IsRange ends
unfolding range_check
range_check_iff part ends = (to, from)
  where
    in_order :
        (l h : ℕ)
        → atoi (trim ends.0) ≡ some (pos l)
        → atoi (trim ends.1) ≡ some (pos h)
        → ((if lt (number_or_zero (atoi (trim ends.1))) (number_or_zero (atoi (trim ends.0)))
              then some (range_backwards part)
              else none)
            ≡ none)
          ↔ (l ≤ h)
    in_order l h el eh = rw (el, eh) (λ e. ground arith, λ k. ground arith)

    to : range_check part ends ≡ none → IsRange ends
    to e =
        let first = (both_ok_iff _ _).0 e in
        let second = (both_ok_iff _ _).0 first.1 in
        let lo = (validate_port_number_iff ends.0).0 first.0 in
        let hi = (validate_port_number_iff ends.1).0 second.0 in
        (lo.0, (hi.0, (lo.1, hi.1, (in_order lo.0 hi.0 lo.1.0 hi.1.0).0 second.1)))

    from : IsRange ends → range_check part ends ≡ none
    from k = (both_ok_iff _ _).1 (
      (validate_port_number_iff ends.0).1 (k.0, k.1.1.0),
      (both_ok_iff _ _).1 (
        (validate_port_number_iff ends.1).1 (k.1.0, k.1.1.1),
        (in_order k.0 k.1.0 k.1.1.0.0 k.1.1.1.0).1 k.1.1.2,
      ),
    )

not-IsPort : (n : ℕ) → ¬ IsPort [] n
unfolding atoi trim drop_space
not-IsPort n k = cc (k.0)

not-PartOk : (part : Text) → trim part ≡ [] → ¬ PartOk part
unfolding cut
not-PartOk part e (inl k) = not-IsPort k.1.0 (subst (λ t. IsPort t k.1.0) e k.1.1)
not-PartOk part e (inr k) = cc (sym (ap (cut 45) e) ∙ k.1.0)

part_check_iff :
    (part : Text) (o : Option (Text × Text))
    → cut 45 (trim part) ≡ o
    → ((elim o [
      | none ↦ validate_port_number (trim part)
      | some ends ↦ range_check (trim part) ends
    ])
        ≡ none)
      ↔ PartOk part
part_check_iff part none e = (λ x. inl (e, (validate_port_number_iff (trim part)).0 x), one)
  where
    one : PartOk part → validate_port_number (trim part) ≡ none
    one (inl k) = (validate_port_number_iff (trim part)).1 k.1
    one (inr k) = cc (sym e ∙ k.1.0)
part_check_iff part (some ends) e =
    (λ x. inr (ends, (e, (range_check_iff (trim part) ends).0 x)), two)
  where
    two : PartOk part → range_check (trim part) ends ≡ none
    two (inl k) = cc (sym e ∙ k.0)
    two (inr k) =
        subst (λ x. range_check (trim part) x ≡ none)
          (ap (λ o. elim o [ none ↦ ends | some x ↦ x ]) (sym k.1.0 ∙ e))
          ((range_check_iff (trim part) k.0).1 k.1.1)

validate_port_part_iff : (part : Text) → (validate_port_part part ≡ none) ↔ PartOk part
unfolding validate_port_part range_check
validate_port_part_iff part = go (text_eq (trim part) []) refl
  where
    go :
        (b : Bool)
        → text_eq (trim part) [] ≡ b
        → ((if b then some (empty_port part) else elim (cut 45 (trim part)) [
          | none ↦ validate_port_number (trim part)
          | some ends ↦ range_check (trim part) ends
        ])
            ≡ none)
          ↔ PartOk part
    go true e = (λ x. cc, λ k. absurd (not-PartOk part ((text_eq_iff (trim part) []).0 e) k))
    go false e = part_check_iff part (cut 45 (trim part)) refl

all_ok_iff :
    (check : Text → Option RuleError) (P : Text → Type 0) (xs : List Text)
    → ((x : Text) → (check x ≡ none) ↔ P x)
    → (all_ok check xs ≡ none) ↔ All P xs
unfolding all_ok
all_ok_iff check P [] h = (λ e. tt, λ k. refl)
all_ok_iff check P (x ∷ xs) h = (
  λ e.
      let parts = (both_ok_iff (check x) (all_ok check xs)).0 e in
      ((h x).0 parts.0, (all_ok_iff check P xs h).0 parts.1),
  λ k. (both_ok_iff (check x) (all_ok check xs)).1 ((h x).1 k.0, (all_ok_iff check P xs h).1 k.1),
)

-- A port specification is accepted exactly when it is blank, or when every entry between its commas
-- is a port from 1 to 65535, or two of them around a hyphen of which the second is not smaller.
pub validate_port_spec_iff :
    (spec : Text)
    → (validate_port_spec spec ≡ none) ↔ ((trim spec ≡ []) ⊎ All PartOk (split 44 spec))
unfolding validate_port_spec
validate_port_spec_iff spec = go (text_eq (trim spec) []) refl
  where
    back :
        text_eq (trim spec) [] ≡ false
        → (trim spec ≡ []) ⊎ All PartOk (split 44 spec)
        → all_ok validate_port_part (split 44 spec) ≡ none
    back e (inl h) = cc (sym e ∙ (text_eq_iff (trim spec) []).1 h)
    back e (inr k) =
        (all_ok_iff validate_port_part PartOk (split 44 spec) validate_port_part_iff).1 k

    go :
        (b : Bool)
        → text_eq (trim spec) [] ≡ b
        → ((if b then none else all_ok validate_port_part (split 44 spec)) ≡ none)
          ↔ ((trim spec ≡ []) ⊎ All PartOk (split 44 spec))
    go true e = (λ x. inl ((text_eq_iff (trim spec) []).0 e), λ k. refl)
    go false e = (
      λ x. inr ((all_ok_iff validate_port_part PartOk (split 44 spec) validate_port_part_iff).0 x),
      back e,
    )
