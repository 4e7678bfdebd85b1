-- ===== src/Xray/Result.antt =====
-- The errors of Build and of what it calls (internal/xray/config.go), without their texts.
use x_divine_ray.Prelude.{Option, none, refl, some, ◌≡◌, Bool, false, true}
use x_divine_ray.Model.Profile.{Proto, Profile, ProfileError}
use x_divine_ray.Model.Rule.Validate.{RuleError}
use x_divine_ray.Model.Strategy.{GroupError}

pub data BuildError : Type 0 where
  no_settings no_target no_members : BuildError
  bad_profile : ProfileError → BuildError
  bad_group : GroupError → BuildError
  bad_rule : RuleError → BuildError
  unsupported : Proto → BuildError
  pin_not_digest pin_unsupported insecure_removed : BuildError
  h2_removed kcp_options_removed quic_removed : BuildError
  of_member : Profile → BuildError → BuildError

pub data Result {ℓ} (A : Type ℓ) : Type ℓ where
  ok : A → Result A
  err : BuildError → Result A

-- `if err := x.Validate(); err != nil { return nil, err }`
abbrev pub checked {ℓ} : {E : Type ℓ} → (E → BuildError) → Option E → Result (Unit {0})
checked wrap none = ok tt
checked wrap (some e) = err (wrap e)

-- `fmt.Errorf("…: %w", err)`
abbrev pub wrapped {ℓ} : {A : Type ℓ} → (BuildError → BuildError) → Result A → Result A
wrapped f (ok a) = ok a
wrapped f (err e) = err (f e)

-- `if err != nil { return nil, err }` after a call, and what follows it.
abbrev pub ◌>>=◌ {ℓ κ} : {A : Type ℓ} {B : Type κ} → Result A → (A → Result B) → Result B
err failure >>= next = err failure
ok value >>= next = next value

infixl 5 ◌>>=◌
-- A successful chain has a successful first part, and so on.
module _ {ℓ κ} {A : Type ℓ} {B : Type κ} where
  pub >>=-eq-ok :
      (call : Result A) (next : A → Result B) {last : B}
      → (call >>= next) ≡ ok last
      → (value : A) × (call ≡ ok value) × (next value ≡ ok last)
  >>=-eq-ok (err failure) next done = cc
  >>=-eq-ok (ok value) next done = (value, refl, done)

pub checked-eq-ok {ℓ} :
    {E : Type ℓ} (wrap : E → BuildError) (e : Option E) {a : Unit {0}}
    → checked wrap e ≡ ok a
    → e ≡ none
checked-eq-ok wrap none h = refl
checked-eq-ok wrap (some e) h = cc

pub wrapped-eq-ok {ℓ} :
    {A : Type ℓ} (f : BuildError → BuildError) (m : Result A) {a : A}
    → wrapped f m ≡ ok a
    → m ≡ ok a
wrapped-eq-ok f (ok a) h = h
wrapped-eq-ok f (err e) h = cc

abbrev pub is_ok {ℓ} : {A : Type ℓ} → Result A → Bool
is_ok (ok a) = true
is_ok (err e) = false

pub is_ok_value {ℓ} : {A : Type ℓ} (m : Result A) → is_ok m ≡ true → (a : A) × (m ≡ ok a)
is_ok_value (ok a) h = (a, refl)
is_ok_value (err e) h = cc

-- A chain succeeds where both of its parts do.
pub is_ok->>= {ℓ κ} :
    {A : Type ℓ} {B : Type κ} (m : Result A) (f : A → Result B)
    → is_ok m ≡ true
    → ((a : A) → is_ok (f a) ≡ true)
    → is_ok (m >>= f) ≡ true
is_ok->>= (ok a) f h k = k a
is_ok->>= (err e) f h k = cc

pub is_ok-wrapped {ℓ} :
    {A : Type ℓ} (f : BuildError → BuildError) (m : Result A) → is_ok (wrapped f m) ≡ is_ok m
is_ok-wrapped f (ok a) = refl
is_ok-wrapped f (err e) = refl

pub is_ok-checked {ℓ} :
    {E : Type ℓ} (f : E → BuildError) (e : Option E) → e ≡ none → is_ok (checked f e) ≡ true
is_ok-checked f none h = refl
is_ok-checked f (some e) h = cc
