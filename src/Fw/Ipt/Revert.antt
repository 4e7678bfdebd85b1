-- ===== src/Fw/Ipt/Revert.antt =====
-- The first half of Revert: the jumps are taken out of every hook, by their number in its listing.
-- A hook is here the list of its rules' targets, and every listing and deletion works.
use x_divine_ray.Prelude.{
  Bool, List, Option, Text, [], arith, codes, false, if◌then◌else◌, none, not, any_of, ◌&&◌, refl,
  some, text_eq, text_eq_iff, true, ℕ, ◌-◌, ◌∷◌, ◌≡◌, suc, zero, ap, ◌∙◌, sym,
}
use mathlib.Core.Option
use x_divine_ray.Fw.Packet.{Hook}
use x_divine_ray.Fw.Ipt.{TableName}

abbrev pub own_chains : List Text
own_chains = codes "XWRT_PRE" ∷ codes "XWRT_MARK" ∷ codes "XWRT_OUT" ∷ codes "XWRT_QUIC" ∷ []

-- The rule with the lowest number that jumps to the chain goes, or the error says that there is none.
unfoldable pub delete_jump : Text → List Text → Option (List Text)
delete_jump chain [] = none
delete_jump chain (t ∷ ts) =
    if text_eq t chain then some ts else Option.map (λ rest. t ∷ rest) (delete_jump chain ts)

-- `n` passes of the inner loop, left at the first error.
unfoldable pub delete_jumps : ℕ → Text → List Text → List Text
delete_jumps zero chain ts = ts
delete_jumps (suc n) chain ts = elim (delete_jump chain ts) [
  | none ↦ ts
  | some rest ↦ delete_jumps n chain rest
]

unfoldable pub revert_chains : List Text → List Text → List Text
revert_chains [] ts = ts
revert_chains (c ∷ cs) ts = revert_chains cs (delete_jumps 8 c ts)

unfoldable pub revert_jumps : (TableName → Hook → List Text) → TableName → Hook → List Text
revert_jumps rules t h = revert_chains own_chains (rules t h)

abbrev pub count : Text → List Text → ℕ
count c [] = 0
count c (t ∷ ts) = let rest : ℕ = count c ts in if text_eq t c then suc rest else rest

abbrev pub without : Text → List Text → List Text
without c [] = []
without c (t ∷ ts) = let rest : List Text = without c ts in if text_eq t c then rest else t ∷ rest

-- What a deletion leaves: with an error there was no such jump, else one is gone and no other rule.
abbrev Took : Text → List Text → Option (List Text) → Type 0
Took c ts none = count c ts ≡ 0
Took c ts (some us) = (count c ts ≡ suc (count c us)) × (without c ts ≡ without c us)

module _ (c : Text) where
  cons-Took :
      (t : Text) (ts : List Text) (b : Bool) (o : Option (List Text))
      → text_eq t c ≡ b
      → Took c ts o
      → Took c (t ∷ ts) (if b then some ts else Option.map (λ rest. t ∷ rest) o)
  cons-Took t ts true o e k = (rw e refl, rw e refl)
  cons-Took t ts false none e k = rw e k
  cons-Took t ts false (some us) e k = (rw e k.0, rw e (ap (λ rest. t ∷ rest) k.1))

  delete_jump-Took : (ts : List Text) → Took c ts (delete_jump c ts)
  unfolding delete_jump
  delete_jump-Took [] = refl
  delete_jump-Took (t ∷ ts) =
      cons-Took t ts (text_eq t c) (delete_jump c ts) refl (delete_jump-Took ts)

  delete_jumps-count : (n : ℕ) (ts : List Text) → count c (delete_jumps n c ts) ≡ count c ts - n
  unfolding delete_jumps
  delete_jumps-count zero ts = omega arith
  delete_jumps-count (suc n) ts = go (delete_jumps-count n) (delete_jump c ts) (delete_jump-Took ts)
    where
      go :
          ((us : List Text) → count c (delete_jumps n c us) ≡ count c us - n)
          → (o : Option (List Text)) → Took c ts o
          → count c (elim o [ none ↦ ts | some rest ↦ delete_jumps n c rest ]) ≡ count c ts - suc n
      go ih none k = rw k (omega arith)
      go ih (some us) k = rw k.0 (ih us ∙ omega arith)

  delete_jumps-without : (n : ℕ) (ts : List Text) → without c (delete_jumps n c ts) ≡ without c ts
  unfolding delete_jumps
  delete_jumps-without zero ts = refl
  delete_jumps-without (suc n) ts =
      go (delete_jumps-without n) (delete_jump c ts) (delete_jump-Took ts)
    where
      go :
          ((us : List Text) → without c (delete_jumps n c us) ≡ without c us)
          → (o : Option (List Text)) → Took c ts o
          → without c (elim o [ none ↦ ts | some rest ↦ delete_jumps n c rest ]) ≡ without c ts
      go ih none k = refl
      go ih (some us) k = ih us ∙ sym k.1

  -- Deletions for one chain leave the jumps to another.
  count-without :
      (d : Text) (ts : List Text) → text_eq d c ≡ false → count d (without c ts) ≡ count d ts
  count-without d [] e = refl
  count-without d (t ∷ ts) e =
      ground (arith, count-without d ts, text_eq_iff t c, text_eq_iff t d, text_eq_iff d c)

  pub delete_jumps_other :
      (d : Text) (n : ℕ) (ts : List Text)
      → text_eq d c ≡ false
      → count d (delete_jumps n c ts) ≡ count d ts
  delete_jumps_other d n ts e =
      sym (count-without d (delete_jumps n c ts) e)
      ∙ (ap (count d) (delete_jumps-without n ts) ∙ count-without d ts e)

delete_jumps_lem :
    (d c : Text) (ts : List Text)
    → count d (delete_jumps 8 c ts) ≡ (if text_eq d c then count d ts - 8 else count d ts)
delete_jumps_lem d c ts = go (text_eq d c) refl
  where
    go :
        (b : Bool)
        → text_eq d c ≡ b
        → count d (delete_jumps 8 c ts) ≡ (if b then count d ts - 8 else count d ts)
    go true e = rw ((text_eq_iff d c).0 e) (delete_jumps-count c 8 ts)
    go false e = delete_jumps_other c d 8 ts e

abbrev distinct : List Text → Bool
distinct [] = true
distinct (c ∷ cs) = not (any_of (text_eq c) cs) && distinct cs

revert_chains-count :
    (d : Text) (cs ts : List Text)
    → distinct cs ≡ true
    → count d (revert_chains cs ts) ≡ (if any_of (text_eq d) cs then count d ts - 8 else count d ts)
unfolding revert_chains
revert_chains-count d [] ts e = refl
revert_chains-count d (c ∷ cs) ts e = ground (
  arith,
  revert_chains-count d cs (delete_jumps 8 c ts),
  delete_jumps_lem d c ts,
  text_eq_iff d c,
  ap (λ x. any_of (text_eq x) cs),
)

-- Reverting takes eight jumps at most to each chain of the daemon's own out of a hook, which is all
-- of them where there are no more than eight, and leaves every other rule.
pub revert_jumps-count :
    (rules : TableName → Hook → List Text) (t : TableName) (h : Hook) (d : Text)
    → count d (revert_jumps rules t h)
      ≡ (if any_of (text_eq d) own_chains then count d (rules t h) - 8 else count d (rules t h))
unfolding revert_jumps codes text_eq
revert_jumps-count rules t h d = revert_chains-count d own_chains (rules t h) refl
