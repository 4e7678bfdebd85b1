-- ===== src/Model/Subscription/Refresh.antt =====
-- A listing of the same servers keeps what the stored profiles are known by.
use x_divine_ray.Prelude.{
  Bool, List, Text, [], all_of, ap, false, if◌then◌else◌, keep_if, map, not, refl, some, true, ℕ,
  ◌&&◌, ◌++◌, ◌∙◌, ◌∷◌, ◌≡◌, arith,
}
use x_divine_ray.Model.Profile.{Profile, is_empty}
use x_divine_ray.Model.Subscription.{
  same_server, Slot, claim, merge_fetched, is_mine, merge_subscription,
}

-- A stored profile as it is listed now.
abbrev pub relisted : Text → Profile × Profile → Profile
relisted sub (m, f) = record f {
  subscription = sub;
  id = m.id;
  pinned_cert = if is_empty f.pinned_cert then m.pinned_cert else f.pinned_cert;
}

-- The two are one server, and the stored one has an id.
abbrev pub is_pair : Profile × Profile → Bool
is_pair (m, f) = same_server m f && not (is_empty m.id)

abbrev pub stored_of : List (Profile × Profile) → List Profile
stored_of ps = map (λ p. p.0) ps

abbrev pub listed_of : List (Profile × Profile) → List Profile
listed_of ps = map (λ p. p.1) ps

abbrev taken : List Profile → List Slot
taken ms = map (λ m. (m, true)) ms

abbrev free : List Profile → List Slot
free ms = map (λ m. (m, false)) ms

claim_first :
    (p m : Profile) (done rest : List Profile)
    → same_server m p ≡ true
    → claim p (taken done ++ free (m ∷ rest)) ≡ (some m, taken (done ++ m ∷ []) ++ free rest)
unfolding claim
claim_first p m [] rest h = rw h refl
claim_first p m (d ∷ done) rest h = rw (claim_first p m done rest h) refl

module _ (sub : Text) (new_id : ℕ → Text) where
  merge_fetched-pairs :
      (done : List Profile) (ps : List (Profile × Profile))
      → all_of is_pair ps ≡ true
      → merge_fetched sub new_id 0 (taken done ++ free (stored_of ps)) (listed_of ps)
        ≡ map (relisted sub) ps
  unfolding merge_fetched same_server
  merge_fetched-pairs done [] h = refl
  merge_fetched-pairs done ((m, f) ∷ ps) h =
      let c = claim_first (record f { subscription = sub }) m done (stored_of ps) (ground arith) in
      let named : is_empty m.id ≡ false = ground arith in
      rw (c, named)
        (ap (◌∷◌ (relisted sub (m, f))) (merge_fetched-pairs (done ++ m ∷ []) ps (ground arith)))

  -- When a subscription lists the servers that are stored for it again, in the stored order, each
  -- profile is as it is listed now, but keeps its id and, where the listing gives none, its pinned
  -- certificate; the profiles from elsewhere stay as they are, before them.
  pub merge_subscription-pairs :
      (stored : List Profile) (ps : List (Profile × Profile))
      → keep_if (is_mine sub new_id) stored ≡ stored_of ps
      → all_of is_pair ps ≡ true
      → merge_subscription sub new_id stored (listed_of ps)
        ≡ keep_if (λ p. not (is_mine sub new_id p)) stored ++ map (relisted sub) ps
  unfolding merge_subscription
  merge_subscription-pairs stored ps e h =
      ap
        (λ ms.
          keep_if (λ p. not (is_mine sub new_id p)) stored
          ++ merge_fetched sub new_id 0 (free ms) (listed_of ps))
        e
      ∙ ap (λ r. keep_if (λ p. not (is_mine sub new_id p)) stored ++ r)
          (merge_fetched-pairs [] ps h)
