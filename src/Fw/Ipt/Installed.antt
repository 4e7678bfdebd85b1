-- ===== src/Fw/Ipt/Installed.antt =====
-- The rules and the jumps that are there after the commands of each part of Apply.
use x_divine_ray.Prelude.{
  Bool, List, Text, [], false, if◌then◌else◌, refl, true, ◌∷◌, ◌≡◌, ◌++◌, ◌&&◌, ap, append-nil,
  append_assoc, map, sym,
}
use x_divine_ray.Fw.{Plan, all_bypass}
use x_divine_ray.Fw.Packet.{Hook, prerouting, hook_eq}
use x_divine_ray.Fw.Nft.{when}
use x_divine_ray.Fw.Ipt.{
  TableName, nat, ChainName, IptRule, IptMatch, Target, Command, append, insert, only, new_chain,
  hook, hook_to, mac_source, dst_cidr, return_it,
}
use x_divine_ray.Fw.Ipt.Run.{Jump, rules_of, jumps_of, table_eq, chain_eq}
use x_divine_ray.Fw.Ipt.Guards.{rule, guards}

pub when_nil {ℓ} : {A : Type ℓ} (b : Bool) → when {A = A} b [] ≡ []
when_nil true = refl
when_nil false = refl

pub when_and_false {ℓ} : {A : Type ℓ} (b : Bool) (xs : List A) → when (b && false) xs ≡ []
when_and_false true xs = refl
when_and_false false xs = refl

when_if {ℓ} : {A : Type ℓ} (b : Bool) (xs : List A) → (if b then xs else []) ≡ when b xs
when_if true xs = refl
when_if false xs = refl

grow {ℓ} :
    {A : Type ℓ} (b : Bool) (xs ys : List A) (j : A)
    → xs ≡ when b ys
    → (if b then xs ++ j ∷ [] else xs) ≡ when b (ys ++ j ∷ [])
grow true xs ys j e = ap (λ l. l ++ j ∷ []) e
grow false xs ys j e = e

module _ (t : TableName) (c : ChainName) where
  pub rules_of-++ :
      (xs ys : List Command) → rules_of t c (xs ++ ys) ≡ rules_of t c xs ++ rules_of t c ys
  unfolding rules_of
  rules_of-++ [] ys = refl
  rules_of-++ (Command.create a b ∷ xs) ys = rules_of-++ xs ys
  rules_of-++ (insert a b d e ∷ xs) ys = rules_of-++ xs ys
  rules_of-++ (append t' c' m a ∷ xs) ys =
      rw (rules_of-++ xs ys) (go (table_eq t' t && chain_eq c' c))
    where
      go :
          (b : Bool)
          → (if b
              then rule m a ∷ (rules_of t c xs ++ rules_of t c ys)
              else rules_of t c xs ++ rules_of t c ys)
            ≡ (if b then rule m a ∷ rules_of t c xs else rules_of t c xs) ++ rules_of t c ys
      go true = refl
      go false = refl

  pub rules_of-when :
      (b : Bool) (xs : List Command) → rules_of t c (when b xs) ≡ when b (rules_of t c xs)
  unfolding rules_of
  rules_of-when true xs = refl
  rules_of-when false xs = refl

  pub rules_of-map :
      (t' : TableName) (c' : ChainName) (match_of : Text → IptMatch) (a : Target) (xs : List Text)
      → rules_of t c (map (λ x. append t' c' (match_of x) a) xs)
        ≡ when (table_eq t' t && chain_eq c' c) (map (λ x. rule (match_of x) a) xs)
  unfolding rules_of
  rules_of-map t' c' match_of a [] = sym (when_nil (table_eq t' t && chain_eq c' c))
  rules_of-map t' c' match_of a (x ∷ xs) =
      rw (rules_of-map t' c' match_of a xs) (go (table_eq t' t && chain_eq c' c))
    where
      go :
          (b : Bool)
          → (let rest : List IptRule = when b (map (λ y. rule (match_of y) a) xs) in
              if b then rule (match_of x) a ∷ rest else rest)
            ≡ when b (map (λ y. rule (match_of y) a) (x ∷ xs))
      go true = refl
      go false = refl

  pub rules_of_cidrs :
      (t' : TableName) (c' : ChainName) (xs : List Text)
      → rules_of t c (map (λ x. append t' c' (dst_cidr x) return_it) xs)
        ≡ when (table_eq t' t && chain_eq c' c) (map (λ x. rule (dst_cidr x) return_it) xs)
  rules_of_cidrs t' c' xs = rules_of-map t' c' dst_cidr return_it xs

  pub rules_of-new_chain :
      (t' : TableName) (c' : ChainName) (p : Plan)
      → rules_of t c (new_chain t' c' p)
        ≡ when (table_eq t' t && chain_eq c' c) (guards p.bypass_macs (all_bypass p))
  unfolding rules_of new_chain
  rules_of-new_chain t' c' p =
      rw
        (
          rules_of-++,
          rules_of-map t' c' mac_source return_it p.bypass_macs,
          rules_of-map t' c' dst_cidr return_it (all_bypass p),
        )
        (go (table_eq t' t && chain_eq c' c))
    where
      go :
          (b : Bool)
          → when b (map (λ x. rule (mac_source x) return_it) p.bypass_macs)
              ++ when b (map (λ x. rule (dst_cidr x) return_it) (all_bypass p))
            ≡ when b (guards p.bypass_macs (all_bypass p))
      go true = refl
      go false = refl

  pub rules_of-hook :
      (t' : TableName) (h : Hook) (c' : ChainName) (p : Plan) → rules_of t c (hook t' h c' p) ≡ []
  unfolding rules_of hook
  rules_of-hook t' h c' p = go p.lan_devices p.wan_device
    where
      each : (ds : List Text) → rules_of t c (map (λ d. insert t' h (only d) c') ds) ≡ []
      each [] = refl
      each (d ∷ ds) = each ds

      go : (ds : List Text) (wan : Text) → rules_of t c (hook_to ds wan t' h c') ≡ []
      go (d ∷ ds) wan = each ds
      go [] (x ∷ wan) = refl
      go [] [] = refl

-- The jumps of one `hook`, wherever they are.
unfoldable pub device_jumps : ChainName → Plan → List Jump
device_jumps c p = jumps_of nat prerouting (hook nat prerouting c p)

module _ (t : TableName) (h : Hook) where
  pub jumps_of-++ :
      (xs ys : List Command) → jumps_of t h (xs ++ ys) ≡ jumps_of t h ys ++ jumps_of t h xs
  unfolding jumps_of
  jumps_of-++ [] ys = sym (append-nil _)
  jumps_of-++ (Command.create a b ∷ xs) ys = jumps_of-++ xs ys
  jumps_of-++ (append a b d e ∷ xs) ys = jumps_of-++ xs ys
  jumps_of-++ (insert t' h' d c' ∷ xs) ys =
      rw (jumps_of-++ xs ys) (go (table_eq t' t && hook_eq h' h))
    where
      go :
          (b : Bool)
          → (let rest : List Jump = jumps_of t h ys ++ jumps_of t h xs in
              if b then rest ++ record { device = d; chain = c' } ∷ [] else rest)
            ≡ jumps_of t h ys
              ++ (if b
                  then jumps_of t h xs ++ record { device = d; chain = c' } ∷ []
                  else jumps_of t h xs)
      go true =
          append_assoc (jumps_of t h ys) (jumps_of t h xs) (record { device = d; chain = c' } ∷ [])
      go false = refl

  pub jumps_of-when :
      (b : Bool) (xs : List Command) → jumps_of t h (when b xs) ≡ when b (jumps_of t h xs)
  unfolding jumps_of
  jumps_of-when true xs = refl
  jumps_of-when false xs = refl

  pub jumps_of-map :
      (t' : TableName) (c' : ChainName) (match_of : Text → IptMatch) (a : Target) (xs : List Text)
      → jumps_of t h (map (λ x. append t' c' (match_of x) a) xs) ≡ []
  unfolding jumps_of
  jumps_of-map t' c' match_of a [] = refl
  jumps_of-map t' c' match_of a (x ∷ xs) = jumps_of-map t' c' match_of a xs

  pub jumps_of-new_chain :
      (t' : TableName) (c' : ChainName) (p : Plan) → jumps_of t h (new_chain t' c' p) ≡ []
  unfolding jumps_of new_chain
  jumps_of-new_chain t' c' p =
      rw
        (
          jumps_of-++,
          jumps_of-map t' c' mac_source return_it p.bypass_macs,
          jumps_of-map t' c' dst_cidr return_it (all_bypass p),
        )
        refl

  pub jumps_of-hook :
      (t' : TableName) (h' : Hook) (c : ChainName) (p : Plan)
      → jumps_of t h (hook t' h' c p) ≡ when (table_eq t' t && hook_eq h' h) (device_jumps c p)
  unfolding jumps_of hook device_jumps
  jumps_of-hook t' h' c p = go p.lan_devices p.wan_device
    where
      each :
          (ds : List Text)
          → jumps_of t h (map (λ d. insert t' h' (only d) c) ds)
            ≡ when
                (table_eq t' t && hook_eq h' h)
                (jumps_of nat prerouting (map (λ d. insert nat prerouting (only d) c) ds))
      each [] = sym (when_nil (table_eq t' t && hook_eq h' h))
      each (d ∷ ds) = grow (table_eq t' t && hook_eq h' h) _ _ _ (each ds)

      go :
          (ds : List Text) (wan : Text)
          → jumps_of t h (hook_to ds wan t' h' c)
            ≡ when
                (table_eq t' t && hook_eq h' h)
                (jumps_of nat prerouting (hook_to ds wan nat prerouting c))
      go (d ∷ ds) wan = each (d ∷ ds)
      go [] (x ∷ wan) = when_if (table_eq t' t && hook_eq h' h) _
      go [] [] = when_if (table_eq t' t && hook_eq h' h) _

pub ruleset installed = (
  rules_of-++, rules_of-when, rules_of_cidrs, rules_of-new_chain, rules_of-hook, jumps_of-++,
  jumps_of-when, jumps_of-map, jumps_of-new_chain, jumps_of-hook, when_nil, append-nil,
)
