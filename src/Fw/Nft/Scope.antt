-- ===== src/Fw/Nft/Scope.antt =====
-- The guards that writeScopeGuards puts at the top of a chain.
use x_divine_ray.Prelude.{
  List, Text, [], arith, any_of, if◌then◌else◌, ◌++◌, ◌∷◌, ◌≡◌, refl, true, false, Bool, ap,
  append_assoc,
}
use mathlib.Core.Path.{◌≡⟨◌⟩◌, ◌∎}
use x_divine_ray.Fw.{Plan, all_bypass}
use x_divine_ray.Fw.Packet.{Packet, Fate}
use x_divine_ray.Fw.Meaning.{in_scope, from_client}
use x_divine_ray.Fw.Nft.{
  Table, Rule, Match, rule, dst_bypassed, return_it, scope_of, mac_guard, write_scope_guards,
}
use x_divine_ray.Fw.Nft.Run.{run_rules, matches}

module _ (t : Table) (k : Packet) where
  -- A rule that returns lets the others see what it does not match.
  pub run_rules_return :
      (m : Match) (rs : List Rule) (f : Fate)
      → run_rules t k (rule m return_it ∷ rs) f
        ≡ (if matches t k f.mark m then f else run_rules t k rs f)
  unfolding run_rules
  run_rules_return m rs f = go (matches t k f.mark m)
    where
      go :
          (b : Bool)
          → (let here : Bool × Fate = if b then (false, f) else (true, f) in
              if here.0 then run_rules t k rs here.1 else here.1)
            ≡ (if b then f else run_rules t k rs f)
      go true = refl
      go false = refl

  run_rules-scope_of :
      (rs : List Rule) (f : Fate) (ds : List Text) (wan : Text)
      → run_rules t k (scope_of ds wan ++ rs) f
        ≡ (if from_client ds wan k.iif then run_rules t k rs f else f)
  unfolding matches
  run_rules-scope_of rs f (d ∷ ds) wan = rw run_rules_return (ground arith)
  run_rules-scope_of rs f [] [] = refl
  run_rules-scope_of rs f [] (c ∷ wan) = rw run_rules_return (ground arith)

  run_rules-mac_guard :
      (rs : List Rule) (f : Fate) (ms : List Text)
      → t.macs ≡ ms
      → run_rules t k (mac_guard ms ++ rs) f
        ≡ (if any_of k.mac_is ms then f else run_rules t k rs f)
  unfolding matches
  run_rules-mac_guard rs f [] e = refl
  run_rules-mac_guard rs f (m ∷ ms) e =
      rw run_rules_return (ap (λ l. if any_of k.mac_is l then f else run_rules t k rs f) e)

  pub run_rules-write_scope_guards :
      (p : Plan) (rs : List Rule) (f : Fate)
      → t.macs ≡ p.bypass_macs
      → t.bypass ≡ all_bypass p
      → run_rules t k (write_scope_guards p ++ rs) f
        ≡ (if in_scope p k then run_rules t k rs f else f)
  unfolding write_scope_guards in_scope matches
  run_rules-write_scope_guards p rs f em eb =
      run_rules t k
        ((scope_of p.lan_devices p.wan_device
            ++ (mac_guard p.bypass_macs ++ rule dst_bypassed return_it ∷ []))
          ++ rs)
        f
      ≡⟨ (rw (
        append_assoc,
        append_assoc,
        run_rules-scope_of,
        run_rules-mac_guard (rule dst_bypassed return_it ∷ rs) f p.bypass_macs em,
      )) ⟩
        (if from_client p.lan_devices p.wan_device k.iif
          then (if any_of k.mac_is p.bypass_macs
              then f
              else run_rules t k (rule dst_bypassed return_it ∷ rs) f)
          else f)
      ≡⟨ (rw (run_rules_return, eb)) ⟩
        (if from_client p.lan_devices p.wan_device k.iif
          then (if any_of k.mac_is p.bypass_macs
              then f
              else (if any_of k.dst_in (all_bypass p) then f else run_rules t k rs f))
          else f)
      ≡⟨ ground arith ⟩ (if in_scope p k then run_rules t k rs f else f) ∎
