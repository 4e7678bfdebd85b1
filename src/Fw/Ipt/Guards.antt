-- ===== src/Fw/Ipt/Guards.antt =====
-- The guards that newChain puts at the top of a chain.
use x_divine_ray.Prelude.{
  Bool, List, Text, [], any_of, false, if◌then◌else◌, map, refl, true, ◌∷◌, ◌≡◌, ◌++◌, ap, ◌∙◌, sym,
  append_assoc,
}
use x_divine_ray.Fw.Packet.{Packet, Fate}
use x_divine_ray.Fw.Ipt.{IptRule, IptMatch, mac_source, dst_cidr, Target, return_it}
use x_divine_ray.Fw.Ipt.Run.{run_chain, matches}
use x_divine_ray.Fw.Ipt.Jumps.{Settles}

abbrev pub rule : IptMatch → Target → IptRule
rule m a = record { on = m; target = a }

abbrev pub guards : List Text → List Text → List IptRule
guards macs cidrs =
    map (λ mac. rule (mac_source mac) return_it) macs
    ++ map (λ cidr. rule (dst_cidr cidr) return_it) cidrs

Settles-if :
    (b : Bool) (r guarded : Fate → Bool × Fate)
    → ((f : Fate) → guarded f ≡ (if b then (true, f) else r f))
    → Settles r
    → Settles guarded
Settles-if true r guarded h s f e = rw (h f) (h f)
Settles-if false r guarded h s f e = rw (h f, h (r f).1) (s f (sym (ap (λ x. x.0) (h f)) ∙ e))

if_or :
    (a b : Bool) {A : Type 0} (x y : A)
    → (if a then x else (if b then x else y)) ≡ (if (if a then true else b) then x else y)
if_or true b x y = refl
if_or false b x y = refl

module _ (k : Packet) where
  pub run_chain_return :
      (m : IptMatch) (rs : List IptRule) (f : Fate)
      → run_chain k (rule m return_it ∷ rs) f
        ≡ (if matches k f.mark m then (true, f) else run_chain k rs f)
  unfolding run_chain
  run_chain_return m rs f = go (matches k f.mark m)
    where
      go :
          (b : Bool)
          → (let here : Bool × (Bool × Fate) =
                if b then (false, (true, f)) else (true, (true, f)) in
              if here.0 then run_chain k rs here.1.1 else here.1)
            ≡ (if b then (true, f) else run_chain k rs f)
      go true = refl
      go false = refl

  pub run_chain-cidrs :
      (cidrs : List Text) (rs : List IptRule) (f : Fate)
      → run_chain k (map (λ cidr. rule (dst_cidr cidr) return_it) cidrs ++ rs) f
        ≡ (if any_of k.dst_in cidrs then (true, f) else run_chain k rs f)
  unfolding matches
  run_chain-cidrs [] rs f = refl
  run_chain-cidrs (x ∷ xs) rs f =
      rw (run_chain_return, run_chain-cidrs xs rs f) (if_or (k.dst_in x) (any_of k.dst_in xs) _ _)

  run_chain-macs :
      (macs : List Text) (rs : List IptRule) (f : Fate)
      → run_chain k (map (λ mac. rule (mac_source mac) return_it) macs ++ rs) f
        ≡ (if any_of k.mac_is macs then (true, f) else run_chain k rs f)
  unfolding matches
  run_chain-macs [] rs f = refl
  run_chain-macs (x ∷ xs) rs f =
      rw (run_chain_return, run_chain-macs xs rs f) (if_or (k.mac_is x) (any_of k.mac_is xs) _ _)

  -- A packet that no guard lets out meets the rules behind them.
  pub run_chain-guards :
      (macs cidrs : List Text) (rs : List IptRule) (f : Fate)
      → run_chain k (guards macs cidrs ++ rs) f ≡ (
          if (if any_of k.mac_is macs then true else any_of k.dst_in cidrs)
          then (true, f)
          else run_chain k rs f)
  run_chain-guards macs cidrs rs f =
      rw (append_assoc, run_chain-macs, run_chain-cidrs)
        (if_or (any_of k.mac_is macs) (any_of k.dst_in cidrs) _ _)

  pub guards-Settles :
      (macs cidrs : List Text) (rs : List IptRule)
      → Settles (run_chain k rs)
      → Settles (run_chain k (guards macs cidrs ++ rs))
  guards-Settles macs cidrs rs s =
      Settles-if (if any_of k.mac_is macs then true else any_of k.dst_in cidrs) (run_chain k rs) _
        (run_chain-guards macs cidrs rs) s
