-- ===== src/Fw/Ipt/Refines.antt =====
-- The commands of the iptables backend do with every packet what the plan means.
use x_divine_ray.Prelude.{Bool, false, refl, true, ◌≡◌, ℕ, ◌∙◌}
use x_divine_ray.Model.Mode
use x_divine_ray.Model.Mode.{Mode, redirect, mixed, tproxy, tun}
use x_divine_ray.Fw.{Plan}
use x_divine_ray.Fw.Packet.{Packet, Fate, Hook, prerouting, forward, output, untouched}
use x_divine_ray.Fw.Meaning.{meaning, tun_without_dns, if_same}
use x_divine_ray.Fw.Ipt.{chain_pre, apply, apply_dns_only, redirect_to}
use x_divine_ray.Fw.Ipt.Run.{rules_of, jumps_of, run_hook}
use x_divine_ray.Fw.Ipt.Chains.{dns_rules, dns_rules-Settles, dns_fate}
use x_divine_ray.Fw.Ipt.Installed.{installed}
use x_divine_ray.Fw.Ipt.Clients.{
  RunsAsMeant, scoped, runs_redirect, runs_mixed, runs_tproxy, runs_other, runs_forward,
}
use x_divine_ray.Fw.Ipt.Own.{runs_output}
use x_divine_ray.Fw.Ipt.Tables.{run_hook-none, run_hook-nat}

-- What becomes of a packet at a hook, where every command of Apply has worked.
unfoldable pub ipt_fate : Plan → Packet → Hook → ℕ → Fate
ipt_fate p k h m = run_hook (apply p) k h (untouched m)

module _ (p : Plan) (k : Packet) (m : ℕ) where
  abbrev at_tun : Bool → Plan
  at_tun b = record p { mode = tun; redirect_dns = b }

  runs_tun :
      k.transparent ≡ false
      → (b : Bool)
      → run_hook (apply (at_tun b)) k prerouting (untouched m) ≡ meaning (at_tun b) k prerouting m
  unfolding jumps_of rules_of apply apply_dns_only Mode.needs_firewall_capture meaning
  runs_tun e true =
      run_hook-nat (apply (at_tun true)) k prerouting (untouched m) chain_pre (at_tun true)
        (dns_rules redirect_to p.dns_port) (dns_rules-Settles (at_tun true) k k.proto)
        (simp installed refl) (simp installed refl) (simp installed refl) (simp installed refl)
      ∙ scoped (at_tun true) k m tun _ e (dns_fate (at_tun true) k m k.proto)
  runs_tun e false =
      run_hook-none (apply (at_tun false)) k prerouting (untouched m) refl refl refl
      ∙ rw (tun_without_dns k.proto, if_same) refl

  runs : k.transparent ≡ false → (md : Mode) (h : Hook) → RunsAsMeant p k m md h
  runs e redirect prerouting = runs_redirect p k m e
  runs e mixed prerouting = runs_mixed p k m e
  runs e tproxy prerouting = runs_tproxy p k m e
  runs e tun prerouting = runs_tun e p.redirect_dns
  runs e (Mode.other s) prerouting = runs_other p k m s
  runs e md forward = runs_forward p k m md
  runs e md output = runs_output p k m md

-- For every plan, hook and mark and every packet of no transparent socket, what the rules of the
-- iptables backend make of the packet is what the plan means, and so the same as with nftables.
pub ipt_fate-meaning :
    (p : Plan) (k : Packet) (h : Hook) (m : ℕ)
    → k.transparent ≡ false
    → ipt_fate p k h m ≡ meaning p k h m
unfolding ipt_fate
ipt_fate-meaning p k h m e = runs p k m e p.mode h
