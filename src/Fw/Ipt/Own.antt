-- ===== src/Fw/Ipt/Own.antt =====
-- The commands of the iptables backend do with the router's own packets.
use x_divine_ray.Prelude.{
  Bool, [], any_of, false, if◌then◌else◌, refl, true, ◌∷◌, ◌≡◌, ◌++◌, not, ◌&&◌, ◌==◌, ℕ, ap, map,
  ◌∙◌, sym,
}
use x_divine_ray.Model.Mode
use x_divine_ray.Model.Mode.{Mode, redirect, mixed, tproxy, tun}
use x_divine_ray.Fw.{Plan, all_bypass}
use x_divine_ray.Fw.Packet.{Proto, tcp, udp, other, Packet, output, untouched}
use x_divine_ray.Fw.Meaning.{captured_own, meaning, if_same}
use x_divine_ray.Fw.Ipt.{
  any_device, marked, return_it, dst_cidr, nat, mangle, filter, chain_out, apply, apply_nat,
  apply_dns_only, apply_udp_mark, apply_tproxy, apply_output, apply_quic_block,
}
use x_divine_ray.Fw.Ipt.Run.{rules_of, jumps_of, run_table, run_hook}
use x_divine_ray.Fw.Ipt.Guards.{rule}
use x_divine_ray.Fw.Ipt.Chains.{
  own_nat_rules, own_nat_fate, own_mark_rules, own_mark_fate, own_mixed_fate,
}
use x_divine_ray.Fw.Ipt.Installed.{installed}
use x_divine_ray.Fw.Ipt.Clients.{at_mode, dns_hit, RunsAsMeant}
use x_divine_ray.Fw.Ipt.Tables.{run_table-none, run_table-own, run_hook-none}

module _ (p : Plan) (k : Packet) (m : ℕ) where
  abbrev at_router : Mode → Bool → Plan
  at_router md b = record p { mode = md; proxy_router = b }

  abbrev OwnAsMeant : Mode → Bool → Type 0
  OwnAsMeant md b =
      run_hook (apply (at_router md b)) k output (untouched m) ≡ meaning (at_router md b) k output m

  own_redirects :
      (md : Mode)
      → jumps_of mangle output (apply (at_router md true)) ≡ []
      → jumps_of nat output (apply (at_router md true))
        ≡ record { device = any_device; chain = chain_out } ∷ []
      → jumps_of filter output (apply (at_router md true)) ≡ []
      → rules_of nat chain_out (apply (at_router md true))
        ≡ rule (marked p.mark) return_it
          ∷ (map (λ cidr. rule (dst_cidr cidr) return_it) (all_bypass (at_router md true))
              ++ own_nat_rules p)
      → captured_own md k.proto (dns_hit p k m) (at_router md true) m
        ≡ captured_own redirect k.proto false p m
      → OwnAsMeant md true
  unfolding run_hook meaning
  own_redirects md em en ef er same =
      run_table-none (apply (at_router md true)) k output filter _ ef
      ∙ (ap (run_table (apply (at_router md true)) k output nat)
            (run_table-none (apply (at_router md true)) k output mangle (untouched m) em)
          ∙ (run_table-own (apply (at_router md true)) k nat (untouched m) p.mark
                (all_bypass (at_router md true)) (own_nat_rules p) en er
              ∙ ap
                  (λ f.
                    if not (m == p.mark) && not (any_of k.dst_in (all_bypass (at_router md true)))
                    then f
                    else untouched m)
                  (own_nat_fate p k m k.proto ∙ sym same)))

  own_redirect : (b : Bool) → OwnAsMeant redirect b
  unfolding jumps_of rules_of apply apply_nat apply_dns_only apply_udp_mark apply_tproxy
      apply_output apply_quic_block Mode.needs_firewall_capture Mode.captures_tcp_via_redirect
      Mode.marks_udp_for_tun Mode.needs_tproxy Mode.carries_udp meaning
  own_redirect false =
      run_hook-none (apply (at_router redirect false)) k output (untouched m) (simp installed refl)
        (simp installed refl) (simp installed refl)
  own_redirect true =
      own_redirects redirect (simp installed refl) (simp installed refl) (simp installed refl)
        (simp installed refl) (as_redirect k.proto)
    where
      as_redirect :
          (pr : Proto)
          → captured_own redirect pr (dns_hit p k m) (at_router redirect true) m
            ≡ captured_own redirect pr false p m
      as_redirect tcp = refl
      as_redirect udp = refl
      as_redirect other = refl

  own_tproxy : (b : Bool) → OwnAsMeant tproxy b
  unfolding jumps_of rules_of apply apply_nat apply_dns_only apply_udp_mark apply_tproxy
      apply_output apply_quic_block Mode.needs_firewall_capture Mode.captures_tcp_via_redirect
      Mode.marks_udp_for_tun Mode.needs_tproxy Mode.carries_udp meaning
  own_tproxy false =
      run_hook-none (apply (at_router tproxy false)) k output (untouched m) (simp installed refl)
        (simp installed refl) (simp installed refl)
  own_tproxy true =
      own_redirects tproxy (simp installed refl) (simp installed refl) (simp installed refl)
        (simp installed refl) (as_tproxy k.proto)
    where
      as_tproxy :
          (pr : Proto)
          → captured_own tproxy pr (dns_hit p k m) (at_router tproxy true) m
            ≡ captured_own redirect pr false p m
      as_tproxy tcp = refl
      as_tproxy udp = refl
      as_tproxy other = refl

  own_mixed : (b : Bool) → OwnAsMeant mixed b
  unfolding jumps_of rules_of apply apply_nat apply_dns_only apply_udp_mark apply_tproxy
      apply_output apply_quic_block Mode.needs_firewall_capture Mode.captures_tcp_via_redirect
      Mode.marks_udp_for_tun Mode.needs_tproxy Mode.carries_udp meaning run_hook
  own_mixed false =
      run_hook-none (apply (at_router mixed false)) k output (untouched m) (simp installed refl)
        (simp installed refl) (simp installed refl)
  own_mixed true =
      run_table-none (apply q) k output filter _ (simp installed refl)
      ∙ (ap (run_table (apply q) k output nat) (
            run_table-own (apply q) k mangle (untouched m) p.mark (all_bypass q)
              (own_mark_rules p.redirect_dns q) (simp installed refl) (simp installed refl)
            ∙ ap (λ f. if not (m == p.mark) && not away then f else untouched m)
                (own_mark_fate q k m k.proto p.redirect_dns))
          ∙ (run_table-own (apply q) k nat _ p.mark (all_bypass q) (own_nat_rules q)
                (simp installed refl) (simp installed refl)
              ∙ own_mixed_fate q k m k.proto (dns_hit p k m) away))
    where
      q : Plan
      q = at_router mixed true

      away : Bool
      away = any_of k.dst_in (all_bypass (at_router mixed true))

  pub runs_output : (md : Mode) → RunsAsMeant p k m md output
  unfolding jumps_of rules_of apply apply_nat apply_dns_only apply_udp_mark apply_tproxy
      apply_output apply_quic_block Mode.needs_firewall_capture Mode.captures_tcp_via_redirect
      Mode.marks_udp_for_tun Mode.needs_tproxy Mode.carries_udp meaning
  runs_output redirect = own_redirect p.proxy_router
  runs_output mixed = own_mixed p.proxy_router
  runs_output tproxy = own_tproxy p.proxy_router
  runs_output tun =
      run_hook-none (apply (at_mode p tun)) k output (untouched m) (simp installed refl)
        (simp installed refl) (simp installed refl)
      ∙ sym (if_same _ _)
  runs_output (Mode.other s) =
      run_hook-none (apply (at_mode p (Mode.other s))) k output (untouched m) (simp installed refl)
        (simp installed refl) (simp installed refl)
      ∙ sym (if_same _ _)
