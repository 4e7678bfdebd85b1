-- ===== src/Fw/Ipt/Clients.antt =====
-- The commands of the iptables backend do with the packets of clients.
use x_divine_ray.Prelude.{
  Bool, Text, arith, false, if◌then◌else◌, refl, true, ◌≡◌, ◌&&◌, ◌==◌, ℕ, ap, ◌∙◌, sym,
}
use x_divine_ray.Model.Mode
use x_divine_ray.Model.Mode.{Mode, redirect, mixed, tproxy, tun}
use x_divine_ray.Fw.{Plan}
use x_divine_ray.Fw.Packet.{Packet, Fate, Hook, prerouting, forward, untouched}
use x_divine_ray.Fw.Meaning.{in_scope, captured, meaning, captured-mixed, if_twice, if_same}
use x_divine_ray.Fw.Ipt.{
  nat, mangle, filter, chain_pre, chain_mark, chain_quic, apply, apply_nat, apply_dns_only,
  apply_udp_mark, apply_tproxy, apply_output, apply_quic_block,
}
use x_divine_ray.Fw.Ipt.Run.{rules_of, jumps_of, run_chain, run_table, run_hook}
use x_divine_ray.Fw.Ipt.Chains.{
  nat_rules, mark_rules, tproxy_rules, quic_rules, nat_rules-Settles, nat_fate,
  tproxy_rules-Settles, tproxy_fate, mark_rules-Settles, mark_fate, quic_rules-Settles, quic_fate,
}
use x_divine_ray.Fw.Ipt.Installed.{installed, when_and_false}
use x_divine_ray.Fw.Ipt.Tables.{
  run_table-none, run_table-one, run_hook-none, run_hook-nat, run_hook-mangle, run_hook-filter,
}

abbrev pub at_mode : Plan → Mode → Plan
at_mode p md = record p { mode = md }

module _ (p : Plan) (k : Packet) (m : ℕ) where
  abbrev pub dns_hit : Bool
  dns_hit = p.redirect_dns && (k.dport == 53)

  -- From what the chain does to what was meant, for client traffic.
  pub scoped :
      (md : Mode) (x : Fate)
      → k.transparent ≡ false
      → x ≡ captured md k.proto dns_hit false (at_mode p md) m
      → (if in_scope (at_mode p md) k then x else untouched m)
        ≡ meaning (at_mode p md) k prerouting m
  unfolding meaning
  scoped md x e h =
      ap (λ f. if in_scope (at_mode p md) k then f else untouched m)
        (h ∙ ap (λ b. captured md k.proto dns_hit b (at_mode p md) m) (sym e))

  abbrev pub RunsAsMeant : Mode → Hook → Type 0
  RunsAsMeant md h =
      run_hook (apply (at_mode p md)) k h (untouched m) ≡ meaning (at_mode p md) k h m

  pub runs_redirect : k.transparent ≡ false → RunsAsMeant redirect prerouting
  unfolding jumps_of rules_of apply apply_nat apply_dns_only apply_udp_mark apply_tproxy
      apply_output apply_quic_block Mode.needs_firewall_capture Mode.captures_tcp_via_redirect
      Mode.marks_udp_for_tun Mode.needs_tproxy Mode.carries_udp
  runs_redirect e =
      run_hook-nat (apply (at_mode p redirect)) k prerouting (untouched m) chain_pre
        (at_mode p redirect) (nat_rules p.redirect_dns (at_mode p redirect))
        (nat_rules-Settles (at_mode p redirect) k k.proto p.redirect_dns) (simp installed refl)
        (simp installed refl) (simp installed refl) (simp installed refl)
      ∙ scoped redirect _ e (nat_fate (at_mode p redirect) k m k.proto p.redirect_dns)

  pub runs_tproxy : k.transparent ≡ false → RunsAsMeant tproxy prerouting
  unfolding jumps_of rules_of apply apply_nat apply_dns_only apply_udp_mark apply_tproxy
      apply_output apply_quic_block Mode.needs_firewall_capture Mode.captures_tcp_via_redirect
      Mode.marks_udp_for_tun Mode.needs_tproxy Mode.carries_udp
  runs_tproxy e =
      run_hook-mangle (apply (at_mode p tproxy)) k prerouting (untouched m) chain_pre
        (at_mode p tproxy) (tproxy_rules p.redirect_dns (at_mode p tproxy))
        (tproxy_rules-Settles (at_mode p tproxy) k k.proto p.redirect_dns) (simp installed refl)
        (simp installed refl) (simp installed refl) (simp installed refl)
      ∙ scoped tproxy _ e (tproxy_fate (at_mode p tproxy) k m k.proto p.redirect_dns)

  abbrev pub marked_fate : Fate
  marked_fate =
      if in_scope (at_mode p mixed) k
      then (run_chain k (mark_rules p.redirect_dns (at_mode p mixed)) (untouched m)).1
      else untouched m

  mixed_mangle : run_table (apply (at_mode p mixed)) k prerouting mangle (untouched m) ≡ marked_fate
  unfolding jumps_of rules_of apply apply_nat apply_dns_only apply_udp_mark apply_tproxy
      apply_output apply_quic_block Mode.needs_firewall_capture Mode.captures_tcp_via_redirect
      Mode.marks_udp_for_tun Mode.needs_tproxy Mode.carries_udp
  mixed_mangle =
      run_table-one (apply (at_mode p mixed)) k prerouting mangle (untouched m) chain_mark
        (at_mode p mixed) (mark_rules p.redirect_dns (at_mode p mixed)) (simp installed refl)
        (simp installed refl) (mark_rules-Settles (at_mode p mixed) k k.proto p.redirect_dns)

  mixed_nat :
      (f : Fate)
      → run_table (apply (at_mode p mixed)) k prerouting nat f ≡ (
          if in_scope (at_mode p mixed) k
          then (run_chain k (nat_rules p.redirect_dns (at_mode p mixed)) f).1
          else f)
  unfolding jumps_of rules_of apply apply_nat apply_dns_only apply_udp_mark apply_tproxy
      apply_output apply_quic_block Mode.needs_firewall_capture Mode.captures_tcp_via_redirect
      Mode.marks_udp_for_tun Mode.needs_tproxy Mode.carries_udp
  mixed_nat f =
      run_table-one (apply (at_mode p mixed)) k prerouting nat f chain_pre (at_mode p mixed)
        (nat_rules p.redirect_dns (at_mode p mixed)) (simp installed refl) (simp installed refl)
        (nat_rules-Settles (at_mode p mixed) k k.proto p.redirect_dns)

  mixed_filter : (f : Fate) → run_table (apply (at_mode p mixed)) k prerouting filter f ≡ f
  unfolding jumps_of rules_of apply apply_nat apply_dns_only apply_udp_mark apply_tproxy
      apply_output apply_quic_block Mode.needs_firewall_capture Mode.captures_tcp_via_redirect
      Mode.marks_udp_for_tun Mode.needs_tproxy Mode.carries_udp
  mixed_filter f =
      run_table-none (apply (at_mode p mixed)) k prerouting filter f (simp installed refl)

  pub runs_mixed : k.transparent ≡ false → RunsAsMeant mixed prerouting
  unfolding run_hook
  runs_mixed e =
      mixed_filter _
      ∙ (ap (run_table (apply (at_mode p mixed)) k prerouting nat) mixed_mangle
          ∙ (mixed_nat marked_fate
              ∙ (if_twice (λ f. (run_chain k (nat_rules p.redirect_dns (at_mode p mixed)) f).1)
                    (in_scope (at_mode p mixed) k) _ _
                  ∙ scoped mixed _ e (
                      ap (λ f. (run_chain k (nat_rules p.redirect_dns (at_mode p mixed)) f).1)
                        (mark_fate (at_mode p mixed) k m k.proto p.redirect_dns)
                      ∙ (nat_fate (at_mode p mixed) k _ k.proto p.redirect_dns
                          ∙ captured-mixed k.proto dns_hit false (at_mode p mixed) m)))))

  pub runs_other : (s : Text) → RunsAsMeant (Mode.other s) prerouting
  unfolding jumps_of rules_of apply apply_nat apply_dns_only apply_udp_mark apply_tproxy
      apply_output apply_quic_block Mode.needs_firewall_capture Mode.captures_tcp_via_redirect
      Mode.marks_udp_for_tun Mode.needs_tproxy Mode.carries_udp meaning
  runs_other s =
      run_hook-none (apply (at_mode p (Mode.other s))) k prerouting (untouched m)
        (simp installed refl) (simp installed refl) (simp installed refl)
      ∙ sym (if_same (in_scope (at_mode p (Mode.other s)) k) (untouched m))

  abbrev pub at_quic : Bool → Plan
  at_quic b = record p { mode = redirect; block_quic = b }

  pub runs_quic :
      (b : Bool)
      → run_hook (apply (at_quic b)) k forward (untouched m) ≡ meaning (at_quic b) k forward m
  unfolding jumps_of rules_of apply apply_nat apply_dns_only apply_udp_mark apply_tproxy
      apply_output apply_quic_block Mode.needs_firewall_capture Mode.captures_tcp_via_redirect
      Mode.marks_udp_for_tun Mode.needs_tproxy Mode.carries_udp meaning
  runs_quic true =
      run_hook-filter (apply (at_quic true)) k forward (untouched m) chain_quic (at_quic true)
        quic_rules (quic_rules-Settles (at_quic true) k k.proto) (simp installed refl)
        (simp installed refl) (simp installed refl) (simp installed refl)
      ∙ (ap (λ f. if in_scope (at_quic true) k then f else untouched m)
            (quic_fate (at_quic true) k m k.proto)
          ∙ ground arith)
  runs_quic false =
      run_hook-none (apply (at_quic false)) k forward (untouched m) (simp installed refl)
        (simp installed refl) (simp installed refl)
      ∙ ground arith

  pub runs_forward : (md : Mode) → RunsAsMeant md forward
  unfolding jumps_of rules_of apply apply_nat apply_dns_only apply_udp_mark apply_tproxy
      apply_output apply_quic_block Mode.needs_firewall_capture Mode.captures_tcp_via_redirect
      Mode.marks_udp_for_tun Mode.needs_tproxy Mode.carries_udp meaning
  runs_forward redirect = runs_quic p.block_quic
  runs_forward mixed =
      run_hook-none (apply (at_mode p mixed)) k forward (untouched m) (simp installed refl)
        (simp installed refl) (simp installed (when_and_false p.block_quic _))
      ∙ ground arith
  runs_forward tproxy =
      run_hook-none (apply (at_mode p tproxy)) k forward (untouched m) (simp installed refl)
        (simp installed refl) (simp installed (when_and_false p.block_quic _))
      ∙ ground arith
  runs_forward tun =
      run_hook-none (apply (at_mode p tun)) k forward (untouched m) (simp installed refl)
        (simp installed refl) (simp installed refl)
      ∙ ground arith
  runs_forward (Mode.other s) =
      run_hook-none (apply (at_mode p (Mode.other s))) k forward (untouched m) (simp installed refl)
        (simp installed refl) (simp installed (when_and_false p.block_quic _))
      ∙ ground arith
