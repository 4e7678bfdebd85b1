-- ===== src/Fw/Nft/Refines.antt =====
-- The table of the nftables backend does with every packet what the plan means.
use x_divine_ray.Prelude.{
  List, none, some, [], arith, any_of, if◌then◌else◌, not, ◌&&◌, ◌++◌, ◌∷◌, ◌≡◌, ◌==◌, refl, true,
  false, Bool, ◌∙◌, ap, ℕ,
}
use x_divine_ray.Model.Mode
use x_divine_ray.Model.Mode.{Mode, redirect, mixed, tproxy, tun}
use x_divine_ray.Fw.{Plan, all_bypass}
use x_divine_ray.Fw.Packet.{
  Proto, tcp, udp, other, Packet, Hook, prerouting, forward, output, Fate, untouched, proto_eq,
}
use x_divine_ray.Fw.Meaning.{
  in_scope, captured_own, meaning, captured-mixed, if_twice, tun_without_dns, if_same,
}
use x_divine_ray.Fw.Nft.{
  Table, Chain, Priority, apply, table_of, write_nat_chain, write_dns_only_chain,
  write_udp_mark_chain, write_tproxy_chain, write_quic_chain, write_output_chains, output_nat, when,
  counted, l4, redirect_to, redirect_dns_rules,
}
use x_divine_ray.Fw.Nft.Run.{run_rules, run_at, run_hook}
use x_divine_ray.Fw.Nft.Scope.{run_rules-write_scope_guards}
use x_divine_ray.Fw.Nft.Chains.{
  nat_tail, dns_tail, mark_tail, tproxy_tail, quic_tail, output_nat_chain, output_mark_chain,
}

module _ (t : Table) (k : Packet) (h : Hook) (q : Priority) where
  run_at-++ :
      (xs ys : List Chain) (f : Fate)
      → run_at t k h q (xs ++ ys) f ≡ run_at t k h q ys (run_at t k h q xs f)
  unfolding run_at
  run_at-++ [] ys f = refl
  run_at-++ (x ∷ xs) ys f = run_at-++ xs ys _

  run_at-when :
      (b : Bool) (xs : List Chain) (f : Fate)
      → run_at t k h q (when b xs) f ≡ (if b then run_at t k h q xs f else f)
  unfolding run_at
  run_at-when true xs f = refl
  run_at-when false xs f = refl

-- What the packet meets, where Apply leaves a table and where it leaves none.
unfoldable pub nft_fate : Plan → Packet → Hook → ℕ → Fate
nft_fate p k h m = elim (apply p) [ none ↦ untouched m | some t ↦ run_hook t k h (untouched m) ]

if_and_false {ℓ} : {A : Type ℓ} (b : Bool) (x y : A) → (if b && false then x else y) ≡ y
if_and_false true x y = refl
if_and_false false x y = refl

ruleset chains = (run_at-++, run_at-when, if_same, if_and_false)

-- In mixed mode a packet meets the chain that marks before the one that redirects.
output_mixed :
    (t : Table) (p : Plan) (k : Packet) (m : ℕ) (pr : Proto) (dns : Bool)
    → t.bypass ≡ all_bypass p
    → run_rules t
        (record k { proto = pr })
        (output_nat p).rules
        (untouched (
          if not (m == p.mark)
            && not (any_of k.dst_in (all_bypass p))
            && (proto_eq pr udp && not dns)
          then p.mark_tun_udp
          else m))
      ≡ (if not (m == p.mark) && not (any_of k.dst_in (all_bypass p))
          then captured_own mixed pr dns p m
          else untouched m)
output_mixed t p k m tcp dns e = output_nat_chain t p k _ tcp e ∙ ground arith
output_mixed t p k m udp true e = output_nat_chain t p k _ udp e ∙ ground arith
output_mixed t p k m udp false e = output_nat_chain t p k _ udp e ∙ ground arith
output_mixed t p k m other dns e = output_nat_chain t p k _ other e ∙ ground arith

abbrev at_mode : Plan → Mode → Plan
at_mode p md = record p { mode = md }

module _ (p : Plan) (k : Packet) (m : ℕ) where
  abbrev RunsAsMeant : Mode → Hook → Type 0
  RunsAsMeant md h =
      run_hook (table_of (at_mode p md)) k h (untouched m) ≡ meaning (at_mode p md) k h m

  runs_prerouting : (md : Mode) → RunsAsMeant md prerouting
  unfolding run_hook table_of run_at meaning write_nat_chain write_quic_chain write_output_chains
      write_udp_mark_chain write_tproxy_chain write_dns_only_chain Mode.captures_tcp_via_redirect
      Mode.needs_firewall_capture Mode.marks_udp_for_tun Mode.needs_tproxy Mode.carries_udp
  runs_prerouting redirect =
      simp
        (
          chains,
          run_rules-write_scope_guards,
          nat_tail _ (at_mode p redirect) k m k.proto p.redirect_dns,
        )
        refl
  runs_prerouting mixed =
      simp
        (
          chains,
          run_rules-write_scope_guards,
          mark_tail _ (at_mode p mixed) k m k.proto p.redirect_dns,
        )
        (if_twice
            (run_rules _ k (
              when p.redirect_dns (redirect_dns_rules p.dns_port)
              ++ counted (l4 tcp) (redirect_to p.tproxy_port) ∷ []))
            (in_scope (at_mode p mixed) k) _ _
          ∙ ap (λ f. if in_scope (at_mode p mixed) k then f else untouched m)
              (nat_tail _ (at_mode p mixed) k _ k.proto p.redirect_dns
                ∙ captured-mixed k.proto (p.redirect_dns && (k.dport == 53)) k.transparent
                    (at_mode p mixed) m))
  runs_prerouting tproxy =
      simp
        (
          chains,
          run_rules-write_scope_guards,
          tproxy_tail _ (at_mode p tproxy) k m k.proto p.redirect_dns,
        )
        refl
  runs_prerouting tun =
      simp (chains, run_rules-write_scope_guards, dns_tail _ (at_mode p tun) k m k.proto)
        (ground arith)
  runs_prerouting (Mode.other s) = simp (chains, if_same) refl

  runs_forward : (md : Mode) → RunsAsMeant md forward
  unfolding run_hook table_of run_at meaning write_nat_chain write_quic_chain write_output_chains
      write_udp_mark_chain write_tproxy_chain write_dns_only_chain Mode.captures_tcp_via_redirect
      Mode.needs_firewall_capture Mode.marks_udp_for_tun Mode.needs_tproxy Mode.carries_udp
  runs_forward redirect =
      simp (chains, run_rules-write_scope_guards, quic_tail _ (at_mode p redirect) k m k.proto)
        (ground arith)
  runs_forward mixed = simp (chains) (ground arith)
  runs_forward tproxy = simp (chains) (ground arith)
  runs_forward tun = simp (chains) (ground arith)
  runs_forward (Mode.other s) = simp (chains) (ground arith)

  abbrev at_router : Bool → Plan
  at_router b = record p { mode = mixed; proxy_router = b }

  runs_mixed_output :
      (b : Bool)
      → run_hook (table_of (at_router b)) k output (untouched m) ≡ meaning (at_router b) k output m
  unfolding run_hook table_of run_at meaning write_nat_chain write_quic_chain write_output_chains
      write_udp_mark_chain write_tproxy_chain write_dns_only_chain Mode.captures_tcp_via_redirect
      Mode.needs_firewall_capture Mode.marks_udp_for_tun Mode.needs_tproxy Mode.carries_udp
  runs_mixed_output true =
      simp (chains, output_mark_chain _ (at_router true) k m k.proto p.redirect_dns refl)
        (output_mixed _ (at_router true) k m k.proto (p.redirect_dns && (k.dport == 53)) refl)
  runs_mixed_output false = simp (chains) refl

  runs_output : (md : Mode) → RunsAsMeant md output
  unfolding run_hook table_of run_at meaning write_nat_chain write_quic_chain write_output_chains
      write_udp_mark_chain write_tproxy_chain write_dns_only_chain Mode.captures_tcp_via_redirect
      Mode.needs_firewall_capture Mode.marks_udp_for_tun Mode.needs_tproxy Mode.carries_udp
  runs_output redirect =
      simp (chains, output_nat_chain _ (at_mode p redirect) k m k.proto refl) (ground arith)
  runs_output mixed = runs_mixed_output p.proxy_router
  runs_output tproxy =
      simp (chains, output_nat_chain _ (at_mode p tproxy) k m k.proto refl) (ground arith)
  runs_output tun = simp (chains, if_same) refl
  runs_output (Mode.other s) = simp (chains, if_same) refl

  runs : (md : Mode) (h : Hook) → RunsAsMeant md h
  runs md prerouting = runs_prerouting md
  runs md forward = runs_forward md
  runs md output = runs_output md

abbrev at_tun : Plan → Bool → Plan
at_tun p b = record p { mode = tun; redirect_dns = b }

module _ (p : Plan) (k : Packet) (m : ℕ) where
  -- With nothing to capture there is no table, and nothing was meant.
  runs_tun : (b : Bool) (h : Hook) → nft_fate (at_tun p b) k h m ≡ meaning (at_tun p b) k h m
  unfolding nft_fate apply Mode.needs_firewall_capture meaning Mode.carries_udp
  runs_tun true h = runs (at_tun p true) k m tun h
  runs_tun false prerouting = rw (tun_without_dns k.proto, if_same) refl
  runs_tun false forward = ground arith
  runs_tun false output = ground arith

  at_mode_fate :
      (md : Mode) (h : Hook) → nft_fate (at_mode p md) k h m ≡ meaning (at_mode p md) k h m
  unfolding nft_fate apply Mode.needs_firewall_capture
  at_mode_fate redirect h = runs p k m redirect h
  at_mode_fate mixed h = runs p k m mixed h
  at_mode_fate tproxy h = runs p k m tproxy h
  at_mode_fate tun h = runs_tun p.redirect_dns h
  at_mode_fate (Mode.other s) h = runs p k m (Mode.other s) h

-- For every plan, packet, hook and mark, what the table of the nftables backend makes of the packet
-- is what the plan means, also where Apply leaves no table.
pub nft_fate-meaning :
    (p : Plan) (k : Packet) (h : Hook) (m : ℕ) → nft_fate p k h m ≡ meaning p k h m
nft_fate-meaning p k h m = at_mode_fate p k m p.mode h
