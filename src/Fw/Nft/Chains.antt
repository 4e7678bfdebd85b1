-- ===== src/Fw/Nft/Chains.antt =====
-- What each chain of the table does with a packet at its hook.
use x_divine_ray.Prelude.{
  [], arith, any_of, if◌then◌else◌, not, ◌&&◌, ◌++◌, ◌∷◌, ◌≡◌, ◌==◌, refl, true, false, Bool, ap, ℕ,
}
use x_divine_ray.Model.Mode.{redirect, tproxy, tun}
use x_divine_ray.Fw.{Plan, all_bypass}
use x_divine_ray.Fw.Packet.{Proto, tcp, udp, other, Packet, untouched, refused, proto_eq}
use x_divine_ray.Fw.Meaning.{captured, captured_own}
use x_divine_ray.Fw.Nft.{
  Table, counted, rule, return_it, own_socket, tproxy_to, mark_set, mark_accept, reject_it,
  output_nat, output_mark, l4, dport, redirect_to, when, redirect_dns_rules,
}
use x_divine_ray.Fw.Nft.Run.{run_rules, matches}

module _ (t : Table) (p : Plan) (k : Packet) (m : ℕ) where
  pub nat_tail :
      (pr : Proto) (b : Bool)
      → run_rules t
          (record k { proto = pr })
          (when b (redirect_dns_rules p.dns_port)
            ++ counted (l4 tcp) (redirect_to p.tproxy_port) ∷ [])
          (untouched m)
        ≡ captured redirect pr (b && (k.dport == 53)) k.transparent p m
  unfolding run_rules matches
  nat_tail tcp true = ground arith
  nat_tail tcp false = refl
  nat_tail udp true = ground arith
  nat_tail udp false = refl
  nat_tail other true = refl
  nat_tail other false = refl

  pub dns_tail :
      (pr : Proto)
      → run_rules t (record k { proto = pr }) (redirect_dns_rules p.dns_port) (untouched m)
        ≡ captured tun pr (k.dport == 53) k.transparent p m
  unfolding run_rules matches
  dns_tail tcp = ground arith
  dns_tail udp = ground arith
  dns_tail other = refl

  pub mark_tail :
      (pr : Proto) (b : Bool)
      → run_rules t
          (record k { proto = pr })
          (when b (rule (dport udp 53) return_it ∷ rule (dport tcp 53) return_it ∷ [])
            ++ counted (l4 udp) (mark_set p.mark_tun_udp) ∷ [])
          (untouched m)
        ≡ untouched (if proto_eq pr udp && not (b && (k.dport == 53)) then p.mark_tun_udp else m)
  unfolding run_rules matches
  mark_tail tcp true = ground arith
  mark_tail tcp false = refl
  mark_tail udp true = ground arith
  mark_tail udp false = refl
  mark_tail other true = refl
  mark_tail other false = refl

  pub tproxy_tail :
      (pr : Proto) (b : Bool)
      → run_rules t
          (record k { proto = pr })
          (rule (own_socket tcp) (mark_accept p.mark_tproxy)
            ∷ rule (own_socket udp) (mark_accept p.mark_tproxy)
            ∷ (when b (
                  rule (dport udp 53) (tproxy_to p.dns_port p.mark_tproxy)
                  ∷ rule (dport tcp 53) (tproxy_to p.dns_port p.mark_tproxy)
                  ∷ [])
                ++ counted (l4 tcp) (tproxy_to p.tproxy_port p.mark_tproxy)
                  ∷ counted (l4 udp) (tproxy_to p.tproxy_port p.mark_tproxy)
                  ∷ []))
          (untouched m)
        ≡ captured tproxy pr (b && (k.dport == 53)) k.transparent p m
  unfolding run_rules matches
  tproxy_tail tcp true = ground arith
  tproxy_tail tcp false = ground arith
  tproxy_tail udp true = ground arith
  tproxy_tail udp false = ground arith
  tproxy_tail other true = refl
  tproxy_tail other false = refl

  pub quic_tail :
      (pr : Proto)
      → run_rules t (record k { proto = pr }) (counted (dport udp 443) reject_it ∷ []) (untouched m)
        ≡ (if proto_eq pr udp && (k.dport == 443)
            then record { mark = m; delivery = refused }
            else untouched m)
  unfolding run_rules matches
  quic_tail tcp = refl
  quic_tail udp = ground arith
  quic_tail other = refl

  -- The router's own traffic, past the core's mark and the bypass.
  pub output_nat_chain :
      (pr : Proto)
      → t.bypass ≡ all_bypass p
      → run_rules t (record k { proto = pr }) (output_nat p).rules (untouched m) ≡ (
          if not (m == p.mark) && not (any_of k.dst_in (all_bypass p))
          then captured_own redirect pr false p m
          else untouched m)
  unfolding run_rules matches
  output_nat_chain tcp e = ground (arith, ap (any_of k.dst_in) e)
  output_nat_chain udp e = ground (arith, ap (any_of k.dst_in) e)
  output_nat_chain other e = ground (arith, ap (any_of k.dst_in) e)

  pub output_mark_chain :
      (pr : Proto) (b : Bool)
      → t.bypass ≡ all_bypass p
      → run_rules t
          (record k { proto = pr })
          (output_mark (record p { redirect_dns = b })).rules
          (untouched m)
        ≡ untouched (
            if not (m == p.mark)
              && not (any_of k.dst_in (all_bypass p))
              && (proto_eq pr udp && not (b && (k.dport == 53)))
            then p.mark_tun_udp
            else m)
  unfolding run_rules matches
  output_mark_chain tcp true e = ground (arith, ap (any_of k.dst_in) e)
  output_mark_chain tcp false e = ground (arith, ap (any_of k.dst_in) e)
  output_mark_chain udp true e = ground (arith, ap (any_of k.dst_in) e)
  output_mark_chain udp false e = ground (arith, ap (any_of k.dst_in) e)
  output_mark_chain other true e = ground (arith, ap (any_of k.dst_in) e)
  output_mark_chain other false e = ground (arith, ap (any_of k.dst_in) e)
