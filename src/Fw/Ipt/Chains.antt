-- ===== src/Fw/Ipt/Chains.antt =====
-- What each chain does with a packet that its guards have let through.
use x_divine_ray.Prelude.{
  Bool, List, [], arith, false, if◌then◌else◌, refl, true, ◌∷◌, ◌≡◌, ◌++◌, not, ◌&&◌, ◌==◌, ℕ,
}
use x_divine_ray.Model.Mode.{redirect, mixed, tproxy, tun}
use x_divine_ray.Fw.{Plan}
use x_divine_ray.Fw.Packet.{Proto, tcp, udp, other, Packet, refused, untouched, proto_eq, Fate}
use x_divine_ray.Fw.Meaning.{captured, captured_own}
use x_divine_ray.Fw.Nft.{when}
use x_divine_ray.Fw.Ipt.{
  IptRule, l4, dport, Target, return_it, reject_it, redirect_to, mark_set, tproxy_to,
}
use x_divine_ray.Fw.Ipt.Run.{run_chain, matches}
use x_divine_ray.Fw.Ipt.Jumps.{Settles}
use x_divine_ray.Fw.Ipt.Guards.{rule}

abbrev pub dns_rules : (ℕ → Target) → ℕ → List IptRule
dns_rules act port = rule (dport udp 53) (act port) ∷ rule (dport tcp 53) (act port) ∷ []

abbrev pub nat_rules : Bool → Plan → List IptRule
nat_rules b p =
    when b (dns_rules redirect_to p.dns_port) ++ rule (l4 tcp) (redirect_to p.tproxy_port) ∷ []

abbrev pub mark_rules : Bool → Plan → List IptRule
mark_rules b p =
    when b (rule (dport udp 53) return_it ∷ rule (dport tcp 53) return_it ∷ [])
    ++ rule (l4 udp) (mark_set p.mark_tun_udp) ∷ []

module _ (p : Plan) (k : Packet) where
  pub nat_rules-Settles :
      (pr : Proto) (b : Bool) → Settles (run_chain (record k { proto = pr }) (nat_rules b p))
  unfolding run_chain matches
  nat_rules-Settles tcp true f e = ground arith
  nat_rules-Settles tcp false f e = ground arith
  nat_rules-Settles udp true f e = ground arith
  nat_rules-Settles udp false f e = ground arith
  nat_rules-Settles other true f e = refl
  nat_rules-Settles other false f e = refl

  pub mark_rules-Settles :
      (pr : Proto) (b : Bool) → Settles (run_chain (record k { proto = pr }) (mark_rules b p))
  unfolding run_chain matches
  mark_rules-Settles tcp true f e = ground arith
  mark_rules-Settles tcp false f e = ground arith
  mark_rules-Settles udp true f e = ground arith
  mark_rules-Settles udp false f e = ground arith
  mark_rules-Settles other true f e = refl
  mark_rules-Settles other false f e = refl

abbrev pub tproxy_rules : Bool → Plan → List IptRule
tproxy_rules b p =
    when b (dns_rules (λ port. tproxy_to port p.mark_tproxy) p.dns_port)
    ++ rule (l4 tcp) (tproxy_to p.tproxy_port p.mark_tproxy)
      ∷ rule (l4 udp) (tproxy_to p.tproxy_port p.mark_tproxy)
      ∷ []

abbrev pub quic_rules : List IptRule
quic_rules = rule (dport udp 443) reject_it ∷ []

module _ (p : Plan) (k : Packet) where
  pub dns_rules-Settles :
      (pr : Proto)
      → Settles (run_chain (record k { proto = pr }) (dns_rules redirect_to p.dns_port))
  unfolding run_chain matches
  dns_rules-Settles tcp f e = ground arith
  dns_rules-Settles udp f e = ground arith
  dns_rules-Settles other f e = refl

  pub tproxy_rules-Settles :
      (pr : Proto) (b : Bool) → Settles (run_chain (record k { proto = pr }) (tproxy_rules b p))
  unfolding run_chain matches
  tproxy_rules-Settles tcp true f e = ground arith
  tproxy_rules-Settles tcp false f e = ground arith
  tproxy_rules-Settles udp true f e = ground arith
  tproxy_rules-Settles udp false f e = ground arith
  tproxy_rules-Settles other true f e = refl
  tproxy_rules-Settles other false f e = refl

  pub quic_rules-Settles : (pr : Proto) → Settles (run_chain (record k { proto = pr }) quic_rules)
  unfolding run_chain matches
  quic_rules-Settles tcp f e = refl
  quic_rules-Settles udp f e = ground arith
  quic_rules-Settles other f e = refl

module _ (p : Plan) (k : Packet) (m : ℕ) where
  pub nat_fate :
      (pr : Proto) (b : Bool)
      → (run_chain (record k { proto = pr }) (nat_rules b p) (untouched m)).1
        ≡ captured redirect pr (b && (k.dport == 53)) false p m
  unfolding run_chain matches
  nat_fate tcp true = ground arith
  nat_fate tcp false = refl
  nat_fate udp true = ground arith
  nat_fate udp false = refl
  nat_fate other true = refl
  nat_fate other false = refl

  pub dns_fate :
      (pr : Proto)
      → (run_chain (record k { proto = pr }) (dns_rules redirect_to p.dns_port) (untouched m)).1
        ≡ captured tun pr (k.dport == 53) false p m
  unfolding run_chain matches
  dns_fate tcp = ground arith
  dns_fate udp = ground arith
  dns_fate other = refl

  pub mark_fate :
      (pr : Proto) (b : Bool)
      → (run_chain (record k { proto = pr }) (mark_rules b p) (untouched m)).1
        ≡ untouched (if proto_eq pr udp && not (b && (k.dport == 53)) then p.mark_tun_udp else m)
  unfolding run_chain matches
  mark_fate tcp true = ground arith
  mark_fate tcp false = refl
  mark_fate udp true = ground arith
  mark_fate udp false = refl
  mark_fate other true = refl
  mark_fate other false = refl

  pub tproxy_fate :
      (pr : Proto) (b : Bool)
      → (run_chain (record k { proto = pr }) (tproxy_rules b p) (untouched m)).1
        ≡ captured tproxy pr (b && (k.dport == 53)) false p m
  unfolding run_chain matches
  tproxy_fate tcp true = ground arith
  tproxy_fate tcp false = refl
  tproxy_fate udp true = ground arith
  tproxy_fate udp false = refl
  tproxy_fate other true = refl
  tproxy_fate other false = refl

  pub quic_fate :
      (pr : Proto)
      → (run_chain (record k { proto = pr }) quic_rules (untouched m)).1 ≡ (
          if proto_eq pr udp && (k.dport == 443)
          then record { mark = m; delivery = refused }
          else untouched m)
  unfolding run_chain matches
  quic_fate tcp = refl
  quic_fate udp = ground arith
  quic_fate other = refl

abbrev pub own_nat_rules : Plan → List IptRule
own_nat_rules p = rule (l4 tcp) (redirect_to p.tproxy_port) ∷ []

abbrev pub own_mark_rules : Bool → Plan → List IptRule
own_mark_rules b p =
    when b (rule (dport udp 53) return_it ∷ []) ++ rule (l4 udp) (mark_set p.mark_tun_udp) ∷ []

module _ (p : Plan) (k : Packet) (m : ℕ) where
  pub own_nat_fate :
      (pr : Proto)
      → (run_chain (record k { proto = pr }) (own_nat_rules p) (untouched m)).1
        ≡ captured_own redirect pr false p m
  unfolding run_chain matches
  own_nat_fate tcp = refl
  own_nat_fate udp = refl
  own_nat_fate other = refl

  pub own_mark_fate :
      (pr : Proto) (b : Bool)
      → (run_chain (record k { proto = pr }) (own_mark_rules b p) (untouched m)).1
        ≡ untouched (if proto_eq pr udp && not (b && (k.dport == 53)) then p.mark_tun_udp else m)
  unfolding run_chain matches
  own_mark_fate tcp true = refl
  own_mark_fate tcp false = refl
  own_mark_fate udp true = ground arith
  own_mark_fate udp false = refl
  own_mark_fate other true = refl
  own_mark_fate other false = refl

-- The chain that redirects, behind its own guards, on a packet that the one before has passed.
pub own_mixed_fate :
    (p : Plan) (k : Packet) (m : ℕ) (pr : Proto) (dns away : Bool)
    → (let f : Fate =
          if not (m == p.mark) && not away
          then untouched (if proto_eq pr udp && not dns then p.mark_tun_udp else m)
          else untouched m in
        if not (f.mark == p.mark) && not away
        then (run_chain (record k { proto = pr }) (own_nat_rules p) f).1
        else f)
      ≡ (if not (m == p.mark) && not away then captured_own mixed pr dns p m else untouched m)
unfolding run_chain matches
own_mixed_fate p k m tcp dns away = ground arith
own_mixed_fate p k m udp true away = ground arith
own_mixed_fate p k m udp false away = ground arith
own_mixed_fate p k m other dns away = ground arith
