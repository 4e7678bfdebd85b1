-- ===== src/Fw/Nft.antt =====
-- The nftables backend (internal/fw/nft.go): the table that `ruleset` writes, as
-- its rules, and what such a table does with a packet.
pub mod Run
pub mod Scope
pub mod Chains
pub mod Refines
use x_divine_ray.Prelude.{
  Bool, List, Option, Text, [], codes, false, if◌then◌else◌, none, not, some, true, ℕ, ◌&&◌, ◌++◌,
  ◌||◌, ◌∷◌,
}
use x_divine_ray.Model.Mode
use x_divine_ray.Fw.{Plan, all_bypass}
use x_divine_ray.Fw.Packet.{Proto, tcp, udp, Hook, prerouting, forward, output}

-- What a rule looks at.
pub data Match : Type 0 where
  iif_not_in : List Text → Match
  iif_is : Text → Match
  mac_bypassed dst_bypassed : Match
  l4 : Proto → Match
  dport : Proto → ℕ → Match
  marked : ℕ → Match
  own_socket : Proto → Match

-- What it does. `mark_set` alone goes on with the next rule.
pub data Action : Type 0 where
  return_it reject_it : Action
  redirect_to mark_set mark_accept : ℕ → Action
  tproxy_to : ℕ → ℕ → Action

-- `counter` counts the packets and does nothing else.
pub record Rule : Type 0 where
  pub on : Match
  pub counter : Bool
  pub action : Action

pub data ChainType : Type 0 where
  nat filter route : ChainType

-- The priorities in use, the earliest first: -150, -105 and -25.
pub data Priority : Type 0 where
  at_mangle before_nat before_filter : Priority

pub record Chain : Type 0 where
  pub name : Text
  pub kind : ChainType
  pub hook : Hook
  pub priority : Priority
  pub rules : List Rule

pub record Table : Type 0 where
  pub bypass : List Text
  pub macs : List Text
  pub chains : List Chain

abbrev pub rule : Match → Action → Rule
rule m a = record { on = m; counter = false; action = a }

abbrev pub counted : Match → Action → Rule
counted m a = record { on = m; counter = true; action = a }

abbrev pub scope_of : List Text → Text → List Rule
scope_of (d ∷ ds) wan = rule (iif_not_in (d ∷ ds)) return_it ∷ []
scope_of [] [] = []
scope_of [] (c ∷ wan) = rule (iif_is (c ∷ wan)) return_it ∷ []

abbrev pub mac_guard : List Text → List Rule
mac_guard [] = []
mac_guard (m ∷ ms) = rule mac_bypassed return_it ∷ []

unfoldable pub write_scope_guards : Plan → List Rule
write_scope_guards p =
    scope_of p.lan_devices p.wan_device
    ++ (mac_guard p.bypass_macs ++ rule dst_bypassed return_it ∷ [])

abbrev pub when {ℓ} : {A : Type ℓ} → Bool → List A → List A
when true xs = xs
when false xs = []

abbrev pub redirect_dns_rules : ℕ → List Rule
redirect_dns_rules port =
    counted (dport udp 53) (redirect_to port) ∷ counted (dport tcp 53) (redirect_to port) ∷ []

unfoldable pub write_nat_chain : Plan → Chain
write_nat_chain p = record {
  name = codes "prerouting";
  kind = nat;
  hook = prerouting;
  priority = before_nat;
  rules =
      write_scope_guards p
      ++ (when p.redirect_dns (redirect_dns_rules p.dns_port)
          ++ counted (l4 tcp) (redirect_to p.tproxy_port) ∷ []);
}

unfoldable pub write_dns_only_chain : Plan → Chain
write_dns_only_chain p = record {
  name = codes "prerouting";
  kind = nat;
  hook = prerouting;
  priority = before_nat;
  rules = write_scope_guards p ++ redirect_dns_rules p.dns_port;
}

unfoldable pub write_udp_mark_chain : Plan → Chain
write_udp_mark_chain p = record {
  name = codes "mangle_prerouting";
  kind = filter;
  hook = prerouting;
  priority = at_mangle;
  rules =
      write_scope_guards p
      ++ (when p.redirect_dns (rule (dport udp 53) return_it ∷ rule (dport tcp 53) return_it ∷ [])
          ++ counted (l4 udp) (mark_set p.mark_tun_udp) ∷ []);
}

unfoldable pub write_quic_chain : Plan → Chain
write_quic_chain p = record {
  name = codes "forward";
  kind = filter;
  hook = forward;
  priority = before_filter;
  rules = write_scope_guards p ++ counted (dport udp 443) reject_it ∷ [];
}

unfoldable pub write_tproxy_chain : Plan → Chain
write_tproxy_chain p =
    let m : ℕ = p.mark_tproxy in
    record {
      name = codes "prerouting";
      kind = filter;
      hook = prerouting;
      priority = at_mangle;
      rules =
          write_scope_guards p
          ++ (rule (own_socket tcp) (mark_accept m)
              ∷ rule (own_socket udp) (mark_accept m)
              ∷ (when p.redirect_dns (
                    rule (dport udp 53) (tproxy_to p.dns_port m)
                    ∷ rule (dport tcp 53) (tproxy_to p.dns_port m)
                    ∷ [])
                  ++ counted (l4 tcp) (tproxy_to p.tproxy_port m)
                    ∷ counted (l4 udp) (tproxy_to p.tproxy_port m)
                    ∷ []));
    }

abbrev pub output_nat : Plan → Chain
output_nat p = record {
  name = codes "output";
  kind = nat;
  hook = output;
  priority = before_nat;
  rules =
      rule (marked p.mark) return_it
      ∷ rule dst_bypassed return_it
      ∷ counted (l4 tcp) (redirect_to p.tproxy_port)
      ∷ [];
}

abbrev pub output_mark : Plan → Chain
output_mark p = record {
  name = codes "mangle_output";
  kind = route;
  hook = output;
  priority = at_mangle;
  rules =
      rule (marked p.mark) return_it
      ∷ rule dst_bypassed return_it
      ∷ (when p.redirect_dns (rule (dport udp 53) return_it ∷ [])
          ++ rule (l4 udp) (mark_set p.mark_tun_udp) ∷ []);
}

unfoldable pub write_output_chains : Plan → List Chain
write_output_chains p =
    when (p.proxy_router && (Mode.captures_tcp_via_redirect p.mode || Mode.needs_tproxy p.mode))
      (output_nat p ∷ [])
    ++ when (p.proxy_router && Mode.marks_udp_for_tun p.mode) (output_mark p ∷ [])

unfoldable pub table_of : Plan → Table
table_of p = record {
  bypass = all_bypass p;
  macs = p.bypass_macs;
  chains =
      when (Mode.captures_tcp_via_redirect p.mode) (write_nat_chain p ∷ [])
      ++ (when (not (Mode.needs_firewall_capture p.mode) && p.redirect_dns)
            (write_dns_only_chain p ∷ [])
          ++ (when (Mode.marks_udp_for_tun p.mode) (write_udp_mark_chain p ∷ [])
              ++ (when (Mode.needs_tproxy p.mode) (write_tproxy_chain p ∷ [])
                  ++ (when (p.proxy_router && Mode.needs_firewall_capture p.mode)
                        (write_output_chains p)
                      ++ when (p.block_quic && not (Mode.carries_udp p.mode))
                          (write_quic_chain p ∷ [])))));
}

-- b.Apply(p), where every command works: the table that is there afterwards, if there is one.
unfoldable pub apply : Plan → Option Table
apply p =
    if not (Mode.needs_firewall_capture p.mode) && not p.redirect_dns
    then none
    else some (table_of p)
