-- ===== src/Fw/Ipt.antt =====
-- The iptables backend (internal/fw/ipt.go): the commands that Apply issues, in order, where each of
-- them works. At the first that fails Apply stops, so it has issued a part of this list that
-- begins like it.
pub mod Run
pub mod Jumps
pub mod Guards
pub mod Chains
pub mod Installed
pub mod Tables
pub mod Clients
pub mod Own
pub mod Refines
pub mod Revert
use x_divine_ray.Prelude.{Bool, List, Text, [], if◌then◌else◌, not, ℕ, ◌&&◌, ◌++◌, ◌||◌, ◌∷◌, map}
use x_divine_ray.Model.Mode
use x_divine_ray.Fw.{Plan, all_bypass}
use x_divine_ray.Fw.Packet.{Proto, tcp, udp, Hook, prerouting, forward, output}
use x_divine_ray.Fw.Nft.{when}

pub data TableName : Type 0 where
  nat mangle filter : TableName

-- XWRT_PRE, XWRT_MARK, XWRT_OUT and XWRT_QUIC.
pub data ChainName : Type 0 where
  chain_pre chain_mark chain_out chain_quic : ChainName

pub data IptMatch : Type 0 where
  mac_source dst_cidr : Text → IptMatch
  l4 : Proto → IptMatch
  dport : Proto → ℕ → IptMatch
  marked : ℕ → IptMatch

-- MARK alone goes on with the next rule.
pub data Target : Type 0 where
  return_it reject_it : Target
  redirect_to mark_set : ℕ → Target
  tproxy_to : ℕ → ℕ → Target

pub record IptRule : Type 0 where
  pub on : IptMatch
  pub target : Target

-- `-i dev`, `! -i dev`, or neither.
pub data Device : Type 0 where
  only but : Text → Device
  any_device : Device

-- `-N`, `-A` with a rule, and `-I ... 1` with a jump.
pub data Command : Type 0 where
  create : TableName → ChainName → Command
  append : TableName → ChainName → IptMatch → Target → Command
  insert : TableName → Hook → Device → ChainName → Command

unfoldable pub new_chain : TableName → ChainName → Plan → List Command
new_chain t c p =
    create t c
    ∷ (map (λ mac. append t c (mac_source mac) return_it) p.bypass_macs
        ++ map (λ cidr. append t c (dst_cidr cidr) return_it) (all_bypass p))

abbrev pub hook_to : List Text → Text → TableName → Hook → ChainName → List Command
hook_to (d ∷ ds) wan t h c = map (λ dev. insert t h (only dev) c) (d ∷ ds)
hook_to [] (x ∷ wan) t h c = insert t h (but (x ∷ wan)) c ∷ []
hook_to [] [] t h c = insert t h any_device c ∷ []

unfoldable pub hook : TableName → Hook → ChainName → Plan → List Command
hook t h c p = hook_to p.lan_devices p.wan_device t h c

abbrev pub redirect_dns_commands : ℕ → List Command
redirect_dns_commands port =
    append nat chain_pre (dport udp 53) (redirect_to port)
    ∷ append nat chain_pre (dport tcp 53) (redirect_to port)
    ∷ []

unfoldable pub apply_quic_block : Plan → List Command
apply_quic_block p =
    new_chain filter chain_quic p
    ++ (append filter chain_quic (dport udp 443) reject_it ∷ hook filter forward chain_quic p)

unfoldable pub apply_nat : Plan → List Command
apply_nat p =
    new_chain nat chain_pre p
    ++ (when p.redirect_dns (redirect_dns_commands p.dns_port)
        ++ append nat chain_pre (l4 tcp) (redirect_to p.tproxy_port)
          ∷ hook nat prerouting chain_pre p)

unfoldable pub apply_dns_only : Plan → List Command
apply_dns_only p =
    new_chain nat chain_pre p
    ++ (redirect_dns_commands p.dns_port ++ hook nat prerouting chain_pre p)

unfoldable pub apply_udp_mark : Plan → List Command
apply_udp_mark p =
    new_chain mangle chain_mark p
    ++ (when p.redirect_dns (
          append mangle chain_mark (dport udp 53) return_it
          ∷ append mangle chain_mark (dport tcp 53) return_it
          ∷ [])
        ++ append mangle chain_mark (l4 udp) (mark_set p.mark_tun_udp)
          ∷ hook mangle prerouting chain_mark p)

unfoldable pub apply_tproxy : Plan → List Command
apply_tproxy p =
    let m : ℕ = p.mark_tproxy in
    new_chain mangle chain_pre p
    ++ (when p.redirect_dns (
          append mangle chain_pre (dport udp 53) (tproxy_to p.dns_port m)
          ∷ append mangle chain_pre (dport tcp 53) (tproxy_to p.dns_port m)
          ∷ [])
        ++ append mangle chain_pre (l4 tcp) (tproxy_to p.tproxy_port m)
          ∷ append mangle chain_pre (l4 udp) (tproxy_to p.tproxy_port m)
          ∷ hook mangle prerouting chain_pre p)

abbrev pub own_guards : TableName → Plan → List Command
own_guards t p =
    create t chain_out
    ∷ append t chain_out (marked p.mark) return_it
    ∷ map (λ cidr. append t chain_out (dst_cidr cidr) return_it) (all_bypass p)

abbrev pub output_nat : Plan → List Command
output_nat p =
    own_guards nat p
    ++ append nat chain_out (l4 tcp) (redirect_to p.tproxy_port)
      ∷ insert nat output any_device chain_out
      ∷ []

abbrev pub output_mark : Plan → List Command
output_mark p =
    own_guards mangle p
    ++ (when p.redirect_dns (append mangle chain_out (dport udp 53) return_it ∷ [])
        ++ append mangle chain_out (l4 udp) (mark_set p.mark_tun_udp)
          ∷ insert mangle output any_device chain_out
          ∷ [])

unfoldable pub apply_output : Plan → List Command
apply_output p =
    when (Mode.captures_tcp_via_redirect p.mode || Mode.needs_tproxy p.mode) (output_nat p)
    ++ when (Mode.marks_udp_for_tun p.mode) (output_mark p)

unfoldable pub apply : Plan → List Command
apply p =
    if not (Mode.needs_firewall_capture p.mode)
    then when p.redirect_dns (apply_dns_only p)
    else when (Mode.captures_tcp_via_redirect p.mode) (apply_nat p)
      ++ (when (Mode.marks_udp_for_tun p.mode) (apply_udp_mark p)
          ++ (when (Mode.needs_tproxy p.mode) (apply_tproxy p)
              ++ (when p.proxy_router (apply_output p)
                  ++ when (p.block_quic && not (Mode.carries_udp p.mode)) (apply_quic_block p))))
