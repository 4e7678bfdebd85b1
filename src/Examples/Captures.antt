-- ===== src/Examples/Captures.antt =====
-- The capture rules on one network.
use x_divine_ray.Prelude.{List, Text, [], codes, false, true, text_eq, ◌∷◌, ◌≡◌, refl}
use x_divine_ray.Prelude.Trim.{trim, is_space, drop_space}
use x_divine_ray.Model.Mode.{redirect, carries_udp}
use x_divine_ray.Fw.{Plan, all_bypass, dedupe, dedupe_from}
use x_divine_ray.Fw.Packet.{Packet, tcp, udp, Hook, prerouting, forward, output, untouched, refused}
use x_divine_ray.Fw.Meaning.{meaning, in_scope, to_port}
use x_divine_ray.Fw.Bypass.{bypassed_left, own_left}
use x_divine_ray.Fw.Nft.Refines.{nft_fate, nft_fate-meaning}
use x_divine_ray.Fw.Ipt.{TableName, nat}
use x_divine_ray.Fw.Ipt.Refines.{ipt_fate, ipt_fate-meaning}
use x_divine_ray.Fw.Ipt.Revert.{count, revert_jumps, revert_jumps-count}

abbrev home : Plan
home = record {
  mode = redirect;
  lan_devices = codes "br-lan" ∷ codes "br-guest" ∷ [];
  lan_cidrs = codes "192.168.1.0/24" ∷ codes "192.168.0.0/16" ∷ [];
  wan_device = codes "wan";
  tun_device = codes "xtun";
  tproxy_port = 12345;
  dns_port = 1053;
  mark = 255;
  mark_tproxy = 256;
  mark_tun_udp = 257;
  proxy_router = true;
  redirect_dns = true;
  block_quic = true;
  bypass_cidrs = codes " 203.0.113.0/24 " ∷ [];
  bypass_macs = codes "02:00:00:00:00:01" ∷ [];
}

-- A client's page over TCP, its video over QUIC, and what the router fetches from a bypassed network.
abbrev page : Packet
page = record {
  iif = codes "br-guest";
  mac_is = λ s. false;
  dst_in = λ s. false;
  proto = tcp;
  dport = 443;
  transparent = false;
}

abbrev video : Packet
video = record page { proto = udp }

abbrev fetch : Packet
fetch = record page { dst_in = text_eq (codes "203.0.113.0/24") }

nft_fate-meaning_example : nft_fate home video forward 0 ≡ record { mark = 0; delivery = refused }
unfolding meaning in_scope all_bypass dedupe dedupe_from trim drop_space is_space text_eq codes
    carries_udp
nft_fate-meaning_example = nft_fate-meaning home video forward 0

ipt_fate-meaning_example : ipt_fate home page prerouting 0 ≡ to_port 12345 0
unfolding meaning in_scope all_bypass dedupe dedupe_from trim drop_space is_space text_eq codes
ipt_fate-meaning_example = ipt_fate-meaning home page prerouting 0 refl

bypassed_left_example :
    (nft_fate home fetch prerouting 0 ≡ untouched 0)
    × (ipt_fate home fetch prerouting 0 ≡ untouched 0)
unfolding trim drop_space is_space text_eq codes
bypassed_left_example = bypassed_left home fetch prerouting 0 refl refl

own_left_example :
    (nft_fate home page output 255 ≡ untouched 255)
    × (ipt_fate home page output 255 ≡ untouched 255)
own_left_example = own_left home page refl

-- Nine client devices: one of their jumps stays behind.
abbrev nine : TableName → Hook → List Text
nine t h =
    let j : Text = codes "XWRT_PRE" in j ∷ j ∷ j ∷ j ∷ codes "DOCKER" ∷ j ∷ j ∷ j ∷ j ∷ j ∷ []

revert_jumps-count_example : count (codes "XWRT_PRE") (revert_jumps nine nat prerouting) ≡ 1
unfolding text_eq codes
revert_jumps-count_example = revert_jumps-count nine nat prerouting (codes "XWRT_PRE")
