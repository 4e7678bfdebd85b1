-- ===== src/Fw.antt =====
-- The capture rules (internal/fw): the plan that both backends install, and what it means for a packet.
pub mod Packet
pub mod Nft
pub mod Ipt
pub mod Meaning
pub mod Bypass
use x_divine_ray.Prelude.{
  Bool, List, Text, [], any_of, codes, if◌then◌else◌, text_eq, ℕ, ◌++◌, ◌||◌, ◌∷◌,
}
use x_divine_ray.Prelude.Trim.{trim}
use x_divine_ray.Model.Mode.{Mode}

-- The ports and marks are those of checked settings, so they are not negative.
pub record Plan : Type 0 where
  pub mode : Mode
  pub lan_devices : List Text
  pub lan_cidrs : List Text
  pub wan_device : Text
  pub tun_device : Text
  pub tproxy_port : ℕ
  pub dns_port : ℕ
  pub mark : ℕ
  pub mark_tproxy : ℕ
  pub mark_tun_udp : ℕ
  pub proxy_router : Bool
  pub redirect_dns : Bool
  pub block_quic : Bool
  pub bypass_cidrs : List Text
  pub bypass_macs : List Text

abbrev pub private_cidrs : List Text
private_cidrs =
    codes "0.0.0.0/8"
    ∷ codes "10.0.0.0/8"
    ∷ codes "100.64.0.0/10"
    ∷ codes "127.0.0.0/8"
    ∷ codes "169.254.0.0/16"
    ∷ codes "172.16.0.0/12"
    ∷ codes "192.0.0.0/24"
    ∷ codes "192.168.0.0/16"
    ∷ codes "198.18.0.0/15"
    ∷ codes "224.0.0.0/4"
    ∷ codes "240.0.0.0/4"
    ∷ []

-- The loop of `dedupe`, with the values that were seen.
unfoldable pub dedupe_from : List Text → List Text → List Text
dedupe_from seen [] = []
dedupe_from seen (x ∷ xs) =
    let v : Text = trim x in
    let skipped : List Text = dedupe_from seen xs in
    let kept : List Text = dedupe_from (v ∷ seen) xs in
    if text_eq v [] || any_of (λ s. text_eq s v) seen then skipped else v ∷ kept

unfoldable pub dedupe : List Text → List Text
dedupe xs = dedupe_from [] xs

unfoldable pub all_bypass : Plan → List Text
all_bypass p = dedupe (private_cidrs ++ (p.lan_cidrs ++ p.bypass_cidrs))
