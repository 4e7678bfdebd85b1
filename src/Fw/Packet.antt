-- ===== src/Fw/Packet.antt =====
-- A packet as the rules see it, and what becomes of it. How an address is matched against a written
-- network, and a hardware address against a written one, is the kernel's: the packet brings the
-- answers as functions.
use x_divine_ray.Prelude.{Bool, Text, false, true, ℕ}

pub data Proto : Type 0 where
  tcp udp other : Proto

abbrev pub proto_eq : Proto → Proto → Bool
proto_eq tcp tcp = true
proto_eq udp udp = true
proto_eq other other = true
proto_eq _ _ = false

pub data Hook : Type 0 where
  prerouting forward output : Hook

abbrev pub hook_eq : Hook → Hook → Bool
hook_eq prerouting prerouting = true
hook_eq forward forward = true
hook_eq output output = true
hook_eq _ _ = false

-- `transparent` says that the packet belongs to a transparent socket that is there already.
pub record Packet : Type 0 where
  pub iif : Text
  pub mac_is : Text → Bool
  pub dst_in : Text → Bool
  pub proto : Proto
  pub dport : ℕ
  pub transparent : Bool

-- `passed` goes on to where it was sent; the others end at a local port, or are refused.
pub data Delivery : Type 0 where
  passed refused : Delivery
  redirected tproxied : ℕ → Delivery

pub record Fate : Type 0 where
  pub mark : ℕ
  pub delivery : Delivery

abbrev pub untouched : ℕ → Fate
untouched m = record { mark = m; delivery = passed }
