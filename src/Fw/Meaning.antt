-- ===== src/Fw/Meaning.antt =====
-- What a plan is meant to do with a packet of a new connection, whichever backend installs it
-- (internal/fw/nft.go and ipt.go, internal/model/model.go: the table of what each mode captures).
use x_divine_ray.Prelude.{
  Bool, List, Text, [], ◌≡◌, refl, any_of, false, if◌then◌else◌, not, text_eq, true, ℕ, ◌&&◌, ◌==◌,
  ◌∷◌,
}
use x_divine_ray.Model.Mode.{Mode, redirect, mixed, tproxy, tun, carries_udp}
use x_divine_ray.Fw.{Plan, all_bypass}
use x_divine_ray.Fw.Packet.{
  Proto, tcp, udp, proto_eq, Hook, prerouting, forward, output, Packet, Fate, untouched, refused,
  redirected, tproxied,
}

-- Traffic of clients: what comes in by a LAN device, or, where none is known, not by the WAN's.
abbrev pub from_client : List Text → Text → Text → Bool
from_client (d ∷ ds) wan iif = any_of (text_eq iif) (d ∷ ds)
from_client [] [] iif = true
from_client [] (c ∷ wan) iif = not (text_eq iif (c ∷ wan))

unfoldable pub in_scope : Plan → Packet → Bool
in_scope p k =
    from_client p.lan_devices p.wan_device k.iif
    && (not (any_of k.mac_is p.bypass_macs) && not (any_of k.dst_in (all_bypass p)))

abbrev pub to_port : ℕ → ℕ → Fate
to_port n m = record { mark = m; delivery = redirected n }

abbrev pub to_socket : ℕ → ℕ → Fate
to_socket n m = record { mark = m; delivery = tproxied n }

-- Client traffic that is in scope, for each mode; `dns` says that it is a name lookup to be taken.
abbrev pub captured : Mode → Proto → Bool → Bool → Plan → ℕ → Fate
captured redirect tcp dns known p m = to_port (if dns then p.dns_port else p.tproxy_port) m
captured redirect udp dns known p m = if dns then to_port p.dns_port m else untouched m
captured mixed tcp dns known p m = to_port (if dns then p.dns_port else p.tproxy_port) m
captured mixed udp dns known p m = if dns then to_port p.dns_port m else untouched p.mark_tun_udp
captured tproxy (Proto.other) dns known p m = untouched m
captured tproxy _ dns true p m = untouched p.mark_tproxy
captured tproxy _ dns false p m =
    to_socket (if dns then p.dns_port else p.tproxy_port) p.mark_tproxy
captured tun (Proto.other) dns known p m = untouched m
captured tun _ dns known p m = if dns then to_port p.dns_port m else untouched m
captured _ _ dns known p m = untouched m

-- The router's own traffic that carries no mark of the core and is not bypassed.
abbrev pub captured_own : Mode → Proto → Bool → Plan → ℕ → Fate
captured_own redirect tcp dns p m = to_port p.tproxy_port m
captured_own mixed tcp dns p m = to_port p.tproxy_port m
captured_own mixed udp dns p m = if dns then untouched m else untouched p.mark_tun_udp
captured_own tproxy tcp dns p m = to_port p.tproxy_port m
captured_own _ _ dns p m = untouched m

-- A packet with mark m at a hook.
unfoldable pub meaning : Plan → Packet → Hook → ℕ → Fate
meaning p k prerouting m =
    if in_scope p k
    then captured p.mode k.proto (p.redirect_dns && (k.dport == 53)) k.transparent p m
    else untouched m
meaning p k forward m =
    if in_scope p k
      && (p.block_quic && not (carries_udp p.mode))
      && (proto_eq k.proto udp && (k.dport == 443))
    then record { mark = m; delivery = refused }
    else untouched m
meaning p k output m =
    if p.proxy_router && not (m == p.mark) && not (any_of k.dst_in (all_bypass p))
    then captured_own p.mode k.proto (p.redirect_dns && (k.dport == 53)) p m
    else untouched m

pub captured-mixed :
    (pr : Proto) (dns known : Bool) (p : Plan) (m : ℕ)
    → captured redirect pr dns known p (if proto_eq pr udp && not dns then p.mark_tun_udp else m)
      ≡ captured mixed pr dns known p m
captured-mixed tcp dns known p m = refl
captured-mixed udp true known p m = refl
captured-mixed udp false known p m = refl
captured-mixed (Proto.other) dns known p m = refl

pub if_twice {ℓ} :
    {A : Type ℓ} (run : A → A) (b : Bool) (x y : A)
    → (if b then run (if b then x else y) else (if b then x else y)) ≡ (if b then run x else y)
if_twice run true x y = refl
if_twice run false x y = refl

pub tun_without_dns :
    (pr : Proto) (known : Bool) (p : Plan) (m : ℕ) → captured tun pr false known p m ≡ untouched m
tun_without_dns tcp known p m = refl
tun_without_dns udp known p m = refl
tun_without_dns (Proto.other) known p m = refl

pub if_same {ℓ} : {A : Type ℓ} (b : Bool) (x : A) → (if b then x else x) ≡ x
if_same true x = refl
if_same false x = refl
