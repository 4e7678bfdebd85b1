-- ===== src/Model/Mode.antt =====
-- The capture modes and their predicates (internal/model/model.go, `Mode`).
use x_divine_ray.Prelude.{
  Text, Bool, true, false, not, ◌||◌, List, [], ◌∷◌, ◌≡◌, refl, text_eq, any_of,
}

-- A Go string with four named values; `other` holds any string that is none of them.
pub data Mode : Type 0 where
  redirect mixed tproxy tun : Mode
  other : Text → Mode

abbrev pub mode_eq : Mode → Mode → Bool
mode_eq redirect redirect = true
mode_eq mixed mixed = true
mode_eq tproxy tproxy = true
mode_eq tun tun = true
mode_eq (other s) (other t) = text_eq s t
mode_eq _ _ = false

abbrev pub modes : List Mode
modes = redirect ∷ mixed ∷ tproxy ∷ tun ∷ []

unfoldable pub valid : Mode → Bool
valid m = any_of (mode_eq m) modes

unfoldable pub needs_tproxy : Mode → Bool
needs_tproxy m = mode_eq m tproxy

unfoldable pub needs_tun_process : Mode → Bool
needs_tun_process m = mode_eq m mixed || mode_eq m tun

unfoldable pub carries_udp : Mode → Bool
carries_udp m = not (mode_eq m redirect)

unfoldable pub needs_firewall_capture : Mode → Bool
needs_firewall_capture m = not (mode_eq m tun)

unfoldable pub captures_tcp_via_redirect : Mode → Bool
captures_tcp_via_redirect m = mode_eq m redirect || mode_eq m mixed

unfoldable pub captures_tcp_via_tproxy : Mode → Bool
captures_tcp_via_tproxy m = mode_eq m tproxy

unfoldable pub captures_udp : Mode → Bool
captures_udp m = mode_eq m mixed || mode_eq m tproxy || mode_eq m tun

unfoldable pub captures_udp_via_tproxy : Mode → Bool
captures_udp_via_tproxy m = mode_eq m tproxy

unfoldable pub marks_udp_for_tun : Mode → Bool
marks_udp_for_tun m = mode_eq m mixed

-- The ways in which a mode takes up TCP and UDP, one of each at most.
pub data TcpPath : Type 0 where
  tcp_redirect tcp_tproxy tcp_tun tcp_none : TcpPath

pub data UdpPath : Type 0 where
  udp_none udp_tproxy udp_mark udp_tun : UdpPath

abbrev pub tcp_path : Mode → TcpPath
tcp_path redirect = tcp_redirect
tcp_path mixed = tcp_redirect
tcp_path tproxy = tcp_tproxy
tcp_path tun = tcp_tun
tcp_path (other s) = tcp_none

abbrev pub udp_path : Mode → UdpPath
udp_path redirect = udp_none
udp_path mixed = udp_mark
udp_path tproxy = udp_tproxy
udp_path tun = udp_tun
udp_path (other s) = udp_none

abbrev is_tcp : TcpPath → TcpPath → Bool
is_tcp tcp_redirect tcp_redirect = true
is_tcp tcp_tproxy tcp_tproxy = true
is_tcp tcp_tun tcp_tun = true
is_tcp tcp_none tcp_none = true
is_tcp _ _ = false

abbrev is_udp : UdpPath → UdpPath → Bool
is_udp udp_none udp_none = true
is_udp udp_tproxy udp_tproxy = true
is_udp udp_mark udp_mark = true
is_udp udp_tun udp_tun = true
is_udp _ _ = false

-- What the predicates say of a mode, against the table of paths.
abbrev pub PathsAgree : Mode → Type 0
PathsAgree m =
    (captures_tcp_via_redirect m ≡ is_tcp (tcp_path m) tcp_redirect)
    × (captures_tcp_via_tproxy m ≡ is_tcp (tcp_path m) tcp_tproxy)
    × (captures_udp_via_tproxy m ≡ is_udp (udp_path m) udp_tproxy)
    × (marks_udp_for_tun m ≡ is_udp (udp_path m) udp_mark)
    × (needs_firewall_capture m ≡ (
        captures_tcp_via_redirect m
        || captures_tcp_via_tproxy m
        || captures_udp_via_tproxy m
        || marks_udp_for_tun m))
    × (needs_tun_process m ≡ (marks_udp_for_tun m || is_udp (udp_path m) udp_tun))
    × (needs_tproxy m ≡ (captures_tcp_via_tproxy m || captures_udp_via_tproxy m))
    × (captures_udp m ≡ not (is_udp (udp_path m) udp_none))
    × (captures_udp m ≡ carries_udp m)

-- The predicates agree with one table of paths: each mode's TCP and UDP take exactly the path of
-- the table, the firewall captures something exactly when one of the two paths is a firewall one,
-- the tunnel process runs exactly when one of them ends in the TUN device, and on the known modes
-- `CapturesUDP` and `CarriesUDP` say the same.
pub paths_agree : (m : Mode) → valid m ≡ true → PathsAgree m
unfolding valid needs_tproxy needs_tun_process carries_udp needs_firewall_capture
    captures_tcp_via_redirect captures_tcp_via_tproxy captures_udp captures_udp_via_tproxy
    marks_udp_for_tun
paths_agree redirect h = (refl, refl, refl, refl, refl, refl, refl, refl, refl)
paths_agree mixed h = (refl, refl, refl, refl, refl, refl, refl, refl, refl)
paths_agree tproxy h = (refl, refl, refl, refl, refl, refl, refl, refl, refl)
paths_agree tun h = (refl, refl, refl, refl, refl, refl, refl, refl, refl)
paths_agree (other s) h = cc
