-- ===== src/Model/Settings/Normal.antt =====
-- `Normalize` fills what is missing, once and for all.
use x_divine_ray.Prelude.{
  ℕ, zero, suc, ◌≤◌, Text, Bool, true, false, [], ◌∷◌, ◌≡◌, ◌≢◌, ◌⊎◌, inl, inr, refl, arith, codes,
  Bool-cases, if◌then◌else◌, sym,
}
use x_divine_ray.Model.Int.{ℤ, pos, negsuc, lt}
use x_divine_ray.Model.Mode
use x_divine_ray.Model.Mode.{Mode}
use x_divine_ray.Model.Settings.{
  DnsMode, SniffMode, TargetKind, Settings, keep_alive_min, keep_alive_max, defaults, or_int,
  or_text, or_dns_mode, or_sniff, kind_of, normalize_keep_alive, normalize,
}

abbrev pub KeepAliveOk : ℤ → Type 0
KeepAliveOk z =
    (z ≡ negsuc 0) ⊎ ((n : ℕ) × (z ≡ pos n) × (keep_alive_min ≤ n) × (n ≤ keep_alive_max))

abbrev pub known_dns : DnsMode → Bool
known_dns (DnsMode.other s) = false
known_dns _ = true

abbrev pub known_sniff : SniffMode → Bool
known_sniff (SniffMode.other s) = false
known_sniff _ = true

abbrev pub known_kind : TargetKind → Bool
known_kind (TargetKind.other s) = false
known_kind _ = true

pub record IsNormal (s : Settings) : Type 0 where
  pub mode : Mode.valid s.mode ≡ true
  pub kind : known_kind s.active_kind ≡ true
  pub ports :
      (s.socks_port ≢ pos 0)
      × (s.http_port ≢ pos 0)
      × (s.tprox_port ≢ pos 0)
      × (s.dns_port ≢ pos 0)
      × (s.api_port ≢ pos 0)
      × (s.stats_port ≢ pos 0)
  pub dns : s.dns ≢ []
  pub dns_mode : known_dns s.dns_mode ≡ true
  pub log_level : s.log_level ≢ []
  pub conn_idle : s.conn_idle ≢ pos 0
  pub keep_alive : KeepAliveOk s.keep_alive
  pub sniff : known_sniff s.sniff ≡ true
  pub programs : (s.xray_bin ≢ []) × (s.hev_bin ≢ []) × (s.run_dir ≢ [])
  pub device : (s.tun_name ≢ []) × (s.tun_addr ≢ []) × (s.tun_mask ≢ []) × (s.tun_mtu ≢ pos 0)
  pub routing : (s.fw_mark ≢ []) × (s.route_table ≢ pos 0)

or_int-ne : (z : ℤ) (n : ℕ) → or_int z (pos (suc n)) ≢ pos 0
or_int-ne (pos zero) n e = ground arith
or_int-ne (pos (suc k)) n e = ground arith
or_int-ne (negsuc k) n e = cc

or_text-ne : (s : Text) (c : ℕ) (d : Text) → or_text s (c ∷ d) ≢ []
or_text-ne [] c d e = cc
or_text-ne (a ∷ s) c d e = cc

normalize_keep_alive_ok : (z : ℤ) → KeepAliveOk (normalize_keep_alive z (pos 30))
unfolding normalize_keep_alive
normalize_keep_alive_ok (negsuc n) = inl refl
normalize_keep_alive_ok (pos zero) = inr (30, refl, omega arith, omega arith)
normalize_keep_alive_ok (pos (suc n)) = elim (Bool-cases (lt (pos (suc n)) (pos keep_alive_min))) [
  | inl low ↦ rw low (inr (keep_alive_min, refl, omega arith, omega arith))
  | inr fine ↦ elim (Bool-cases (lt (pos keep_alive_max) (pos (suc n)))) [
    | inl high ↦ rw (fine, high) (inr (keep_alive_max, refl, omega arith, omega arith))
    | inr low ↦ rw (fine, low) (inr (suc n, refl, ground arith, ground arith))
  ]
]

normalize_mode : (m : Mode) → Mode.valid (if Mode.valid m then m else Mode.mixed) ≡ true
unfolding Mode.valid
normalize_mode m = elim (Bool-cases (Mode.valid m)) [ inl v ↦ rw v v | inr v ↦ rw v refl ]

known_dns-or : (m : DnsMode) → known_dns (or_dns_mode m DnsMode.dnsmasq) ≡ true
known_dns-or m = ground arith

known_sniff-or : (m : SniffMode) → known_sniff (or_sniff m SniffMode.auto) ≡ true
known_sniff-or m = ground arith

known_kind-of : (k : TargetKind) → known_kind (kind_of k) ≡ true
known_kind-of k = ground arith

normalize-IsNormal : (s : Settings) → IsNormal (normalize s)
unfolding normalize defaults codes
normalize-IsNormal s = record {
  mode = normalize_mode s.mode;
  kind = known_kind-of s.active_kind;
  ports = (
    or_int-ne s.socks_port _,
    or_int-ne s.http_port _,
    or_int-ne s.tprox_port _,
    or_int-ne s.dns_port _,
    or_int-ne s.api_port _,
    or_int-ne s.stats_port _,
  );
  dns = or_text-ne s.dns _ _;
  dns_mode = known_dns-or s.dns_mode;
  log_level = or_text-ne s.log_level _ _;
  conn_idle = or_int-ne s.conn_idle _;
  keep_alive = normalize_keep_alive_ok s.keep_alive;
  sniff = known_sniff-or s.sniff;
  programs = (or_text-ne s.xray_bin _ _, or_text-ne s.hev_bin _ _, or_text-ne s.run_dir _ _);
  device = (
    or_text-ne s.tun_name _ _,
    or_text-ne s.tun_addr _ _,
    or_text-ne s.tun_mask _ _,
    or_int-ne s.tun_mtu _,
  );
  routing = (or_text-ne s.fw_mark _ _, or_int-ne s.route_table _);
}

or_int_id : (z d : ℤ) → z ≢ pos 0 → or_int z d ≡ z
or_int_id (pos zero) d h = absurd (h refl)
or_int_id (pos (suc n)) d h = refl
or_int_id (negsuc n) d h = refl

or_text_id : (s d : Text) → s ≢ [] → or_text s d ≡ s
or_text_id [] d h = absurd (h refl)
or_text_id (c ∷ s) d h = refl

or_dns_mode_id : (m d : DnsMode) → known_dns m ≡ true → or_dns_mode m d ≡ m
or_dns_mode_id m d h = ground arith

or_sniff_id : (m d : SniffMode) → known_sniff m ≡ true → or_sniff m d ≡ m
or_sniff_id m d h = ground arith

kind_of_id : (k : TargetKind) → known_kind k ≡ true → kind_of k ≡ k
kind_of_id k h = ground arith

normalize_keep_alive_id : (z d : ℤ) → KeepAliveOk z → normalize_keep_alive z d ≡ z
unfolding normalize_keep_alive
normalize_keep_alive_id (negsuc n) d (inl e) = sym e
normalize_keep_alive_id (pos n) d (inl e) = cc
normalize_keep_alive_id (negsuc n) d (inr h) = cc (h.1)
normalize_keep_alive_id (pos zero) d (inr h) = absurd (ground (arith, h))
normalize_keep_alive_id (pos (suc n)) d (inr h) = ground (arith, h)

pub normalize_id : (s : Settings) → IsNormal s → normalize s ≡ s
unfolding normalize
normalize_id s h = simp (
  h.mode,
  kind_of_id _ h.kind,
  or_int_id _ _ h.ports.0,
  or_int_id _ _ h.ports.1,
  or_int_id _ _ h.ports.2,
  or_int_id _ _ h.ports.3,
  or_int_id _ _ h.ports.4,
  or_int_id _ _ h.ports.5,
  or_text_id _ _ h.dns,
  or_dns_mode_id _ _ h.dns_mode,
  or_text_id _ _ h.log_level,
  or_int_id _ _ h.conn_idle,
  normalize_keep_alive_id _ _ h.keep_alive,
  or_sniff_id _ _ h.sniff,
  or_text_id _ _ h.programs.0,
  or_text_id _ _ h.programs.1,
  or_text_id _ _ h.programs.2,
  or_text_id _ _ h.device.0,
  or_text_id _ _ h.device.1,
  or_text_id _ _ h.device.2,
  or_int_id _ _ h.device.3,
  or_text_id _ _ h.routing.0,
  or_int_id _ _ h.routing.1,
)

-- Whatever was read from the file, normalizing leaves settings in which every port, program, path
-- and device is filled in, the modes are known and the keepalive is -1 or from 10 to 600; and
-- normalizing again changes nothing.
pub normalize_lem :
    (s : Settings) → IsNormal (normalize s) × (normalize (normalize s) ≡ normalize s)
normalize_lem s = (normalize-IsNormal s, normalize_id (normalize s) (normalize-IsNormal s))
