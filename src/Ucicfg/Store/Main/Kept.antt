-- ===== src/Ucicfg/Store/Main/Kept.antt =====
-- What the section of the settings reads as.
use x_divine_ray.Prelude.{[], codes, text_eq, true, ◌≡◌, ◌≢◌, refl, ap, ◌∙◌}
use x_divine_ray.Model.Mode
use x_divine_ray.Model.Mode.{Mode}
use x_divine_ray.Model.Settings.{Settings, DnsMode, SniffMode, TargetKind, normalize}
use x_divine_ray.Model.Settings.Normal.{IsNormal, normalize_id, known_dns, known_sniff, known_kind}
use x_divine_ray.Ucicfg.Names.{
  mode_text, mode_of, mode_of-mode_text, kind_text, kind_named, kind_named-kind_text, sniff_text,
  sniff_of, sniff_of-sniff_text, dns_text, dns_of, dns_of-dns_text,
}
use x_divine_ray.Ucicfg.Value.RoundTrip.{to_int-itoa, to_bool-from_bool}
use x_divine_ray.Ucicfg.Store.Sections.{or_default_lem}
use x_divine_ray.Ucicfg.Store.Others.{filled}
use x_divine_ray.Ucicfg.Store.Main.{save_main, load_main, read_main, when_set}

when_set-mode : (m def : Mode) → Mode.valid m ≡ true → when_set (mode_text m) mode_of def ≡ m
unfolding codes Mode.valid
when_set-mode Mode.redirect def h = mode_of-mode_text Mode.redirect h
when_set-mode Mode.mixed def h = mode_of-mode_text Mode.mixed h
when_set-mode Mode.tproxy def h = mode_of-mode_text Mode.tproxy h
when_set-mode Mode.tun def h = mode_of-mode_text Mode.tun h
when_set-mode (Mode.other s) def h = cc

when_set-kind :
    (k def : TargetKind) → known_kind k ≡ true → when_set (kind_text k) kind_named def ≡ k
unfolding codes
when_set-kind TargetKind.profile def h = kind_named-kind_text TargetKind.profile h
when_set-kind TargetKind.group def h = kind_named-kind_text TargetKind.group h
when_set-kind (TargetKind.other s) def h = cc

when_set-sniff :
    (k def : SniffMode) → known_sniff k ≡ true → when_set (sniff_text k) sniff_of def ≡ k
unfolding codes
when_set-sniff SniffMode.auto def h = sniff_of-sniff_text SniffMode.auto h
when_set-sniff SniffMode.on def h = sniff_of-sniff_text SniffMode.on h
when_set-sniff SniffMode.off def h = sniff_of-sniff_text SniffMode.off h
when_set-sniff (SniffMode.other s) def h = cc

when_set-dns : (k def : DnsMode) → known_dns k ≡ true → when_set (dns_text k) dns_of def ≡ k
unfolding codes
when_set-dns DnsMode.dnsmasq def h = dns_of-dns_text DnsMode.dnsmasq h
when_set-dns DnsMode.redirect def h = dns_of-dns_text DnsMode.redirect h
when_set-dns DnsMode.off def h = dns_of-dns_text DnsMode.off h
when_set-dns (DnsMode.other s) def h = cc

module _ (s : Settings) (n : IsNormal s) (repo : s.update_repo ≢ []) where
  read_main-save_main : read_main (save_main s) ≡ s
  unfolding read_main save_main codes text_eq
  read_main-save_main =
      simp
        (
          filled,
          to_int-itoa,
          to_bool-from_bool,
          when_set-mode s.mode _ n.mode,
          when_set-kind s.active_kind _ n.kind,
          when_set-sniff s.sniff _ n.sniff,
          when_set-dns s.dns_mode _ n.dns_mode,
          or_default_lem s.dns _ n.dns,
          or_default_lem s.log_level _ n.log_level,
          or_default_lem s.xray_bin _ n.programs.0,
          or_default_lem s.hev_bin _ n.programs.1,
          or_default_lem s.run_dir _ n.programs.2,
          or_default_lem s.tun_name _ n.device.0,
          or_default_lem s.tun_addr _ n.device.1,
          or_default_lem s.tun_mask _ n.device.2,
          or_default_lem s.fw_mark _ n.routing.0,
          or_default_lem s.update_repo _ repo,
        )
        refl

  -- Loading the section that was written of normal settings, whose update source is not empty, gives
  -- the settings.
  pub load_main-save_main : load_main (save_main s) ≡ s
  unfolding load_main
  load_main-save_main = ap normalize read_main-save_main ∙ normalize_id s n
