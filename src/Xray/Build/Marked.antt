-- ===== src/Xray/Build/Marked.antt =====
-- Every outbound that dials carries the core's own mark.
use x_divine_ray.Xray.Build.Served.{Served, proxies-Served}
use x_divine_ray.Xray.Config.{Config, Sockopt}
use x_divine_ray.Model.Int.{pos, lt}
use x_divine_ray.Xray.KeepAlive.{on_stream, with_probes, keep_alive_networks, keep_alive_protocols}
use mathlib.Core.Path.{subst}
use x_divine_ray.Model.Int.{ℤ}
use x_divine_ray.Model.Settings.{Settings, mark_value}
use x_divine_ray.Xray.Config.{Config, Outbound, Balancer}
use x_divine_ray.Xray.Outbounds.Shape.{IsServer, AreServers}
use x_divine_ray.Xray.KeepAlive.{keep_stream_alive, keep_alive, apply_keep_alive}
use x_divine_ray.Xray.Rules.{is_off}
use x_divine_ray.Xray.Parts.{Options, Outside, other_outbounds}
use x_divine_ray.Xray.Build.{build, caps_of, Group}
use x_divine_ray.Xray.Build.Inverse.{IsBuilt, build-IsBuilt}
use x_divine_ray.Prelude.{
  Option, Text, codes, none, some, ℕ, ◌≡◌, ◌⊎◌, arith, ◌∙◌, All, Bool, List, [], inr, refl, ◌+◌,
  ◌∷◌, if_elim, inl, not, any_of, text_eq, All-append, map-All,
}
use x_divine_ray.Model.Profile.{Profile}
use x_divine_ray.Xray.Config.{Outbound, StreamSettings, Sockopt, no_stream, no_sockopt}
use x_divine_ray.Xray.Result.{ok, >>=-eq-ok}
use x_divine_ray.Xray.Stream.{Capabilities, secure, transport, build_stream, network_of}

abbrev HasMark : ℕ → Option Sockopt → Type 0
HasMark mark none = ⊥
HasMark mark (some k) = k.mark ≡ mark

abbrev StreamMarked : ℕ → Option StreamSettings → Type 0
StreamMarked mark none = ⊥
StreamMarked mark (some ss) = HasMark mark ss.sockopt

-- The outbound drops what it is given, or its socket has the mark.
abbrev pub Marked : ℕ → Outbound → Type 0
Marked mark out = (out.protocol ≡ codes "blackhole") ⊎ StreamMarked mark out.stream_settings

-- Neither the security nor the transport touches the socket's options.
secure-sockopt :
    (p : Profile) (caps : Capabilities) (ss : StreamSettings) {r : StreamSettings}
    → secure p caps ss ≡ ok r
    → r.sockopt ≡ ss.sockopt
unfolding secure
secure-sockopt p caps ss h = ground arith

transport-sockopt :
    (p : Profile) (caps : Capabilities) (n : Text) (ss : StreamSettings) {r : StreamSettings}
    → transport p caps n ss ≡ ok r
    → r.sockopt ≡ ss.sockopt
unfolding transport
transport-sockopt p caps n ss h = ground arith

abbrev before : Profile → ℕ → StreamSettings
before p mark = record no_stream {
  network = network_of p;
  sockopt = some (record no_sockopt { mark = mark });
}

build_stream-sockopt :
    (p : Profile) (mark : ℕ) (caps : Capabilities) {ss : StreamSettings}
    → build_stream p mark caps ≡ ok ss
    → ss.sockopt ≡ some (record no_sockopt { mark = mark })
unfolding build_stream
build_stream-sockopt p mark caps h =
    let (ss, e, h1) = >>=-eq-ok (secure p caps (before p mark)) _ h in
    transport-sockopt p caps (network_of p) ss h1 ∙ secure-sockopt p caps (before p mark) e

with_probes-HasMark :
    (mark : ℕ) (seconds : ℤ) (k : Option Sockopt)
    → HasMark mark k
    → HasMark mark (some (with_probes seconds k))
with_probes-HasMark mark seconds none h = absurd h
with_probes-HasMark mark seconds (some k) h = h

on_stream-StreamMarked :
    (mark : ℕ) (seconds : ℤ) (ss : Option StreamSettings)
    → StreamMarked mark ss
    → StreamMarked mark (on_stream seconds ss)
unfolding keep_stream_alive
on_stream-StreamMarked mark seconds none h = absurd h
on_stream-StreamMarked mark seconds (some ss) h =
    if_elim (λ (r : StreamSettings). HasMark mark r.sockopt)
      (any_of (text_eq ss.network) keep_alive_networks) _ ss
      (λ _. with_probes-HasMark mark seconds ss.sockopt h) (λ _. h)

keep_alive-Marked :
    (mark : ℕ) (seconds : ℤ) (out : Outbound)
    → Marked mark out
    → Marked mark (keep_alive seconds out)
unfolding keep_alive
keep_alive-Marked mark seconds out m =
    if_elim (Marked mark) (any_of (text_eq out.protocol) keep_alive_protocols) _ out (λ _. kept m)
      (λ _. m)
  where
    kept :
        Marked mark out
        → Marked mark (record out { stream_settings = on_stream seconds out.stream_settings })
    kept (inl dropped) = inl dropped
    kept (inr h) = inr (on_stream-StreamMarked mark seconds out.stream_settings h)

other_outbounds-Marked : (s : Settings) (mark : ℕ) → All (Marked mark) (other_outbounds s mark)
unfolding other_outbounds
other_outbounds-Marked s mark = (
  inr refl,
  (
    inl refl,
    if_elim (All (Marked mark)) (not (is_off s.dns_mode)) _ _ (λ _. (inr refl, tt)) (λ _. tt),
  ),
)

module _ (is_ip : Text → Bool) (resolve : Option (Text → Text)) (mark : ℕ)
    (caps : Capabilities) where
  IsServer-Marked :
      {p : Profile} {tag : Text} {out : Outbound}
      → IsServer is_ip resolve mark caps p tag out
      → Marked mark out
  IsServer-Marked {p} v = inr (rw v.streamed (rw (build_stream-sockopt p mark caps v.stream) refl))

  AreServers-Marked :
      (i : ℕ) (ps : List Profile) (outs : List Outbound)
      → AreServers is_ip resolve mark caps i ps outs
      → All (Marked mark) outs
  AreServers-Marked i [] [] h = tt
  AreServers-Marked i (p ∷ ps) (out ∷ outs) h =
      (IsServer-Marked h.0, AreServers-Marked (i + 1) ps outs h.1)
  AreServers-Marked i [] (out ∷ outs) h = absurd h
  AreServers-Marked i (p ∷ ps) [] h = absurd h

module _ (x : Outside) (o : Options) where
  Served-Marked :
      (mark : ℕ) (og : Option Group) (op : Option Profile) (outs : List Outbound)
      (bal : Option Balancer)
      → Served x o mark og op outs bal
      → All (Marked mark) outs
  Served-Marked mark (some g) op outs bal v =
      AreServers-Marked x.is_ip o.resolve mark (caps_of o.caps) 0 o.members outs v.0
  Served-Marked mark none (some p) outs bal (out, same, v, _) =
      rw same (IsServer-Marked x.is_ip o.resolve mark (caps_of o.caps) v, tt)
  Served-Marked mark none none outs bal v = absurd v

  apply_keep_alive-Marked :
      (mark : ℕ) (seconds : ℤ) (cfg : Config)
      → All (Marked mark) cfg.outbounds
      → All (Marked mark) (apply_keep_alive seconds cfg).outbounds
  unfolding apply_keep_alive
  apply_keep_alive-Marked mark seconds cfg h =
      if_elim (λ (c : Config). All (Marked mark) c.outbounds) (lt (pos 0) seconds) _ cfg
        (λ _.
          map-All (Marked mark) (keep_alive seconds) (keep_alive-Marked mark seconds) cfg.outbounds
            h)
        (λ _. h)

  -- In a configuration that Build returns, every outbound but the blackhole has a socket with the
  -- mark of the settings.
  pub build-Marked :
      (s : Settings) (cfg : Config)
      → o.settings ≡ some s
      → build x o ≡ ok cfg
      → All (Marked (mark_value x.parse_int s)) cfg.outbounds
  build-Marked s cfg given h =
      let b : IsBuilt x o s cfg = build-IsBuilt x o given h in
      let mark : ℕ = mark_value x.parse_int s in
      subst (λ (c : Config). All (Marked mark) c.outbounds) b.whole
        (apply_keep_alive-Marked mark s.keep_alive _ (
          All-append (Marked mark) b.outs (other_outbounds s mark)
            (Served-Marked mark o.group o.profile b.outs b.bal
              (proxies-Served x o mark o.group o.profile b.servers))
            (other_outbounds-Marked s mark)))
