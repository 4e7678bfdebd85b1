-- ===== src/Xray/Outbounds/Shape.antt =====
-- What the outbounds that lead to servers look like.
use mathlib.Core.Path.{subst}
use x_divine_ray.Prelude.{Bool, List, Option, Text, [], none, some, ℕ, ◌+◌, ◌∷◌, ◌≡◌}
use x_divine_ray.Model.Profile.{Profile}
use x_divine_ray.Model.Profile
use x_divine_ray.Model.Strategy.{Group}
use x_divine_ray.Ucicfg.Names.{proto_text}
use x_divine_ray.Xray.Config.{Outbound, StreamSettings, Balancer}
use x_divine_ray.Xray.Result.{
  ok, >>=-eq-ok, wrapped, wrapped-eq-ok, checked, checked-eq-ok, bad_profile, of_member,
}
use x_divine_ray.Xray.Stream.{Capabilities, build_stream}
use x_divine_ray.Xray.Outbounds.{
  member_tag, proto_settings, build_proxy_outbound, member_outbounds, build_group_outbounds,
  balancer_for,
}

module _ (is_ip : Text → Bool) (resolve : Option (Text → Text)) (mark : ℕ)
    (caps : Capabilities) where
  pub record IsServer (p : Profile) (tag : Text) (out : Outbound) : Type 0 where
    pub ss : StreamSettings
    pub stream : build_stream p mark caps ≡ ok ss
    pub complete : Profile.validate is_ip p ≡ none
    pub tagged : out.tag ≡ tag
    pub spoken : out.protocol ≡ proto_text p.proto
    pub streamed : out.stream_settings ≡ some ss

  pub build_proxy_outbound-IsServer :
      (p : Profile) (tag : Text) {out : Outbound}
      → build_proxy_outbound is_ip resolve p tag mark caps ≡ ok out
      → IsServer p tag out
  unfolding build_proxy_outbound
  build_proxy_outbound-IsServer p tag h =
      let (_, e, h1) = >>=-eq-ok (checked bad_profile (Profile.validate is_ip p)) _ h in
      let (_, _, h2) = >>=-eq-ok (proto_settings is_ip resolve p.proto p) _ h1 in
      let (ss, e', h3) = >>=-eq-ok (build_stream p mark caps) _ h2 in
      record {
        ss = ss;
        stream = e';
        complete = checked-eq-ok bad_profile (Profile.validate is_ip p) e;
        tagged = cc;
        spoken = cc;
        streamed = cc;
      }

  -- The outbounds of the members, in their order, tagged from `i` on.
  abbrev pub AreServers : ℕ → List Profile → List Outbound → Type 0
  AreServers i [] [] = Unit
  AreServers i (p ∷ ps) (out ∷ outs) = IsServer p (member_tag i) out × AreServers (i + 1) ps outs
  AreServers i _ _ = ⊥

  pub member_outbounds-AreServers :
      (i : ℕ) (ps : List Profile) {whole : List Outbound}
      → member_outbounds is_ip resolve i ps mark caps ≡ ok whole
      → AreServers i ps whole
  unfolding member_outbounds
  member_outbounds-AreServers i [] {whole} h =
      let e : [] ≡ whole = cc in subst (AreServers i []) e tt
  member_outbounds-AreServers i (p ∷ ps) {whole} h =
      let (out, e, h1) =
        >>=-eq-ok
          (wrapped (of_member p) (build_proxy_outbound is_ip resolve p (member_tag i) mark caps)) _
          h in
      let (outs, e', h2) = >>=-eq-ok (member_outbounds is_ip resolve (i + 1) ps mark caps) _ h1 in
      let same : out ∷ outs ≡ whole = cc in
      subst (AreServers i (p ∷ ps)) same (
        build_proxy_outbound-IsServer p (member_tag i) (wrapped-eq-ok (of_member p) _ e),
        member_outbounds-AreServers (i + 1) ps e',
      )

  pub build_group_outbounds-AreServers :
      (g : Group) (ps : List Profile) {r : List Outbound × Balancer}
      → build_group_outbounds is_ip resolve g ps mark caps ≡ ok r
      → AreServers 0 ps r.0 × (r.1 ≡ balancer_for g r.0)
  unfolding build_group_outbounds
  build_group_outbounds-AreServers g ps {r} h =
      let (outs, e, h1) = >>=-eq-ok (member_outbounds is_ip resolve 0 ps mark caps) _ h in
      let same : outs ≡ r.0 = cc in
      (subst (AreServers 0 ps) same (member_outbounds-AreServers 0 ps e), cc)
