-- ===== src/Daemon/Engine/Result.antt =====
-- What `Connect` leaves behind: a whole connection to what was asked for, the previous one, or
-- nothing at all.
use x_divine_ray.Prelude.{
  Option, Text, [], arith, none, refl, some, text_eq_iff, true, ◌≡◌, ◌≢◌, if_elim,
}
use x_divine_ray.Model.Mode
use x_divine_ray.Model.Strategy.{Group}
use x_divine_ray.Model.Profile.{Profile}
use x_divine_ray.Ucicfg.Data.{Data}
use x_divine_ray.Ucicfg.Data
use x_divine_ray.Ucicfg.Data.Lookup.{group-id, profile-id}
use x_divine_ray.Daemon.Engine.{World, Settings, Attempt, Torn, Code}
use x_divine_ray.Daemon.Engine.Start.{is_dnsmasq, teardown, start_locked}
use x_divine_ray.Daemon.Engine.Connect.{
  Target, target_profile, target_group, found, id_of, active_target, Checks, resolve_target,
  resolve, connect_pass, Resolved, pass_to, choose_id, begin, connected_to, finish_pass, refused,
  Pass,
}
use x_divine_ray.Daemon.Engine.Covered.{
  Covered, IsClean, Reverts, teardown-IsClean, start_locked-Covered, IsClean-Covered,
}
use x_divine_ray.Daemon.Engine.Outcome.{captures, started, start_locked_done}

-- `id` is connected, and the system holds exactly what the settings in force need for it.
pub record IsConnected (id : Text) (w : World) : Type 0 where
  pub on : w.engine.connected ≡ true
  pub target : active_target w.engine ≡ id
  pub core : w.kernel.core_running ≡ true
  pub tun : w.kernel.tun_up ≡ Mode.needs_tun_process w.engine.settings.mode
  pub rules : w.kernel.rules_installed ≡ captures w.engine.settings
  pub dns : w.kernel.dns_steered ≡ is_dnsmasq w.engine.settings.dns_mode
  pub covered : Covered w

module _ (k : Checks) (d : Data) (id : Text) where
  resolve_target-id :
      (x : Target) (og : Option Group) (op : Option Profile)
      → Data.group d id ≡ og
      → Data.profile d id ≡ op
      → resolve_target k d og op ≡ found x
      → id_of (target_group x) (target_profile x) ≡ id
  resolve_target-id x (some g) op eg ep h = ground (arith, group-id d id g eg)
  resolve_target-id x none (some p) eg ep h = ground (arith, profile-id d id p ep)
  resolve_target-id x none none eg ep h = cc

  pub resolve-id :
      (x : Target)
      → resolve k d id ≡ found x
      → (id ≢ []) × (id_of (target_group x) (target_profile x) ≡ id)
  unfolding resolve
  resolve-id x h = ground (
    arith,
    text_eq_iff id [],
    resolve_target-id x (Data.group d id) (Data.profile d id) refl refl,
  )

-- The state of a start that began torn down, once it is connected.
started-IsConnected :
    (x : Target) (s : Settings) (a : Attempt) (t : Torn) (w : World) (d : Data)
    → IsClean (teardown t w)
    → let v = started s (begin s a t w) in
      IsConnected
        (id_of (target_group x) (target_profile x))
        (record v { engine = connected_to x v.engine; disk = d })
unfolding active_target
started-IsConnected x s a t w d c = record {
  on = refl;
  target = refl;
  core = refl;
  tun = ground (arith, c.no_trace);
  rules = ground (arith, c.no_trace);
  dns = ground (arith, c.no_trace);
  covered = ground (arith, c.no_trace);
}

module _ (k : Checks) (a : Attempt) (t : Torn) where
  pass_to_done :
      (id : Text) (x : Target) (w : World)
      → id_of (target_group x) (target_profile x) ≡ id
      → Reverts t
      → Covered w
      → (pass_to k id a t (found x) w).0.0 ≡ none
      → IsConnected id (pass_to k id a t (found x) w).0.1
  pass_to_done id x w e rv c h =
      let s = w.disk.settings in
      let b = begin s a t w in
      let p = target_profile x in
      go (start_locked k.is_ip p s a b).0 (start_locked k.is_ip p s a b).1
        (start_locked_done k.is_ip p s a b) h
    where
      go :
          (r : Option Code) (v : World)
          → (r ≡ none → v ≡ started w.disk.settings (begin w.disk.settings a t w))
          → (finish_pass a id x (r, v)).0.0 ≡ none
          → IsConnected id (finish_pass a id x (r, v)).0.1
      go none v ev h' =
          rw (ev refl, ← e)
            (started-IsConnected x w.disk.settings a t w _ (teardown-IsClean t w rv c))
      go (some f) v ev h' = cc

  pub connect_pass_done :
      (id : Text) (w : World)
      → Reverts t
      → Covered w
      → (connect_pass k id a t w).0.0 ≡ none
      → IsConnected (choose_id id w.disk) (connect_pass k id a t w).0.1
  unfolding connect_pass
  connect_pass_done id w rv c =
      let i = choose_id id w.disk in
      if_elim (λ (r : Pass). r.0.0 ≡ none → IsConnected i r.0.1) a.loads _ _
        (λ _. go i (resolve k w.disk i) (resolve-id k w.disk i)) (λ _ h. cc)
    where
      go :
          (i : Text) (r : Resolved)
          → ((x : Target)
              → r ≡ found x
              → (i ≢ []) × (id_of (target_group x) (target_profile x) ≡ i))
          → (pass_to k i a t r w).0.0 ≡ none
          → IsConnected i (pass_to k i a t r w).0.1
      go i (refused f) q h' = cc
      go i (found x) q h' = pass_to_done i x w (q x refl).1 rv c h'

  pass_to-Covered :
      (id : Text) (x : Resolved) (w : World)
      → Reverts t
      → Covered w
      → Covered (pass_to k id a t x w).0.1
  pass_to-Covered id (refused f) w rv c = c
  pass_to-Covered id (found x) w rv c =
      let s = w.disk.settings in
      let b = begin s a t w in
      let p = target_profile x in
      go (start_locked k.is_ip p s a b).0 (start_locked k.is_ip p s a b).1 (
        start_locked-Covered k.is_ip p s a b
          (begin-Covered (IsClean-Covered (teardown-IsClean t w rv c))))
    where
      begin-Covered : Covered (teardown t w) → Covered (begin w.disk.settings a t w)
      begin-Covered h = record { core = h.core; tun = h.tun; rules = h.rules; dns = h.dns }

      go : (r : Option Code) (v : World) → Covered v → Covered (finish_pass a id x (r, v)).0.1
      go none v h = record { core = h.core; tun = h.tun; rules = h.rules; dns = h.dns }
      go (some f) v h = record { core = h.core; tun = h.tun; rules = h.rules; dns = h.dns }

  pub connect_pass-Covered :
      (id : Text) (w : World) → Reverts t → Covered w → Covered (connect_pass k id a t w).0.1
  unfolding connect_pass
  connect_pass-Covered id w rv c =
      let i = choose_id id w.disk in
      if_elim (λ (r : Pass). Covered r.0.1) a.loads _ _
        (λ _. pass_to-Covered i (resolve k w.disk i) w rv c) (λ _. c)
