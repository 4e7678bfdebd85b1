-- ===== src/Daemon/Engine/Order.antt =====
-- The order of `startLocked`: nobody's traffic is captured before the tunnel was seen to carry data.
use x_divine_ray.Prelude.{Bool, Option, Text, arith, false, none, refl, some, ◌≡◌, ◌≢◌, ap}
use x_divine_ray.Model.Profile.{Profile}
use x_divine_ray.Model.Settings.{Settings}
use x_divine_ray.Daemon.Engine.{Kernel, World, Attempt, Code, core_no_data, Run, ◌>>◌, continue}
use x_divine_ray.Daemon.Engine.Start.{
  prepare, start_core, start_tun, probe, capture, steer, start_locked,
}
use x_divine_ray.Daemon.Engine.Covered.{
  Keeps, Keeps->>, >>-eq-none, prepare_pure, look_at_pin_frame,
}

-- The rules and the resolver are as they were in `k`.
record Untouched (k : Kernel) (w : World) : Type 0 where
  rules : w.kernel.rules_installed ≡ k.rules_installed
  dns : w.kernel.dns_steered ≡ k.dns_steered

start_core-Untouched : (k : Kernel) (a : Attempt) → Keeps (Untouched k) (start_core a)
unfolding start_core ◌>>◌
start_core-Untouched k a w h = ground arith

start_tun-Untouched :
    (k : Kernel) (s : Settings) (a : Attempt) → Keeps (Untouched k) (start_tun s a)
unfolding start_tun ◌>>◌
start_tun-Untouched k s a w h = ground arith

prepare-Untouched : (k : Kernel) (s : Settings) (a : Attempt) → Keeps (Untouched k) (prepare s a)
prepare-Untouched k s a w h = rw (prepare_pure s a w) h

-- A step that fails is the last one.
>>_fails : (m n : Run) (w : World) (c : Code) → (m w).0 ≡ some c → (m >> n) w ≡ m w
unfolding ◌>>◌
>>_fails m n w c = let (r, w') = m w in step r w'
  where
    step : (r : Option Code) (w' : World) → r ≡ some c → continue r n w' ≡ (r, w')
    step none w' h = cc
    step (some d) w' h = refl

module _ (is_ip : Text → Bool) (p : Option Profile) (s : Settings) (a : Attempt) where
  probe-Untouched : (k : Kernel) → Keeps (Untouched k) (probe is_ip p a)
  unfolding probe
  probe-Untouched k w h = ground (arith, look_at_pin_frame is_ip p a w)

  blocked :
      (w : World)
      → a.reachable ≡ false
      → (probe is_ip p a >> (capture s a >> steer s a)) w ≡ probe is_ip p a w
  blocked w off = >>_fails _ _ w core_no_data (unfold probe in rw off)

  -- If no data comes through the started core, the start fails, and neither the firewall's rules
  -- nor the resolver's configuration have been changed.
  pub no_capture_without_data :
      (w : World)
      → a.reachable ≡ false
      → let (r, w') = start_locked is_ip p s a w in
        (r ≢ none)
        × (w'.kernel.rules_installed ≡ w.kernel.rules_installed)
        × (w'.kernel.dns_steered ≡ w.kernel.dns_steered)
  unfolding start_locked
  no_capture_without_data w off = (
    λ h.
        let (_, h1, _) = >>-eq-none (prepare s a) _ w h in
        let (_, h2, _) = >>-eq-none (start_core a) _ _ h1 in
        let (_, h3, _) = >>-eq-none (start_tun s a) _ _ h2 in
        cc (ap (λ (x : Option Code × World). x.0) (blocked _ off), probe_refuses _),
    whole.rules,
    whole.dns,
  )
    where
      k : Kernel
      k = w.kernel

      tail : Keeps (Untouched k) (probe is_ip p a >> (capture s a >> steer s a))
      tail v h = rw (blocked v off) (probe-Untouched k v h)

      probe_refuses : (v : World) → (probe is_ip p a v).0 ≡ some core_no_data
      probe_refuses v = unfold probe in rw off

      whole : Untouched k (start_locked is_ip p s a w).1
      whole =
          Keeps->> (Untouched k) _ _ (prepare-Untouched k s a)
            (Keeps->> (Untouched k) _ _ (start_core-Untouched k a)
              (Keeps->> (Untouched k) _ _ (start_tun-Untouched k s a) tail))
            w (record { rules = refl; dns = refl })
