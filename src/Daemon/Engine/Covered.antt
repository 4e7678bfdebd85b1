-- ===== src/Daemon/Engine/Covered.antt =====
-- What the daemon leaves in the system is always what it holds a handle for, so that a teardown
-- can undo all of it.
use x_divine_ray.Prelude.{Option, [], arith, false, none, some, true, ◌≡◌, Bool, Text, refl}
use x_divine_ray.Model.Settings.{Settings}
use x_divine_ray.Daemon.Engine.{World, Attempt, Torn, Code, Run, ◌>>◌, continue, Profile}
use x_divine_ray.Daemon.Engine.Start.{
  prepare, start_core, start_tun, capture, steer, teardown, look_at_pin, probe, start_locked,
}

pub record Covered (w : World) : Type 0 where
  pub core : w.kernel.core_running ≡ true → w.engine.core ≡ true
  pub tun : w.kernel.tun_up ≡ true → w.engine.tun ≡ true
  pub rules : w.kernel.rules_installed ≡ true → w.engine.firewall ≡ true
  pub dns : w.kernel.dns_steered ≡ true → w.engine.dns ≡ true

-- Nothing is connected, no handle is held, and nothing is left in the system.
pub record IsClean (w : World) : Type 0 where
  pub off : w.engine.connected ≡ false
  pub no_target : (w.engine.profile ≡ none) × (w.engine.group ≡ none) × (w.engine.members ≡ [])
  pub no_handle :
      (w.engine.core ≡ false)
      × (w.engine.tun ≡ false)
      × (w.engine.firewall ≡ false)
      × (w.engine.dns ≡ false)
  pub no_trace :
      (w.kernel.core_running ≡ false)
      × (w.kernel.tun_up ≡ false)
      × (w.kernel.rules_installed ≡ false)
      × (w.kernel.dns_steered ≡ false)

abbrev pub Reverts : Torn → Type 0
Reverts t = (t.dns_reverts ≡ true) × (t.fw_reverts ≡ true)

-- A teardown whose reverts work leaves nothing.
pub teardown-IsClean : (t : Torn) (w : World) → Reverts t → Covered w → IsClean (teardown t w)
unfolding teardown
teardown-IsClean t w r c = ground arith

pub IsClean-Covered : {w : World} → IsClean w → Covered w
IsClean-Covered h = ground arith

-- `m` keeps `P`, whether it fails or not.
abbrev pub Keeps : (World → Type 0) → Run → Type 0
Keeps P m = (w : World) → P w → P (m w).1

-- What follows `m` runs only if `m` did not fail.
pub >>_elim :
    (P : World → Type 0) (m n : Run) (w : World)
    → P (m w).1
    → ((m w).0 ≡ none → P (n (m w).1).1)
    → P ((m >> n) w).1
unfolding ◌>>◌
>>_elim P m n w hm hn = let (r, w') = m w in step r w' hm hn
  where
    step : (r : Option Code) (w' : World) → P w' → (r ≡ none → P (n w').1) → P (continue r n w').1
    step none w' h k = k refl
    step (some c) w' h k = h

pub Keeps->> : (P : World → Type 0) (m n : Run) → Keeps P m → Keeps P n → Keeps P (m >> n)
Keeps->> P m n hm hn w h = >>_elim P m n w (hm w h) (λ _. hn _ (hm w h))

-- If a sequence did not fail, neither part did.
pub >>-eq-none :
    (m n : Run) (w : World)
    → ((m >> n) w).0 ≡ none
    → ((m w).0 ≡ none) × ((n (m w).1).0 ≡ none) × (((m >> n) w).1 ≡ (n (m w).1).1)
unfolding ◌>>◌
>>-eq-none m n w = let (r, w') = m w in step r w'
  where
    step :
        (r : Option Code) (w' : World)
        → (continue r n w').0 ≡ none
        → (r ≡ none) × ((n w').0 ≡ none) × ((continue r n w').1 ≡ (n w').1)
    step none w' h = (refl, h, refl)
    step (some c) w' h = cc

-- The checks change nothing.
pub prepare_pure : (s : Settings) (a : Attempt) (w : World) → (prepare s a w).1 ≡ w
unfolding prepare ◌>>◌
prepare_pure s a w = ground arith

prepare-Covered : (s : Settings) (a : Attempt) → Keeps Covered (prepare s a)
prepare-Covered s a w h = rw (prepare_pure s a w) h

start_core-Covered : (a : Attempt) → Keeps Covered (start_core a)
unfolding start_core ◌>>◌
start_core-Covered a w h = ground arith

start_core-dns :
    (a : Attempt) (w : World) → (start_core a w).0 ≡ none → (start_core a w).1.engine.dns ≡ true
unfolding start_core ◌>>◌
start_core-dns a w h = ground arith

-- Once the core is up, the resolver's handle is held.
record Dressed (w : World) : Type 0 where
  covered : Covered w
  dns : w.engine.dns ≡ true

start_tun-Dressed : (s : Settings) (a : Attempt) → Keeps Dressed (start_tun s a)
unfolding start_tun ◌>>◌
start_tun-Dressed s a w h = ground arith

capture-Dressed : (s : Settings) (a : Attempt) → Keeps Dressed (capture s a)
unfolding capture ◌>>◌
capture-Dressed s a w h = ground arith

steer-Dressed : (s : Settings) (a : Attempt) → Keeps Dressed (steer s a)
unfolding steer ◌>>◌
steer-Dressed s a w h = ground arith

module _ (is_ip : Text → Bool) where
  -- Looking at a pin touches the file and one flag.
  pub look_at_pin_frame :
      (p : Option Profile) (a : Attempt) (w : World)
      → let w' = look_at_pin is_ip p a w in
        (w'.kernel ≡ w.kernel)
        × (w'.engine ≡ record w.engine { pin_accepted = w'.engine.pin_accepted })
  unfolding look_at_pin
  look_at_pin_frame p a w = ground arith

  probe-Dressed : (p : Option Profile) (a : Attempt) → Keeps Dressed (probe is_ip p a)
  unfolding probe
  probe-Dressed p a w h = ground (arith, look_at_pin_frame p a w)

  -- A start in a system that holds nothing the engine has no handle for leaves such a system, however
  -- it ends.
  pub start_locked-Covered :
      (p : Option Profile) (s : Settings) (a : Attempt) (w : World)
      → Covered w
      → Covered (start_locked is_ip p s a w).1
  unfolding start_locked
  start_locked-Covered p s a w h =
      let w1 = (prepare s a w).1 in
      let h1 : Covered w1 = prepare-Covered s a w h in
      >>_elim Covered (prepare s a) _ w h1 λ _.
        >>_elim Covered (start_core a) _ w1 (start_core-Covered a w1 h1) λ up.
          (rest _
            (record { covered = start_core-Covered a w1 h1; dns = start_core-dns a w1 up })).covered
    where
      rest : Keeps Dressed (start_tun s a >> (probe is_ip p a >> (capture s a >> steer s a)))
      rest = Keeps->> Dressed _ _ (start_tun-Dressed s a) (
          Keeps->> Dressed _ _ (probe-Dressed p a)
            (Keeps->> Dressed _ _ (capture-Dressed s a) (steer-Dressed s a)))
