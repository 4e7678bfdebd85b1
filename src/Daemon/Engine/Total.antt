-- ===== src/Daemon/Engine/Total.antt =====
-- `Connect` as a whole: in every case one of three states is left.
use x_divine_ray.Prelude.{
  Option, Text, [], if_elim, none, refl, some, true, ◌∷◌, ◌≡◌, ◌≢◌, arith, text_eq_iff,
}
use mathlib.Core.Path.{subst}
use x_divine_ray.Ucicfg.Data.{Data}
use x_divine_ray.Daemon.Engine.{World, Attempt, Torn, Code}
use x_divine_ray.Daemon.Engine.Connect.{
  Target, Resolved, found, refused, should_fall_back, choose_id, Checks, resolve, pass_to,
  connect_pass, Answers, connect_locked, record_error, Oracle, Pass, id_of, target_group,
  target_profile, active_target, fall_back, connect, after_fall_back, after_connect,
}
use x_divine_ray.Daemon.Engine.Covered.{
  Covered, IsClean, Reverts, teardown-IsClean, IsClean-Covered,
}
use x_divine_ray.Daemon.Engine.Result.{
  IsConnected, connect_pass_done, connect_pass-Covered, resolve-id,
}

choose_id_id : (i : Text) (d : Data) → i ≢ [] → choose_id i d ≡ i
choose_id_id [] d h = absurd (h refl)
choose_id_id (c ∷ i) d h = refl

-- Only a pass that had a target is made again.
retry_target :
    (k : Checks) (id : Text) (a : Attempt) (t : Torn) (w : World)
    → (connect_pass k id a t w).1 ≡ true
    → choose_id id w.disk ≢ []
unfolding connect_pass
retry_target k id a t w =
    let i = choose_id id w.disk in
    if_elim (λ (r : Pass). r.1 ≡ true → i ≢ []) a.loads _ _
      (λ _. go i (resolve k w.disk i) (resolve-id k w.disk i)) (λ _ h. cc)
  where
    go :
        (i : Text) (r : Resolved)
        → ((x : Target) → r ≡ found x → (i ≢ []) × (id_of (target_group x) (target_profile x) ≡ i))
        → (pass_to k i a t r w).1 ≡ true
        → i ≢ []
    go i (refused c) q h = cc
    go i (found x) q h = (q x refl).0

abbrev pub AllRevert : Answers → Type 0
AllRevert x = Reverts x.first_torn × Reverts x.again_torn

module _ (k : Checks) (id : Text) (x : Answers) (w : World) where
  connect_locked-Covered : AllRevert x → Covered w → Covered (connect_locked k id x w).1
  unfolding connect_locked
  connect_locked-Covered rv c =
      let c1 = connect_pass-Covered k x.first x.first_torn id w rv.0 c in
      let (r, retry) = connect_pass k id x.first x.first_torn w in
      let i = choose_id id w.disk in
      if_elim (λ (r : Option Code × World). Covered r.1) retry
        (connect_pass k i x.again x.again_torn r.1).0 r
        (λ _. connect_pass-Covered k x.again x.again_torn i r.1 rv.1 c1) (λ _. c1)

  connect_locked_done :
      AllRevert x
      → Covered w
      → (connect_locked k id x w).0 ≡ none
      → IsConnected (choose_id id w.disk) (connect_locked k id x w).1
  unfolding connect_locked
  connect_locked_done rv c =
      let i = choose_id id w.disk in
      let c1 = connect_pass-Covered k x.first x.first_torn id w rv.0 c in
      let (r, retry) = connect_pass k id x.first x.first_torn w in
      let second = connect_pass k i x.again x.again_torn r.1 in
      if_elim (λ (r : Option Code × World). r.0 ≡ none → IsConnected i r.1) retry second.0 r
        (λ more h.
          subst (λ j. IsConnected j second.0.1)
            (choose_id_id i r.1.disk (retry_target k id x.first x.first_torn w more))
            (connect_pass_done k x.again x.again_torn i r.1 rv.1 c1 h))
        (λ _. connect_pass_done k x.first x.first_torn id w rv.0 c)

-- All reverts that one `Connect` makes work.
pub record Undoes (o : Oracle) : Type 0 where
  pub target : AllRevert o.target
  pub target_torn : Reverts o.target_torn
  pub back : AllRevert o.back
  pub back_torn : Reverts o.back_torn

-- The three states that a `Connect` to `id` may leave, by what was connected before.
pub data Left (was id chosen : Text) : Option Code → World → Type 0 where
  connected :
      {w : World} → IsConnected chosen w → w.engine.last_error ≡ none → Left was id chosen none w
  restored :
      {c : Code} {w : World}
      → should_fall_back was id ≡ true
      → IsConnected was w
      → Left was id chosen (some c) w
  nothing : {c : Code} {w : World} → IsClean w → Left was id chosen (some c) w

record_error-Covered : (c : Code) (w : World) → Covered w → Covered (record_error c w)
record_error-Covered c w h = record { core = h.core; tun = h.tun; rules = h.rules; dns = h.dns }

forgive :
    {id : Text} (w : World)
    → IsConnected id w
    → IsConnected id (record w { engine = record w.engine { last_error = none } })
unfolding active_target
forgive w h = record {
  on = h.on;
  target = h.target;
  core = h.core;
  tun = h.tun;
  rules = h.rules;
  dns = h.dns;
  covered = record {
    core = h.covered.core;
    tun = h.covered.tun;
    rules = h.covered.rules;
    dns = h.covered.dns;
  };
}

should_fall_back-ne : (was id : Text) → should_fall_back was id ≡ true → was ≢ []
unfolding should_fall_back
should_fall_back-ne was id h = ground (arith, text_eq_iff was [])

module _ (k : Checks) (was id : Text) (o : Oracle) (u : Undoes o) where
  fall_back-Left :
      (chosen : Text) (c : Code) (w : World)
      → IsClean w
      → Left was id chosen (some c) (fall_back k was id o w)
  unfolding fall_back
  fall_back-Left chosen c w h =
      if_elim (λ (v : World). Left was id chosen (some c) v) (should_fall_back was id)
        (after_fall_back o.back_torn (connect_locked k was o.back w)) w
        (λ back.
          go back (connect_locked k was o.back w).0 (connect_locked k was o.back w).1
            (connect_locked-Covered k was o.back w u.back (IsClean-Covered h))
            (λ e.
              subst (λ j. IsConnected j (connect_locked k was o.back w).1)
                (choose_id_id was w.disk (should_fall_back-ne was id back))
                (connect_locked_done k was o.back w u.back (IsClean-Covered h) e)))
        (λ _. nothing h)
    where
      go :
          should_fall_back was id ≡ true
          → (r : Option Code) (v : World) → Covered v
          → (r ≡ none → IsConnected was v)
          → Left was id chosen (some c) (after_fall_back o.back_torn (r, v))
      go back none v cv up = restored back (up refl)
      go back (some f) v cv up =
          nothing (teardown-IsClean o.back_torn _ u.back_torn (record_error-Covered f v cv))

-- Where every revert works and nothing is left in the system but what the engine holds, `Connect`
-- ends in one of three states. Without an error, the target that was asked for (or the selection
-- of the file) is connected, with everything its modes need in the system and nothing else. With
-- an error, either the connection that stood before is up again, which happens only if there was
-- one and another was asked for, or nothing is connected and nothing at all is left in the system.
pub connect-Left :
    (k : Checks) (id : Text) (o : Oracle) (w : World)
    → Undoes o
    → Covered w
    → let (r, w') = connect k id o w in Left (active_target w.engine) id (choose_id id w.disk) r w'
unfolding connect
connect-Left k id o w u c =
    go (connect_locked k id o.target w).0 (connect_locked k id o.target w).1
      (connect_locked-Covered k id o.target w u.target c)
      (connect_locked_done k id o.target w u.target c)
  where
    was : Text
    was = active_target w.engine

    chosen : Text
    chosen = choose_id id w.disk

    go :
        (r : Option Code) (v : World)
        → Covered v
        → (r ≡ none → IsConnected chosen v)
        → Left was id chosen (after_connect k was id o (r, v)).0 (after_connect k was id o (r, v)).1
    go none v cv up = connected (forgive v (up refl)) refl
    go (some f) v cv up =
        fall_back-Left k was id o u chosen f _
          (teardown-IsClean o.target_torn _ u.target_torn (record_error-Covered f v cv))
