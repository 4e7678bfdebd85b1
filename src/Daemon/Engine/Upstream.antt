-- ===== src/Daemon/Engine/Upstream.antt =====
-- When `UpstreamChanged` rebuilds, and when it cannot notice that it should.
use x_divine_ray.Prelude.{
  [], none, refl, true, ◌≡◌, ◌≢◌, Bool, Text, arith, false, if◌then◌else◌, not, text_eq,
  text_eq_iff, All, List, ap, ◌∙◌, ◌∷◌, sym,
}
use x_divine_ray.Daemon.WanWatch.{
  WanPrint, UpstreamAction, rebuild, ignore, wait, upstream_verdict, upstream_verdict_iff,
  print_eq_iff,
}
use x_divine_ray.Daemon.Engine.{Env, World, on_engine}
use x_divine_ray.Daemon.Engine.Connect.{active_target, Checks, Oracle, connect}
use x_divine_ray.Daemon.Engine.Ops.{act_upstream, upstream_changed, poll_env}

verdict_same : (b : Bool) (p : WanPrint) → upstream_verdict b p p ≡ ignore
unfolding upstream_verdict
verdict_same b p = ground (arith, print_eq_iff p p)

verdict_rebuild :
    (before after : WanPrint)
    → before ≢ after
    → after.gateway ≢ []
    → upstream_verdict true before after ≡ rebuild
verdict_rebuild before after ne g = (upstream_verdict_iff true before after).0.1 (refl, ne, g)

-- An announcement while a target is connected.
announced :
    (k : Checks) (detected : Env) (o : Oracle) (w : World)
    → active_target w.engine ≢ []
    → upstream_changed k detected o w
      ≡ act_upstream k
          (active_target w.engine)
          o
          (upstream_verdict true w.engine.env.print detected.print)
          (on_engine (λ e. record e { env = detected }) w)
unfolding upstream_changed
announced k detected o w t =
    go (text_eq (active_target w.engine) []) (λ e. t ((text_eq_iff _ _).0 e))
  where
    go :
        (b : Bool)
        → b ≢ true
        → act_upstream k
            (active_target w.engine)
            o
            (upstream_verdict
              (not b)
              w.engine.env.print
              (if not b
                then on_engine (λ e. record e { env = detected }) w
                else w).engine.env.print)
            (if not b then on_engine (λ e. record e { env = detected }) w else w)
          ≡ act_upstream k
              (active_target w.engine)
              o
              (upstream_verdict true w.engine.env.print detected.print)
              (on_engine (λ e. record e { env = detected }) w)
    go true h = absurd (h refl)
    go false h = refl

upstream_changed_rebuilds :
    (k : Checks) (detected : Env) (o : Oracle) (w : World)
    → active_target w.engine ≢ []
    → w.engine.env.print ≢ detected.print
    → detected.print.gateway ≢ []
    → upstream_changed k detected o w
      ≡ connect k (active_target w.engine) o (on_engine (λ e. record e { env = detected }) w)
upstream_changed_rebuilds k detected o w t ne g =
    announced k detected o w t
    ∙ ap
        (λ v.
          act_upstream k (active_target w.engine) o v
            (on_engine (λ e. record e { env = detected }) w))
        (verdict_rebuild w.engine.env.print detected.print ne g)

left_alone :
    (k : Checks) (target : Text) (o : Oracle) (v : UpstreamAction) (w : World)
    → v ≢ rebuild
    → act_upstream k target o v w ≡ (none, w)
left_alone k target o ignore w h = refl
left_alone k target o wait w h = refl
left_alone k target o rebuild w h = absurd (h refl)

-- The announcements of the listed networks, one after another.
abbrev pub announce_each : Checks → Oracle → List Env → World → World
announce_each k o [] w = w
announce_each k o (env ∷ envs) w = announce_each k o envs (upstream_changed k env o w).1

abbrev pub seen_last : Env → List Env → Env
seen_last env [] = env
seen_last env (e ∷ es) = seen_last e es

seen_last_lost :
    (env : Env) (envs : List Env)
    → All (λ (e : Env). e.print.gateway ≡ []) (env ∷ envs)
    → (seen_last env envs).print.gateway ≡ []
seen_last_lost env [] g = g.0
seen_last_lost env (e ∷ es) g = seen_last_lost e es g.1

no_rebuild :
    (k : Checks) (lost : Env) (o : Oracle) (w : World)
    → active_target w.engine ≢ []
    → lost.print.gateway ≡ []
    → upstream_changed k lost o w ≡ (none, on_engine (λ e. record e { env = lost }) w)
no_rebuild k lost o w t g =
    announced k lost o w t
    ∙ left_alone k (active_target w.engine) o _ (on_engine (λ e. record e { env = lost }) w)
        (λ r. ((upstream_verdict_iff true w.engine.env.print lost.print).0.0 r).2 g)

announce_lost :
    (k : Checks) (o : Oracle) (w : World) (lost : Env) (more : List Env)
    → active_target w.engine ≢ []
    → All (λ env. env.print.gateway ≡ []) (lost ∷ more)
    → announce_each k o (lost ∷ more) w ≡ on_engine (λ e. record e { env = seen_last lost more }) w
unfolding active_target
announce_lost k o w lost [] t g = ap (λ r. r.1) (no_rebuild k lost o w t g.0)
announce_lost k o w lost (next ∷ more) t g =
    ap (λ r. announce_each k o (next ∷ more) r.1) (no_rebuild k lost o w t g.0)
    ∙ announce_lost k o (on_engine (λ e. record e { env = lost }) w) next more t g.1

-- While a target is connected and the line has lost its gateway, announcements change nothing but
-- the network on record, however many there are; the first one with a gateway is then answered by
-- one `Connect` to that target, made with the network as detected, and this also where the line
-- comes back as it was before the loss.
pub upstream_lost_and_found :
    (k : Checks) (o : Oracle) (w : World) (lost : Env) (more : List Env) (found : Env)
    → active_target w.engine ≢ []
    → All (λ env. env.print.gateway ≡ []) (lost ∷ more)
    → found.print.gateway ≢ []
    → (announce_each k o (lost ∷ more) w
        ≡ on_engine (λ e. record e { env = seen_last lost more }) w)
      × (upstream_changed k found o (announce_each k o (lost ∷ more) w)
          ≡ connect k (active_target w.engine) o (on_engine (λ e. record e { env = found }) w))
unfolding active_target
upstream_lost_and_found k o w lost more found t g h = (
  announce_lost k o w lost more t g,
  ap (upstream_changed k found o) (announce_lost k o w lost more t g)
      ∙ upstream_changed_rebuilds k found o
          (on_engine (λ e. record e { env = seen_last lost more }) w) t
          (λ e. h (ap (λ (p : WanPrint). p.gateway) (sym e) ∙ seen_last_lost lost more g)) h,
)

-- Once the API's look at the network has put the new network on record, an announcement of that
-- same network finds nothing new: it is ignored and nothing is rebuilt, connected or not.
pub upstream_changed_after_poll :
    (k : Checks) (detected : Env) (o : Oracle) (w : World)
    → upstream_changed k detected o (poll_env true detected w) ≡ (none, poll_env true detected w)
unfolding upstream_changed poll_env
upstream_changed_after_poll k detected o w =
    go (active_target v.engine) (not (text_eq (active_target v.engine) []))
  where
    v : World
    v = on_engine (λ e. record e { env = detected }) w

    go :
        (t : Text) (b : Bool)
        → act_upstream k t o
            (upstream_verdict b detected.print (if b then v else v).engine.env.print)
            (if b then v else v)
          ≡ (none, v)
    go t true = rw (verdict_same true detected.print)
    go t false = rw (verdict_same false detected.print)
