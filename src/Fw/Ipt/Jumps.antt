-- ===== src/Fw/Ipt/Jumps.antt =====
-- The jumps that `hook` inserts, one for every device that clients are behind.
use x_divine_ray.Prelude.{
  Bool, List, Text, [], any_of, false, if◌then◌else◌, map, refl, text_eq, true, ◌∷◌, ◌≡◌, ◌++◌, ap,
  ◌∙◌,
}
use x_divine_ray.Fw.{Plan}
use x_divine_ray.Fw.Packet.{Packet, Hook, prerouting, forward, output, Fate, hook_eq}
use x_divine_ray.Fw.Meaning.{from_client}
use x_divine_ray.Fw.Ipt.{
  TableName, nat, mangle, filter, ChainName, Device, only, but, any_device, insert, hook_to, hook,
}
use x_divine_ray.Fw.Ipt.Run.{Jump, jumps_of, run_jumps, then_run, table_eq, device_matches}

-- A chain that was passed leaves nothing more to do to a second pass.
abbrev pub Settles : (Fate → Bool × Fate) → Type 0
Settles r = (f : Fate) → (r f).0 ≡ true → r (r f).1 ≡ r f

then_run_assoc :
    (r : Bool × Fate) (g h both : Fate → Bool × Fate)
    → ((f : Fate) → both f ≡ then_run (g f) h)
    → then_run r both ≡ then_run (then_run r g) h
then_run_assoc (true, f) g h both e = e f
then_run_assoc (false, f) g h both e = refl

then_run_unit : (r : Bool × Fate) → then_run r (λ f. (true, f)) ≡ r
then_run_unit (true, f) = refl
then_run_unit (false, f) = refl

then_run_ext :
    (r : Bool × Fate) (g h : Fate → Bool × Fate)
    → ((f : Fate) → g f ≡ h f)
    → then_run r g ≡ then_run r h
then_run_ext (true, f) g h e = e f
then_run_ext (false, f) g h e = refl

pub table_eq_refl : (t : TableName) → table_eq t t ≡ true
table_eq_refl nat = refl
table_eq_refl mangle = refl
table_eq_refl filter = refl

pub hook_eq_refl : (h : Hook) → hook_eq h h ≡ true
hook_eq_refl prerouting = refl
hook_eq_refl forward = refl
hook_eq_refl output = refl

module _ (k : Packet) (run : ChainName → Fate → Bool × Fate) where
  run_jumps-++ :
      (xs ys : List Jump) (f : Fate)
      → run_jumps k run (xs ++ ys) f ≡ then_run (run_jumps k run xs f) (run_jumps k run ys)
  unfolding run_jumps
  run_jumps-++ [] ys f = refl
  run_jumps-++ (x ∷ xs) ys f =
      then_run_assoc (if device_matches k x.device then run x.chain f else (true, f))
        (run_jumps k run xs) (run_jumps k run ys) (run_jumps k run (xs ++ ys)) (run_jumps-++ xs ys)

  module _ (c : ChainName) (s : Settles (run c)) where
    abbrev once : Bool → Fate → Bool × Fate
    once b f = if b then run c f else (true, f)

    again : (d : Bool) (r : Bool × Fate) → (r.0 ≡ true → run c r.1 ≡ r) → then_run r (once d) ≡ r
    again true (true, f) e = e refl
    again false (true, f) e = refl
    again d (false, f) e = refl

    once_twice :
        (b d : Bool) (f : Fate) → then_run (once b f) (once d) ≡ once (if d then true else b) f
    once_twice true true f = again true (run c f) (s f)
    once_twice true false f = again false (run c f) (s f)
    once_twice false true f = refl
    once_twice false false f = refl

    run_jumps-one :
        (d : Device) (f : Fate)
        → run_jumps k run (record { device = d; chain = c } ∷ []) f ≡ once (device_matches k d) f
    unfolding run_jumps
    run_jumps-one d f = then_run_unit (once (device_matches k d) f)

    run_jumps-only :
        (t : TableName) (h : Hook) (ds : List Text) (f : Fate)
        → run_jumps k run (jumps_of t h (map (λ dev. insert t h (only dev) c) ds)) f
          ≡ once (any_of (text_eq k.iif) ds) f
    unfolding run_jumps jumps_of
    run_jumps-only t h [] f = refl
    run_jumps-only t h (d ∷ ds) f =
        rw (table_eq_refl t, hook_eq_refl h)
          (run_jumps-++ (jumps_of t h (map (λ dev. insert t h (only dev) c) ds))
              (record { device = only d; chain = c } ∷ []) f
            ∙ (ap (λ r. then_run r (run_jumps k run (record { device = only d; chain = c } ∷ [])))
                  (run_jumps-only t h ds f)
                ∙ (then_run_ext (once (any_of (text_eq k.iif) ds) f)
                      (run_jumps k run (record { device = only d; chain = c } ∷ []))
                      (once (text_eq k.iif d)) (run_jumps-one (only d))
                    ∙ once_twice (any_of (text_eq k.iif) ds) (text_eq k.iif d) f)))

    -- The jumps of one chain reach it exactly for the clients' traffic.
    pub run_jumps-hook :
        (t : TableName) (h : Hook) (p : Plan) (f : Fate)
        → run_jumps k run (jumps_of t h (hook t h c p)) f
          ≡ once (from_client p.lan_devices p.wan_device k.iif) f
    unfolding hook jumps_of
    run_jumps-hook t h p f = go p.lan_devices p.wan_device
      where
        go :
            (ds : List Text) (wan : Text)
            → run_jumps k run (jumps_of t h (hook_to ds wan t h c)) f
              ≡ once (from_client ds wan k.iif) f
        go (d ∷ ds) wan = run_jumps-only t h (d ∷ ds) f
        go [] (x ∷ wan) = rw (table_eq_refl t, hook_eq_refl h) (run_jumps-one (but (x ∷ wan)) f)
        go [] [] = rw (table_eq_refl t, hook_eq_refl h) (run_jumps-one any_device f)
