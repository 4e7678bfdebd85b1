-- ===== src/Fw/Ipt/Tables.antt =====
-- What a table does with a packet, by the one chain that it reaches or none.
use x_divine_ray.Prelude.{
  Bool, map, ℕ, ◌==◌, Text, ◌∷◌, List, [], any_of, if◌then◌else◌, refl, true, false, ◌≡◌, ◌++◌, not,
  ◌&&◌,
}
use x_divine_ray.Fw.{Plan, all_bypass}
use x_divine_ray.Fw.Packet.{Packet, Fate, Hook, prerouting, output}
use x_divine_ray.Fw.Meaning.{from_client, in_scope}
use x_divine_ray.Fw.Ipt.{
  any_device, chain_out, marked, return_it, dst_cidr, TableName, nat, mangle, filter, ChainName,
  IptRule, Command,
}
use x_divine_ray.Fw.Ipt.Run.{
  rules_of, jumps_of, run_jumps, run_chain, run_table, run_hook, then_run, matches,
}
use x_divine_ray.Fw.Ipt.Jumps.{Settles, run_jumps-hook}
use x_divine_ray.Fw.Ipt.Guards.{
  guards, run_chain-guards, guards-Settles, rule, run_chain_return, run_chain-cidrs,
}
use x_divine_ray.Fw.Ipt.Installed.{device_jumps}

pub run_jumps-device_jumps :
    (k : Packet) (run : ChainName → Fate → Bool × Fate) (c : ChainName) (p : Plan) (f : Fate)
    → Settles (run c)
    → run_jumps k run (device_jumps c p) f
      ≡ (if from_client p.lan_devices p.wan_device k.iif then run c f else (true, f))
unfolding device_jumps
run_jumps-device_jumps k run c p f s = run_jumps-hook k run c s nat prerouting p f

-- A table with nothing at the hook.
pub run_table-none :
    (cs : List Command) (k : Packet) (h : Hook) (t : TableName) (f : Fate)
    → jumps_of t h cs ≡ []
    → run_table cs k h t f ≡ f
unfolding run_table run_jumps
run_table-none cs k h t f e = rw (run_table, e) refl

inside :
    (a b c : Bool) (r : Bool × Fate) (f : Fate)
    → (if a then (if (if b then true else c) then (true, f) else r) else (true, f)).1
      ≡ (if a && (not b && not c) then r.1 else f)
inside false b c r f = refl
inside true true c r f = refl
inside true false true r f = refl
inside true false false r f = refl

-- A table with one chain there, behind the guards.
pub run_table-one :
    (cs : List Command) (k : Packet) (h : Hook) (t : TableName) (f : Fate) (c : ChainName)
    (p : Plan) (rs : List IptRule)
    → jumps_of t h cs ≡ device_jumps c p
    → rules_of t c cs ≡ guards p.bypass_macs (all_bypass p) ++ rs
    → Settles (run_chain k rs)
    → run_table cs k h t f ≡ (if in_scope p k then (run_chain k rs f).1 else f)
unfolding run_table in_scope
run_table-one cs k h t f c p rs ej er s =
    rw
      (
        run_table,
        ej,
        run_jumps-device_jumps k (λ x. run_chain k (rules_of t x cs)) c p f
            (rw er (guards-Settles k p.bypass_macs (all_bypass p) rs s)),
        er,
        run_chain-guards,
      )
      (inside (from_client p.lan_devices p.wan_device k.iif) (any_of k.mac_is p.bypass_macs)
        (any_of k.dst_in (all_bypass p)) (run_chain k rs f) f)

module _ (cs : List Command) (k : Packet) (h : Hook) (f : Fate) where
  pub run_hook-none :
      jumps_of mangle h cs ≡ []
      → jumps_of nat h cs ≡ []
      → jumps_of filter h cs ≡ []
      → run_hook cs k h f ≡ f
  unfolding run_hook
  run_hook-none em en ef =
      rw (run_table-none cs k h mangle f em, run_table-none cs k h nat f en)
        (run_table-none cs k h filter f ef)

  module _ (c : ChainName) (p : Plan) (rs : List IptRule) (s : Settles (run_chain k rs)) where
    pub run_hook-nat :
        jumps_of mangle h cs ≡ []
        → jumps_of nat h cs ≡ device_jumps c p
        → jumps_of filter h cs ≡ []
        → rules_of nat c cs ≡ guards p.bypass_macs (all_bypass p) ++ rs
        → run_hook cs k h f ≡ (if in_scope p k then (run_chain k rs f).1 else f)
    unfolding run_hook
    run_hook-nat em en ef er =
        rw (run_table-none cs k h mangle f em, run_table-one cs k h nat f c p rs en er s)
          (run_table-none cs k h filter _ ef)

    pub run_hook-mangle :
        jumps_of mangle h cs ≡ device_jumps c p
        → jumps_of nat h cs ≡ []
        → jumps_of filter h cs ≡ []
        → rules_of mangle c cs ≡ guards p.bypass_macs (all_bypass p) ++ rs
        → run_hook cs k h f ≡ (if in_scope p k then (run_chain k rs f).1 else f)
    unfolding run_hook
    run_hook-mangle em en ef er =
        rw (run_table-one cs k h mangle f c p rs em er s, run_table-none cs k h nat _ en)
          (run_table-none cs k h filter _ ef)

    pub run_hook-filter :
        jumps_of mangle h cs ≡ []
        → jumps_of nat h cs ≡ []
        → jumps_of filter h cs ≡ device_jumps c p
        → rules_of filter c cs ≡ guards p.bypass_macs (all_bypass p) ++ rs
        → run_hook cs k h f ≡ (if in_scope p k then (run_chain k rs f).1 else f)
    unfolding run_hook
    run_hook-filter em en ef er =
        rw (run_table-none cs k h mangle f em, run_table-none cs k h nat f en)
          (run_table-one cs k h filter f c p rs ef er s)

-- The router's own traffic meets one chain, whatever device it leaves by.
pub run_table-own :
    (cs : List Command) (k : Packet) (t : TableName) (f : Fate) (n : ℕ) (cidrs : List Text)
    (rs : List IptRule)
    → jumps_of t output cs ≡ record { device = any_device; chain = chain_out } ∷ []
    → rules_of t chain_out cs
      ≡ rule (marked n) return_it ∷ (map (λ cidr. rule (dst_cidr cidr) return_it) cidrs ++ rs)
    → run_table cs k output t f
      ≡ (if not (f.mark == n) && not (any_of k.dst_in cidrs) then (run_chain k rs f).1 else f)
unfolding run_table run_jumps matches
run_table-own cs k t f n cidrs rs ej er =
    rw (run_table, ej, er, run_chain_return, run_chain-cidrs)
      (own (f.mark == n) (any_of k.dst_in cidrs) (run_chain k rs f))
  where
    own :
        (a b : Bool) (r : Bool × Fate)
        → (then_run (if a then (true, f) else (if b then (true, f) else r)) (λ g. (true, g))).1
          ≡ (if not a && not b then r.1 else f)
    own true b r = refl
    own false true r = refl
    own false false (true, g) = refl
    own false false (false, g) = refl
