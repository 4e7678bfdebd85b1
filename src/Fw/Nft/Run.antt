-- ===== src/Fw/Nft/Run.antt =====
-- What the kernel does with a packet of a new connection under a table of nftables rules, as nft(8)
-- documents it: the chains of a hook run by priority, in each the rules run from the top, and a rule
-- that returns or gives a verdict ends its chain.
use x_divine_ray.Prelude.{
  Bool, List, any_of, false, if◌then◌else◌, not, true, ℕ, ◌&&◌, ◌==◌, ◌∷◌, [], text_eq,
}
use x_divine_ray.Fw.Packet.{Packet, proto_eq, Hook, hook_eq, Fate, refused, redirected, tproxied}
use x_divine_ray.Fw.Nft.{
  Match, iif_not_in, iif_is, mac_bypassed, dst_bypassed, l4, dport, marked, own_socket, Action,
  return_it, reject_it, redirect_to, mark_set, mark_accept, tproxy_to, Rule, Chain, Table, Priority,
  at_mangle, before_nat, before_filter,
}

unfoldable pub matches : Table → Packet → ℕ → Match → Bool
matches t k m (iif_not_in ds) = not (any_of (text_eq k.iif) ds)
matches t k m (iif_is d) = text_eq k.iif d
matches t k m mac_bypassed = any_of k.mac_is t.macs
matches t k m dst_bypassed = any_of k.dst_in t.bypass
matches t k m (l4 p) = proto_eq k.proto p
matches t k m (dport p n) = proto_eq k.proto p && (k.dport == n)
matches t k m (marked n) = m == n
matches t k m (own_socket p) = proto_eq k.proto p && k.transparent

-- Whether the next rule is asked, and the packet's fate so far.
abbrev pub act : Action → Fate → Bool × Fate
act return_it f = (false, f)
act reject_it f = (false, record { mark = f.mark; delivery = refused })
act (redirect_to n) f = (false, record { mark = f.mark; delivery = redirected n })
act (mark_set m) f = (true, record { mark = m; delivery = f.delivery })
act (mark_accept m) f = (false, record { mark = m; delivery = f.delivery })
act (tproxy_to n m) f = (false, record { mark = m; delivery = tproxied n })

unfoldable pub run_rules : Table → Packet → List Rule → Fate → Fate
run_rules t k [] f = f
run_rules t k (r ∷ rs) f =
    let here : Bool × Fate = if matches t k f.mark r.on then act r.action f else (true, f) in
    let rest : Fate = run_rules t k rs here.1 in if here.0 then rest else here.1

abbrev same_priority : Priority → Priority → Bool
same_priority at_mangle at_mangle = true
same_priority before_nat before_nat = true
same_priority before_filter before_filter = true
same_priority _ _ = false

unfoldable pub run_at : Table → Packet → Hook → Priority → List Chain → Fate → Fate
run_at t k h p [] f = f
run_at t k h p (c ∷ cs) f =
    run_at t k h p cs
      (if hook_eq c.hook h && same_priority c.priority p then run_rules t k c.rules f else f)

unfoldable pub run_hook : Table → Packet → Hook → Fate → Fate
run_hook t k h f =
    run_at t k h before_filter t.chains
      (run_at t k h before_nat t.chains (run_at t k h at_mangle t.chains f))
