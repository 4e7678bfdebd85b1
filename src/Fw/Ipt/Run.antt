-- ===== src/Fw/Ipt/Run.antt =====
-- What the kernel does with a packet of a new connection under the rules that a list of iptables
-- commands leaves in empty chains, as iptables(8) documents it: a hook asks mangle, then nat, then
-- filter; a table's jumps are tried from the top, and the last one inserted stands at the top.
use x_divine_ray.Prelude.{
  Bool, List, false, if◌then◌else◌, not, true, ℕ, ◌&&◌, ◌==◌, ◌∷◌, [], text_eq, ◌++◌,
}
use x_divine_ray.Fw.Packet.{Packet, proto_eq, Hook, hook_eq, Fate, refused, redirected, tproxied}
use x_divine_ray.Fw.Ipt.{
  TableName, nat, mangle, filter, ChainName, chain_pre, chain_mark, chain_out, chain_quic, IptMatch,
  mac_source, dst_cidr, l4, dport, marked, Target, return_it, reject_it, redirect_to, mark_set,
  tproxy_to, IptRule, Device, only, but, any_device, Command, create, append, insert,
}

abbrev pub table_eq : TableName → TableName → Bool
table_eq nat nat = true
table_eq mangle mangle = true
table_eq filter filter = true
table_eq _ _ = false

abbrev pub chain_eq : ChainName → ChainName → Bool
chain_eq chain_pre chain_pre = true
chain_eq chain_mark chain_mark = true
chain_eq chain_out chain_out = true
chain_eq chain_quic chain_quic = true
chain_eq _ _ = false

pub record Jump : Type 0 where
  pub device : Device
  pub chain : ChainName

-- The rules of a chain, and the jumps at a hook of a table.
unfoldable pub rules_of : TableName → ChainName → List Command → List IptRule
rules_of t c [] = []
rules_of t c (create _ _ ∷ cs) = rules_of t c cs
rules_of t c (append t' c' m a ∷ cs) =
    let rest : List IptRule = rules_of t c cs in
    if table_eq t' t && chain_eq c' c then record { on = m; target = a } ∷ rest else rest
rules_of t c (insert _ _ _ _ ∷ cs) = rules_of t c cs

unfoldable pub jumps_of : TableName → Hook → List Command → List Jump
jumps_of t h [] = []
jumps_of t h (create _ _ ∷ cs) = jumps_of t h cs
jumps_of t h (append _ _ _ _ ∷ cs) = jumps_of t h cs
jumps_of t h (insert t' h' d c ∷ cs) =
    let rest : List Jump = jumps_of t h cs in
    if table_eq t' t && hook_eq h' h then rest ++ record { device = d; chain = c } ∷ [] else rest

unfoldable pub matches : Packet → ℕ → IptMatch → Bool
matches k m (mac_source t) = k.mac_is t
matches k m (dst_cidr t) = k.dst_in t
matches k m (l4 p) = proto_eq k.proto p
matches k m (dport p n) = proto_eq k.proto p && (k.dport == n)
matches k m (marked n) = m == n

abbrev pub device_matches : Packet → Device → Bool
device_matches k (only d) = text_eq k.iif d
device_matches k (but d) = not (text_eq k.iif d)
device_matches k any_device = true

-- What a target does: whether the chain goes on, whether the table goes on, and the fate so far.
abbrev pub act : Target → Fate → Bool × (Bool × Fate)
act return_it f = (false, (true, f))
act reject_it f = (false, (false, record { mark = f.mark; delivery = refused }))
act (redirect_to n) f = (false, (false, record { mark = f.mark; delivery = redirected n }))
act (mark_set m) f = (true, (true, record { mark = m; delivery = f.delivery }))
act (tproxy_to n m) f = (false, (false, record { mark = m; delivery = tproxied n }))

-- Whether the table goes on after the chain, and the fate so far.
unfoldable pub run_chain : Packet → List IptRule → Fate → Bool × Fate
run_chain k [] f = (true, f)
run_chain k (r ∷ rs) f =
    let here : Bool × (Bool × Fate) =
      if matches k f.mark r.on then act r.target f else (true, (true, f)) in
    let rest : Bool × Fate = run_chain k rs here.1.1 in if here.0 then rest else here.1

abbrev pub then_run : Bool × Fate → (Fate → Bool × Fate) → Bool × Fate
then_run r g = if r.0 then g r.1 else r

unfoldable pub run_jumps :
    Packet → (ChainName → Fate → Bool × Fate) → List Jump → Fate → Bool × Fate
run_jumps k run [] f = (true, f)
run_jumps k run (j ∷ js) f =
    then_run (if device_matches k j.device then run j.chain f else (true, f)) (run_jumps k run js)

unfoldable pub run_table : List Command → Packet → Hook → TableName → Fate → Fate
run_table cs k h t f = (run_jumps k (λ c. run_chain k (rules_of t c cs)) (jumps_of t h cs) f).1

unfoldable pub run_hook : List Command → Packet → Hook → Fate → Fate
run_hook cs k h f = run_table cs k h filter (run_table cs k h nat (run_table cs k h mangle f))
