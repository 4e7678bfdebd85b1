-- ===== src/Model/Subscription.antt =====
-- What a refreshed subscription does to the stored profiles (internal/model/model.go): `SameServer`,
-- `MergeSubscription` and `PruneMembers`. The source of new ids is the parameter `new_id`, by the
-- number of the call.
pub mod Refresh
use x_divine_ray.Prelude.{
  Bool, List, Option, Text, [], any_of, false, if◌then◌else◌, keep_if, map, none, not, some,
  text_eq, true, ℕ, ◌&&◌, ◌++◌, ◌+◌, ◌==◌, ◌||◌, ◌∷◌,
}
use x_divine_ray.Model.Int.{ℤ, pos, negsuc}
use x_divine_ray.Model.Strategy.{Group}
use x_divine_ray.Model.Profile.{Profile, Proto, vless, vmess, trojan, shadowsocks, other, is_empty}

abbrev pub proto_eq : Proto → Proto → Bool
proto_eq vless vless = true
proto_eq vmess vmess = true
proto_eq trojan trojan = true
proto_eq shadowsocks shadowsocks = true
proto_eq (other s) (other t) = text_eq s t
proto_eq _ _ = false

abbrev pub int_eq : ℤ → ℤ → Bool
int_eq (pos a) (pos b) = a == b
int_eq (negsuc a) (negsuc b) = a == b
int_eq _ _ = false

unfoldable pub same_server : Profile → Profile → Bool
same_server a b =
    proto_eq a.proto b.proto
    && text_eq a.address b.address
    && int_eq a.port b.port
    && text_eq a.uuid b.uuid
    && text_eq a.password b.password
    && text_eq a.path b.path
    && text_eq a.sni b.sni

-- A stored profile of the subscription, and whether it has been used.
abbrev pub Slot : Type 0
Slot = Profile × Bool

abbrev pub kept_slot : Slot → Option Profile × List Slot → Option Profile × List Slot
kept_slot s (found, slots) = (found, s ∷ slots)

-- The inner loop: the first profile that is not used and is the same server; it is used then.
unfoldable pub claim : Profile → List Slot → Option Profile × List Slot
claim p [] = (none, [])
claim p ((m, used) ∷ slots) =
    let rest : Option Profile × List Slot = claim p slots in
    if used || not (same_server m p) then kept_slot (m, used) rest else (some m, (m, true) ∷ slots)

-- The id and, where the listing has none, the pinned certificate of the stored profile.
abbrev pub inherit : Profile → Option Profile → Profile
inherit p none = p
inherit p (some m) = record p {
  id = m.id;
  pinned_cert = if is_empty p.pinned_cert then m.pinned_cert else p.pinned_cert;
}

module _ (sub : Text) (new_id : ℕ → Text) where
  -- The outer loop, from the nth call of `new_id` on.
  unfoldable pub merge_fetched : ℕ → List Slot → List Profile → List Profile
  merge_fetched n slots [] = []
  merge_fetched n slots (f ∷ fs) =
      let (found, slots') = claim (record f { subscription = sub }) slots in
      let p : Profile = inherit (record f { subscription = sub }) found in
      let named : List Profile = merge_fetched n slots' fs in
      let unnamed : List Profile = merge_fetched (n + 1) slots' fs in
      if is_empty p.id then record p { id = new_id n } ∷ unnamed else p ∷ named

  abbrev pub is_mine : Profile → Bool
  is_mine p = text_eq p.subscription sub

  unfoldable pub merge_subscription : List Profile → List Profile → List Profile
  merge_subscription stored fetched =
      keep_if (λ p. not (is_mine p)) stored
      ++ merge_fetched 0 (map (λ m. (m, false)) (keep_if is_mine stored)) fetched

unfoldable pub is_alive : List Profile → Text → Bool
is_alive profiles id = any_of (λ p. text_eq p.id id) profiles

unfoldable pub prune_members : List Group → List Profile → List Group
prune_members groups profiles =
    map {A = Group} (λ g. record g { members = keep_if (is_alive profiles) g.members }) groups
