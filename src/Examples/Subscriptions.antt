-- ===== src/Examples/Subscriptions.antt =====
-- A refreshed subscription, and a group with a member that is gone.
use x_divine_ray.Prelude.{
  Text, [], all_of, codes, keep_if, length, map, not, refl, text_eq, true, ℕ, ◌++◌, ◌+◌, ◌∷◌, ◌≡◌,
  All,
}
use x_divine_ray.Model.Strategy
use x_divine_ray.Model.Strategy.{Group}
use x_divine_ray.Model.Profile.{Profile}
use x_divine_ray.Model.Subscription.{merge_subscription, is_mine, same_server, prune_members}
use x_divine_ray.Model.Subscription.Refresh.{
  relisted, is_pair, stored_of, listed_of, merge_subscription-pairs,
}
use x_divine_ray.Ucicfg.Data.{group_members}
use x_divine_ray.Ucicfg.Data.Pruned.{ids_of, prune_members-group_members}
use x_divine_ray.Examples.Samples.{home, away, disk}

abbrev feed : Text
feed = codes "feed"

abbrev stored : Profile
stored = record away { subscription = feed; pinned_cert = codes "aa" }

abbrev listed : Profile
listed = record away { id = []; name = codes "new name" }

abbrev number : ℕ → Text
number n = (48 + n) ∷ []

stored-is_mine :
    keep_if (is_mine feed number) (home ∷ stored ∷ []) ≡ stored_of ((stored, listed) ∷ [])
unfolding codes text_eq
stored-is_mine = refl

listed-is_pair : all_of is_pair ((stored, listed) ∷ []) ≡ true
unfolding codes text_eq same_server
listed-is_pair = refl

merge_subscription-pairs_example :
    merge_subscription feed number (home ∷ stored ∷ []) (listed_of ((stored, listed) ∷ []))
    ≡ keep_if (λ p. not (is_mine feed number p)) (home ∷ stored ∷ [])
      ++ map (relisted feed) ((stored, listed) ∷ [])
merge_subscription-pairs_example =
    merge_subscription-pairs feed number (home ∷ stored ∷ []) ((stored, listed) ∷ []) stored-is_mine
      listed-is_pair

abbrev pair : Group
pair = record {
  id = codes "pair";
  name = [];
  strategy = Strategy.balance;
  members = codes "home" ∷ codes "gone" ∷ [];
  probe_url = [];
  probe_interval = [];
}

abbrev alone : Group
alone = record pair { id = codes "alone"; members = codes "gone" ∷ [] }

prune_members-group_members_example :
    (prune_members (pair ∷ alone ∷ []) disk.profiles
      ≡ map {A = Group}
          (λ g. record g { members = ids_of (group_members disk g) })
          (pair ∷ alone ∷ []))
    × (map (group_members disk) (prune_members (pair ∷ alone ∷ []) disk.profiles)
        ≡ map (group_members disk) (pair ∷ alone ∷ []))
    × All
        (λ g. length (group_members disk g) ≡ length g.members)
        (prune_members (pair ∷ alone ∷ []) disk.profiles)
prune_members-group_members_example = prune_members-group_members disk (pair ∷ alone ∷ [])
