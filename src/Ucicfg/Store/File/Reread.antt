-- ===== src/Ucicfg/Store/File/Reread.antt =====
-- What a section that was built is read back as, and that a configuration is read from it all the same.
use x_divine_ray.Prelude.{
  All, Bool-cases, List, Text, [], ap, codes, inl, inr, map, refl, text_eq, ◌++◌, ◌∷◌, ◌≡◌,
}
use x_divine_ray.Ucicfg.Syntax.{Section, get, list, or_empty, or_none}
use x_divine_ray.Ucicfg.Print.{sections_lines, package_lines}
use x_divine_ray.Ucicfg.Print.RoundTrip.{section_named}
use x_divine_ray.Ucicfg.Print.Settled.{
  settled, IsBuilt, lookup-lists_settled, lookup-options_settled, section_lines-settled,
}
use x_divine_ray.Ucicfg.Text.{print, to_text}
use x_divine_ray.Ucicfg.Store.{load_profile, load_group, load_rule, load_sub}
use x_divine_ray.Ucicfg.Store.Main.{load_main, read_main}
use x_divine_ray.Ucicfg.Store.Whole.{find, of_type, load, load_settings}

-- The section as it is read back.
unfoldable pub reread : Section → Section
reread s = section_named (settled s)

module _ (s : Section) (b : IsBuilt s) where
  get-reread : (k : Text) → get (reread s) k ≡ get s k
  unfolding get reread
  get-reread k = ap or_empty (lookup-options_settled s b k)

  list-reread : (k : Text) → list (reread s) k ≡ list s k
  unfolding list reread
  list-reread k = ap or_none (lookup-lists_settled s b k)

  name-reread : (reread s).name ≡ s.name
  unfolding reread
  name-reread = refl

  ruleset read = (get-reread, list-reread, name-reread)

  load_profile-reread : load_profile (reread s) ≡ load_profile s
  unfolding load_profile
  load_profile-reread = simp read refl

  load_group-reread : load_group (reread s) ≡ load_group s
  unfolding load_group
  load_group-reread = simp read refl

  load_rule-reread : load_rule (reread s) ≡ load_rule s
  unfolding load_rule
  load_rule-reread = simp read refl

  load_sub-reread : load_sub (reread s) ≡ load_sub s
  unfolding load_sub
  load_sub-reread = simp read refl

  load_main-reread : load_main (reread s) ≡ load_main s
  unfolding load_main read_main
  load_main-reread = simp read refl

find-reread :
    (n : Text) (ss : List Section)
    → All IsBuilt ss
    → load_settings (find n (map reread ss)) ≡ load_settings (find n ss)
unfolding find reread
find-reread n [] b = refl
find-reread n (s ∷ ss) b = elim (Bool-cases (text_eq s.name n)) [
  | inl here ↦ rw (name-reread s b.0) (rw here (load_main-reread s b.0))
  | inr other ↦ rw (name-reread s b.0) (rw other (find-reread n ss b.1))
]

type_name-reread : (s : Section) → (reread s).type_name ≡ s.type_name
unfolding reread
type_name-reread s = refl

of_type-reread :
    {A : Type 0} (t : Text) (reader : Section → A) (ss : List Section)
    → ((s : Section) → IsBuilt s → reader (reread s) ≡ reader s)
    → All IsBuilt ss
    → map reader (of_type t (map reread ss)) ≡ map reader (of_type t ss)
unfolding of_type reread
of_type-reread t reader [] same b = refl
of_type-reread t reader (s ∷ ss) same b = elim (Bool-cases (text_eq s.type_name t)) [
  | inl here ↦
      rw (type_name-reread s)
        (rw here (rw (same s b.0) (ap (λ l. reader s ∷ l) (of_type-reread t reader ss same b.1))))
  | inr other ↦ rw (type_name-reread s) (rw other (of_type-reread t reader ss same b.1))
]

pub load-reread :
    (name : Text) (ss : List Section)
    → All IsBuilt ss
    → load (record { name = name; sections = map reread ss })
      ≡ load (record { name = name; sections = ss })
unfolding load
load-reread name ss b i = record {
  settings = find-reread (codes "main") ss b i;
  profiles = of_type-reread (codes "profile") load_profile ss load_profile-reread b i;
  groups = of_type-reread (codes "group") load_group ss load_group-reread b i;
  rules = of_type-reread (codes "rule") load_rule ss load_rule-reread b i;
  subscriptions = of_type-reread (codes "subscription") load_sub ss load_sub-reread b i;
}

sections_lines-reread :
    (ss : List Section) → All IsBuilt ss → sections_lines ss ≡ sections_lines (map reread ss)
unfolding reread
sections_lines-reread [] b = refl
sections_lines-reread (s ∷ ss) b =
    rw (section_lines-settled s b.0) (rw (sections_lines-reread ss b.1) refl)

pub print-reread :
    (name : Text) (ss : List Section)
    → All IsBuilt ss
    → print (record { name = name; sections = ss })
      ≡ print (record { name = name; sections = map reread ss })
unfolding print package_lines
print-reread name ss b =
    ap (λ ls. to_text ((codes "package " ++ name) ∷ [] ∷ ls)) (sections_lines-reread ss b)
