-- ===== src/Ucicfg/Store/File/Kept.antt =====
-- The configuration that was written to its file is the one that is read from it.
use x_divine_ray.Prelude.{
  All, All-append, Bool, List, Text, [], all_of, all_of-append, ap, arith, codes, map, refl, some,
  sym, true, ℕ, ◌&&◌, ◌++◌, ◌∙◌, ◌∷◌, ◌≡◌,
}
use x_divine_ray.Model.Profile.{Profile}
use x_divine_ray.Model.Strategy.{Group}
use x_divine_ray.Model.Rule.{Rule, Subscription}
use x_divine_ray.Prelude.Trim.{is_space}
use x_divine_ray.Ucicfg.Data.{Data}
use x_divine_ray.Ucicfg.Token.Quoted.{is_word, no_apostrophe}
use x_divine_ray.Ucicfg.Syntax.{Section}
use x_divine_ray.Ucicfg.Print.{keys}
use x_divine_ray.Ucicfg.Print.Items.{unique}
use x_divine_ray.Ucicfg.Print.ReadItems.{is_item}
use x_divine_ray.Ucicfg.Print.RoundTrip.{section_named, is_named, non_empty}
use x_divine_ray.Ucicfg.Print.Sorted.{
  sort_entries, all_of-sort_entries, keys-sort_entries, all_of-sort,
}
use x_divine_ray.Ucicfg.Print.Settled.{
  settled, settled_items, option_items, list_items, IsBuilt, unique_settled,
}
use x_divine_ray.Ucicfg.Text.{parse, print}
use x_divine_ray.Ucicfg.Text.Split.{no_lf}
use x_divine_ray.Ucicfg.Text.Split.Clean.{is_single, is_plain, parse-print}
use x_divine_ray.Ucicfg.Store.{save_profile, save_group, save_rule, save_sub}
use x_divine_ray.Ucicfg.Store.Main.{save_main}
use x_divine_ray.Ucicfg.Store.Built.{
  IsOwn, option_name, list_name, IsOwn-IsBuilt, save_profile-IsOwn, save_group-IsOwn,
  save_rule-IsOwn, save_sub-IsOwn, save_main-IsOwn,
}
use x_divine_ray.Ucicfg.Store.Whole.{save, load}
use x_divine_ray.Model.Settings.{Settings}
use x_divine_ray.Ucicfg.Store.Whole.{named_profiles, named_groups, named_rules, named_subs}
use x_divine_ray.Ucicfg.Store.Whole.Kept.{IsKept, load-save}
use x_divine_ray.Ucicfg.Store.File.{load_file, save_file}
use x_divine_ray.Ucicfg.Store.File.Reread.{reread, load-reread, print-reread}

-- A value that can be written on a line, between apostrophes.
abbrev pub is_clean : Text → Bool
is_clean v = no_apostrophe v && no_lf v

-- The section has a name, and neither the name nor a value holds an apostrophe or a line feed.
abbrev pub is_writable : Section → Bool
is_writable s =
    non_empty s.name
    && is_clean s.name
    && all_of (λ (e : Text × Text). is_clean e.1) s.options
    && all_of (λ (e : Text × List Text). all_of is_clean e.1) s.lists

option_items-is_item :
    (o : List (Text × Text))
    → all_of option_name (keys o) ≡ true
    → all_of (λ (e : Text × Text). is_clean e.1) o ≡ true
    → (all_of is_item (option_items o) ≡ true) × (all_of is_single (option_items o) ≡ true)
option_items-is_item [] h c = (refl, refl)
option_items-is_item ((k, v) ∷ o) h c =
    let (items, singles) = option_items-is_item o (ground arith) (ground arith) in
    (ground arith, ground arith)

clean_values :
    (vs : List Text)
    → all_of is_clean vs ≡ true
    → (all_of no_apostrophe vs ≡ true) × (all_of no_lf vs ≡ true)
clean_values [] c = (refl, refl)
clean_values (v ∷ vs) c =
    let (a, l) = clean_values vs (ground arith) in (ground arith, ground arith)

list_items-is_item :
    (l : List (Text × List Text))
    → all_of list_name (keys l) ≡ true
    → all_of (λ (e : Text × List Text). all_of is_clean e.1) l ≡ true
    → (all_of is_item (list_items l) ≡ true) × (all_of is_single (list_items l) ≡ true)
list_items-is_item [] h c = (refl, refl)
list_items-is_item ((k, []) ∷ l) h c = list_items-is_item l (ground arith) (ground arith)
list_items-is_item ((k, v ∷ vs) ∷ l) h c =
    let (items, singles) = list_items-is_item l (ground arith) (ground arith) in
    let (a, s) = clean_values (v ∷ vs) (ground arith) in (ground arith, ground arith)

settled-is_item :
    (s : Section)
    → IsOwn s
    → is_writable s ≡ true
    → (all_of is_item (settled_items s) ≡ true) × (all_of is_single (settled_items s) ≡ true)
settled-is_item s o w =
    let (a, b) = option_items-is_item s.options o.option_names (ground arith) in
    let names : all_of list_name (keys (sort_entries s.lists)) ≡ true =
      ap (all_of list_name) (keys-sort_entries s.lists)
      ∙ all_of-sort list_name (keys s.lists)
      ∙ o.lists_names in
    let clean : all_of (λ (e : Text × List Text). all_of is_clean e.1) (sort_entries s.lists)
        ≡ true =
      all_of-sort_entries (λ (e : Text × List Text). all_of is_clean e.1) s.lists ∙ ground arith in
    let (c, d) = list_items-is_item (sort_entries s.lists) names clean in
    (
      all_of-append is_item (option_items s.options) (list_items (sort_entries s.lists)) a c,
      all_of-append is_single (option_items s.options) (list_items (sort_entries s.lists)) b d,
    )

settled-is_named :
    (ss : List Section)
    → All IsOwn ss
    → all_of is_writable ss ≡ true
    → (all_of is_named (map settled ss) ≡ true)
      × (all_of is_plain (map settled ss) ≡ true)
      × All IsBuilt ss
settled-is_named [] o w = (refl, refl, tt)
settled-is_named (s ∷ ss) o w =
    let (named, plain, built) = settled-is_named ss o.1 (ground arith) in
    let (items, singles) = settled-is_item s o.0 (ground arith) in
    let u : unique (settled_items s) ≡ true = unique_settled s (IsOwn-IsBuilt s o.0) in
    let word : is_word s.type_name ≡ true = o.0.kind in
    (ground arith, ground arith, (IsOwn-IsBuilt s o.0, built))

map-settled : (ss : List Section) → map section_named (map settled ss) ≡ map reread ss
unfolding reread
map-settled [] = refl
map-settled (s ∷ ss) = ap (λ l. reread s ∷ l) (map-settled ss)

map-IsOwn :
    {A : Type 0} (write : A → Section) (xs : List A)
    → ((x : A) → IsOwn (write x))
    → All IsOwn (map write xs)
map-IsOwn write [] o = tt
map-IsOwn write (x ∷ xs) o = (o x, map-IsOwn write xs o)

sections-IsOwn :
    (m : Settings) (ps : List Profile) (gs : List Group) (rs : List Rule) (us : List Subscription)
    → All IsOwn (
        save_main m
        ∷ (map save_profile ps ++ (map save_group gs ++ (map save_rule rs ++ map save_sub us))))
sections-IsOwn m ps gs rs us =
    let last : All IsOwn (map save_rule rs ++ map save_sub us) =
      All-append IsOwn (map save_rule rs) (map save_sub us) (map-IsOwn save_rule rs save_rule-IsOwn)
        (map-IsOwn save_sub us save_sub-IsOwn) in
    let groups : All IsOwn (map save_group gs ++ (map save_rule rs ++ map save_sub us)) =
      All-append IsOwn (map save_group gs) (map save_rule rs ++ map save_sub us)
        (map-IsOwn save_group gs save_group-IsOwn) last in
    (
      save_main-IsOwn m,
      All-append IsOwn (map save_profile ps)
          (map save_group gs ++ (map save_rule rs ++ map save_sub us))
          (map-IsOwn save_profile ps save_profile-IsOwn) groups,
    )

save-IsOwn : (new : Text → ℕ → Text) (d : Data) → All IsOwn (save new d).sections
unfolding save
save-IsOwn new d =
    sections-IsOwn d.settings (named_profiles new d.profiles) (named_groups new d.groups)
      (named_rules new d.rules) (named_subs new d.subscriptions)

-- Loading the text that was saved of a configuration gives it again, if its settings are normal and
-- name an update source, its groups are normal, its rules have known actions, its profiles have a
-- network, a security and a protocol that is written as it is read, everything has an id, and
-- neither an id nor a value that is written holds an apostrophe or a line feed.
pub load_file-save_file :
    (new : Text → ℕ → Text) (d : Data)
    → IsKept d
    → all_of is_writable (save new d).sections ≡ true
    → load_file (some (save_file new d)) ≡ d
unfolding load_file save_file save codes is_space
load_file-save_file new d h w =
    let ss : List Section = (save new d).sections in
    let (named, plain, built) = settled-is_named ss (save-IsOwn new d) w in
    ap (λ t. load (parse (codes "xwrt") t)) (print-reread (codes "xwrt") ss built)
    ∙ ap (λ l. load (parse (codes "xwrt") (print (record { name = codes "xwrt"; sections = l }))))
        (sym (map-settled ss))
    ∙ ap load (parse-print (codes "xwrt") (codes "xwrt") (map settled ss) refl named plain)
    ∙ ap (λ l. load (record { name = codes "xwrt"; sections = l })) (map-settled ss)
    ∙ load-reread (codes "xwrt") ss built
    ∙ load-save new d h
