-- ===== src/Ucicfg/Store/Built.antt =====
-- The sections that saving builds: their options came by `Set` and their lists have names of their own.
use x_divine_ray.Prelude.{
  Bool, Bool-cases, List, Text, [], all_of, ap, arith, codes, false, inl, inr, not, refl, sym,
  text_eq, text_eq_iff, true, ◌&&◌, ◌∙◌, ◌∷◌, ◌≡◌,
}
use x_divine_ray.Model.Profile.{Profile}
use x_divine_ray.Model.Strategy.{Group}
use x_divine_ray.Model.Rule.{Rule, Subscription}
use x_divine_ray.Model.Settings.{Settings}
use x_divine_ray.Prelude.Trim.{is_space}
use x_divine_ray.Ucicfg.Token.Quoted.{is_word}
use x_divine_ray.Ucicfg.Syntax.{Section, new_section, set_option}
use x_divine_ray.Ucicfg.Print.{elem, keys}
use x_divine_ray.Ucicfg.Print.Sorted.{distinct}
use x_divine_ray.Ucicfg.Print.Inserted.{
  keys-insert, insert-distinct, all_of-insert, insert-has_values,
}
use x_divine_ray.Ucicfg.Print.Settled.{IsBuilt, has_values}
use x_divine_ray.Ucicfg.Store.{
  set_all, set_some, put_list, set_non_empty, save_profile, save_group, save_rule, save_sub,
}
use x_divine_ray.Ucicfg.Store.Main.{save_main}

abbrev pub list_names : List Text
list_names =
    codes "bypass_ip"
    ∷ codes "bypass_mac"
    ∷ codes "member"
    ∷ codes "domain"
    ∷ codes "ip"
    ∷ codes "source"
    ∷ codes "protocol"
    ∷ []

abbrev pub option_name : Text → Bool
option_name k = is_word k && not (elem k list_names)

abbrev pub list_name : Text → Bool
list_name k = is_word k && elem k list_names

pub record IsOwn (s : Section) : Type 0 where
  pub named : s.anon ≡ false
  pub kind : is_word s.type_name ≡ true
  pub order : s.order ≡ keys s.options
  pub options : distinct (keys s.options) ≡ true
  pub lists : distinct (keys s.lists) ≡ true
  pub values : all_of has_values s.lists ≡ true
  pub option_names : all_of option_name (keys s.options) ≡ true
  pub lists_names : all_of list_name (keys s.lists) ≡ true

set_option-IsOwn :
    (k v : Text) (s : Section) → option_name k ≡ true → IsOwn s → IsOwn (set_option k v s)
unfolding set_option
set_option-IsOwn k v s e o = record {
  named = o.named;
  kind = o.kind;
  order = rw o.order (sym (keys-insert k v s.options));
  options = insert-distinct k v s.options o.options;
  lists = o.lists;
  values = o.values;
  option_names = all_of-insert k v s.options option_name e o.option_names;
  lists_names = o.lists_names;
}

set_all-IsOwn :
    (es : List (Text × Text)) (s : Section)
    → all_of option_name (keys es) ≡ true
    → IsOwn s
    → IsOwn (set_all es s)
unfolding set_all
set_all-IsOwn [] s e o = o
set_all-IsOwn ((k, v) ∷ es) s e o =
    set_all-IsOwn es (set_option k v s) (ground arith) (set_option-IsOwn k v s (ground arith) o)

set_non_empty-IsOwn :
    (k v : Text) (s : Section) → option_name k ≡ true → IsOwn s → IsOwn (set_non_empty k v s)
set_non_empty-IsOwn k [] s e o = o
set_non_empty-IsOwn k (c ∷ v) s e o = set_option-IsOwn k (c ∷ v) s e o

set_some-IsOwn :
    (es : List (Text × Text)) (s : Section)
    → all_of option_name (keys es) ≡ true
    → IsOwn s
    → IsOwn (set_some es s)
unfolding set_some
set_some-IsOwn [] s e o = o
set_some-IsOwn ((k, v) ∷ es) s e o =
    set_some-IsOwn es (set_non_empty k v s) (ground arith)
      (set_non_empty-IsOwn k v s (ground arith) o)

put_list-IsOwn :
    (k : Text) (xs : List Text) (s : Section)
    → list_name k ≡ true
    → IsOwn s
    → IsOwn (put_list k xs s)
unfolding put_list
put_list-IsOwn k [] s e o = o
put_list-IsOwn k (x ∷ xs) s e o = record {
  named = o.named;
  kind = o.kind;
  order = o.order;
  options = o.options;
  lists = insert-distinct k (x ∷ xs) s.lists o.lists;
  values = insert-has_values k x xs s.lists o.values;
  option_names = o.option_names;
  lists_names = all_of-insert k (x ∷ xs) s.lists list_name e o.lists_names;
}

new_section-IsOwn : (t n : Text) → is_word t ≡ true → IsOwn (new_section t n false)
unfolding distinct
new_section-IsOwn t n w = record {
  kind = w;
  named = refl;
  order = refl;
  options = refl;
  lists = refl;
  values = refl;
  option_names = refl;
  lists_names = refl;
}

-- An option's name is none of the lists' names.
apart_from_lists :
    (k : Text) (js : List Text)
    → elem k list_names ≡ false
    → all_of list_name js ≡ true
    → elem k js ≡ false
apart_from_lists k [] h g = refl
apart_from_lists k (j ∷ js) h g = elim (Bool-cases (text_eq j k)) [
  | inl same ↦
      let e : elem j list_names ≡ true = ground arith in
      let no : elem k list_names ≡ true =
        ap (λ i. elem i list_names) (sym ((text_eq_iff j k).0 same)) ∙ e in
      cc
  | inr other ↦ rw other (apart_from_lists k js h (ground arith))
]

options_apart :
    (ks js : List Text)
    → all_of option_name ks ≡ true
    → all_of list_name js ≡ true
    → all_of (λ k. not (elem k js)) ks ≡ true
options_apart [] js h g = refl
options_apart (k ∷ ks) js h g =
    let fresh : elem k js ≡ false = apart_from_lists k js (ground arith) g in
    rw fresh (options_apart ks js (ground arith) g)

apart_from_options :
    (j : Text) (ks : List Text)
    → elem j list_names ≡ true
    → all_of option_name ks ≡ true
    → elem j ks ≡ false
apart_from_options j [] h g = refl
apart_from_options j (k ∷ ks) h g = elim (Bool-cases (text_eq k j)) [
  | inl same ↦
      let e : elem k list_names ≡ false = ground arith in
      let no : elem j list_names ≡ false =
        ap (λ i. elem i list_names) (sym ((text_eq_iff k j).0 same)) ∙ e in
      cc
  | inr other ↦ rw other (apart_from_options j ks h (ground arith))
]

lists_apart :
    (ks js : List Text)
    → all_of option_name ks ≡ true
    → all_of list_name js ≡ true
    → all_of (λ j. not (elem j ks)) js ≡ true
lists_apart ks [] h g = refl
lists_apart ks (j ∷ js) h g =
    let fresh : elem j ks ≡ false = apart_from_options j ks (ground arith) h in
    rw fresh (lists_apart ks js h (ground arith))

pub IsOwn-IsBuilt : (s : Section) → IsOwn s → IsBuilt s
IsOwn-IsBuilt s o =
    let a : all_of (λ k. not (elem k (keys s.lists))) (keys s.options) ≡ true =
      options_apart (keys s.options) (keys s.lists) o.option_names o.lists_names in
    record {
      named = o.named;
      order = o.order;
      options = o.options;
      lists = o.lists;
      values = o.values;
      apart = a;
      apart_lists = lists_apart (keys s.options) (keys s.lists) o.option_names o.lists_names;
    }

pub save_profile-IsOwn : (p : Profile) → IsOwn (save_profile p)
unfolding save_profile codes is_space text_eq
save_profile-IsOwn p = set_some-IsOwn _ _ refl (new_section-IsOwn _ _ refl)

pub save_group-IsOwn : (g : Group) → IsOwn (save_group g)
unfolding save_group codes is_space text_eq
save_group-IsOwn g = put_list-IsOwn _ _ _ refl (set_all-IsOwn _ _ refl (new_section-IsOwn _ _ refl))

pub save_rule-IsOwn : (r : Rule) → IsOwn (save_rule r)
unfolding save_rule codes is_space text_eq
save_rule-IsOwn r = put_list-IsOwn _ _ _ refl (
    put_list-IsOwn _ _ _ refl (
      put_list-IsOwn _ _ _ refl (
        put_list-IsOwn _ _ _ refl
          (set_some-IsOwn _ _ refl (set_all-IsOwn _ _ refl (new_section-IsOwn _ _ refl))))))

pub save_sub-IsOwn : (u : Subscription) → IsOwn (save_sub u)
unfolding save_sub codes is_space text_eq
save_sub-IsOwn u =
    set_all-IsOwn _ _ refl
      (set_some-IsOwn _ _ refl (set_all-IsOwn _ _ refl (new_section-IsOwn _ _ refl)))

pub save_main-IsOwn : (s : Settings) → IsOwn (save_main s)
unfolding save_main codes is_space text_eq
save_main-IsOwn s = put_list-IsOwn _ _ _ refl (
    put_list-IsOwn _ _ _ refl
      (set_some-IsOwn _ _ refl (set_all-IsOwn _ _ refl (new_section-IsOwn _ _ refl))))
