-- ===== src/Ucicfg/Store/Whole/Kept.antt =====
-- The configuration that was saved is the one that is loaded.
use x_divine_ray.Prelude.{
  Bool, List, Text, ℕ, [], codes, if◌then◌else◌, text_eq, text_eq_refl, ◌∷◌, ◌++◌, map, some, ◌+◌,
  ◌≡◌, ◌≢◌, refl, ap, ◌∙◌, sym, true, false, append-nil, All,
}
use x_divine_ray.Model.Profile.{Profile}
use x_divine_ray.Model.Strategy
use x_divine_ray.Model.Strategy.{Group}
use x_divine_ray.Model.Rule
use x_divine_ray.Model.Rule.{Rule, Subscription}
use x_divine_ray.Model.Settings.{Settings}
use x_divine_ray.Model.Settings.Normal.{IsNormal}
use x_divine_ray.Ucicfg.Data.{Data}
use x_divine_ray.Ucicfg.Syntax.{Section}
use x_divine_ray.Ucicfg.Store.{
  save_profile, load_profile, save_group, load_group, save_rule, load_rule, save_sub, load_sub,
}
use x_divine_ray.Ucicfg.Store.Filled.{type_name-set_all, type_name-set_some, type_name-put_list}
use x_divine_ray.Ucicfg.Store.Sections.{IsStorable, load_profile-save_profile, or_default_lem}
use x_divine_ray.Ucicfg.Store.Others.{
  filled, load_group-save_group, load_rule-save_rule, load_sub-save_sub,
}
use x_divine_ray.Ucicfg.Store.Main.{save_main}
use x_divine_ray.Ucicfg.Store.Main.Kept.{load_main-save_main}
use x_divine_ray.Ucicfg.Store.Whole.{find, of_type, with_ids, save, load, load_settings}

-- A configuration that loading does not change: every part has a name, and is as its own reader
-- leaves it.
pub record IsKept (d : Data) : Type 0 where
  pub settings : IsNormal d.settings
  pub repo : d.settings.update_repo ≢ []
  pub profiles : All (λ p. (p.id ≢ []) × IsStorable p) d.profiles
  pub groups : All (λ g. (g.id ≢ []) × (Strategy.normalize g ≡ g)) d.groups
  pub rules : All (λ r. (r.id ≢ []) × (Rule.valid r.action ≡ true)) d.rules
  pub subs : All (λ u. u.id ≢ []) d.subscriptions

if_same {ℓ} : {A : Type ℓ} (b : Bool) (x : A) → (if b then x else x) ≡ x
if_same true x = refl
if_same false x = refl

keep :
    (b : Bool) (x : Section) (l : List Section)
    → (if b then x ∷ (if b then l else []) else (if b then l else [])) ≡ (if b then x ∷ l else [])
keep true x l = refl
keep false x l = refl

take_in :
    (b : Bool) (x : Section) (l r : List Section)
    → (if b then x ∷ (l ++ r) else l ++ r) ≡ (if b then x ∷ l else l) ++ r
take_in true x l r = refl
take_in false x l r = refl

module _ {A : Type 0} where
  with_ids_id :
      (id_of : A → Text) (set_id : Text → A → A) (new : ℕ → Text) (n : ℕ) (xs : List A)
      → ((x : A) → set_id (id_of x) x ≡ x)
      → All (λ x. id_of x ≢ []) xs
      → with_ids id_of set_id new n xs ≡ xs
  unfolding with_ids
  with_ids_id id_of set_id new n [] e h = refl
  with_ids_id id_of set_id new n (x ∷ xs) e h =
      rw (or_default_lem (id_of x) (new n) h.0, e x)
        (ap (λ l. x ∷ l) (with_ids_id id_of set_id new (n + 1) xs e h.1))

  map-map_id :
      (write : A → Section) (read : Section → A) (xs : List A)
      → All (λ x. read (write x) ≡ x) xs
      → map read (map write xs) ≡ xs
  map-map_id write read [] h = refl
  map-map_id write read (x ∷ xs) h = rw h.0 (ap (λ l. x ∷ l) (map-map_id write read xs h.1))

  of_type-map :
      (t t' : Text) (write : A → Section) (ys : List A)
      → ((y : A) → (write y).type_name ≡ t')
      → of_type t (map write ys) ≡ (if text_eq t' t then map write ys else [])
  unfolding of_type
  of_type-map t t' write [] e = sym (if_same (text_eq t' t) [])
  of_type-map t t' write (y ∷ ys) e =
      simp (e y, of_type-map t t' write ys e) (keep (text_eq t' t) (write y) (map write ys))

  All-map : (P Q : A → Type 0) (xs : List A) → ((x : A) → P x → Q x) → All P xs → All Q xs
  All-map P Q [] f h = h
  All-map P Q (x ∷ xs) f h = (f x h.0, All-map P Q xs f h.1)

of_type-++ : (t : Text) (xs ys : List Section) → of_type t (xs ++ ys) ≡ of_type t xs ++ of_type t ys
unfolding of_type
of_type-++ t [] ys = refl
of_type-++ t (x ∷ xs) ys =
    rw (of_type-++ t xs ys) (take_in (text_eq x.type_name t) x (of_type t xs) (of_type t ys))

ruleset typed = (type_name-set_all, type_name-set_some, type_name-put_list)

type_name-save_main : (s : Settings) → (save_main s).type_name ≡ codes "xwrt"
unfolding save_main
type_name-save_main s = simp typed refl

type_name-save_profile : (p : Profile) → (save_profile p).type_name ≡ codes "profile"
unfolding save_profile
type_name-save_profile p = simp typed refl

type_name-save_group : (g : Group) → (save_group g).type_name ≡ codes "group"
unfolding save_group
type_name-save_group g = simp typed refl

type_name-save_rule : (r : Rule) → (save_rule r).type_name ≡ codes "rule"
unfolding save_rule
type_name-save_rule r = simp typed refl

type_name-save_sub : (u : Subscription) → (save_sub u).type_name ≡ codes "subscription"
unfolding save_sub
type_name-save_sub u = simp typed refl

name-save_main : (s : Settings) → (save_main s).name ≡ codes "main"
unfolding save_main
name-save_main s = simp filled refl

abbrev sections_of : Data → List Section
sections_of d =
    save_main d.settings
    ∷ (map save_profile d.profiles
        ++ (map save_group d.groups ++ (map save_rule d.rules ++ map save_sub d.subscriptions)))

abbrev only {ℓ} : {A : Type ℓ} → Text → Text → List A → List A
only t' t xs = if text_eq t' t then xs else []

of_type-sections_of :
    (d : Data) (t : Text)
    → text_eq (codes "xwrt") t ≡ false
    → of_type t (sections_of d)
      ≡ only (codes "profile") t (map save_profile d.profiles)
        ++ (only (codes "group") t (map save_group d.groups)
            ++ (only (codes "rule") t (map save_rule d.rules)
                ++ only (codes "subscription") t (map save_sub d.subscriptions)))
unfolding of_type
of_type-sections_of d t e =
    rw (type_name-save_main d.settings, e)
      (simp
        (
          of_type-++,
          of_type-map t (codes "profile") save_profile d.profiles type_name-save_profile,
          of_type-map t (codes "group") save_group d.groups type_name-save_group,
          of_type-map t (codes "rule") save_rule d.rules type_name-save_rule,
          of_type-map t (codes "subscription") save_sub d.subscriptions type_name-save_sub,
        )
        refl)

module _ (new : Text → ℕ → Text) (d : Data) (h : IsKept d) where
  save-sections_of : (save new d).sections ≡ sections_of d
  unfolding save
  save-sections_of =
      rw
        (
          with_ids_id (λ p. p.id) (λ t p. record p { id = t }) (new (codes "p")) 0 d.profiles
              (λ p. refl) (All-map _ _ d.profiles (λ p k. k.0) h.profiles),
          with_ids_id (λ g. g.id) (λ t g. record g { id = t }) (new (codes "g")) 0 d.groups
              (λ g. refl) (All-map _ _ d.groups (λ g k. k.0) h.groups),
          with_ids_id (λ r. r.id) (λ t r. record r { id = t }) (new (codes "r")) 0 d.rules
              (λ r. refl) (All-map _ _ d.rules (λ r k. k.0) h.rules),
          with_ids_id (λ u. u.id) (λ t u. record u { id = t }) (new (codes "s")) 0 d.subscriptions
              (λ u. refl) h.subs,
        )
        refl

  typed_sections :
      (t : Text) (l : List Section)
      → of_type t (sections_of d) ≡ l
      → of_type t (save new d).sections ≡ l
  typed_sections t l e = ap (of_type t) save-sections_of ∙ e

  profiles_of : of_type (codes "profile") (save new d).sections ≡ map save_profile d.profiles
  unfolding codes text_eq
  profiles_of =
      typed_sections (codes "profile") _
        (of_type-sections_of d (codes "profile") refl ∙ append-nil _)

  groups_of : of_type (codes "group") (save new d).sections ≡ map save_group d.groups
  unfolding codes text_eq
  groups_of =
      typed_sections (codes "group") _ (of_type-sections_of d (codes "group") refl ∙ append-nil _)

  rules_of : of_type (codes "rule") (save new d).sections ≡ map save_rule d.rules
  unfolding codes text_eq
  rules_of =
      typed_sections (codes "rule") _ (of_type-sections_of d (codes "rule") refl ∙ append-nil _)

  subs_of : of_type (codes "subscription") (save new d).sections ≡ map save_sub d.subscriptions
  unfolding codes text_eq
  subs_of =
      typed_sections (codes "subscription") _ (of_type-sections_of d (codes "subscription") refl)

  main_of : find (codes "main") (save new d).sections ≡ some (save_main d.settings)
  unfolding find
  main_of =
      ap (find (codes "main")) save-sections_of
      ∙ simp (name-save_main d.settings, text_eq_refl (codes "main")) refl

  -- Reading a configuration from the sections of the package that saving builds of it, before they are
  -- written as text, gives it again, if its settings are normal and name an update source, its groups
  -- are normal, its rules have known actions, its profiles have a network, a security and a protocol
  -- that is written as it is read, and everything has an id.
  pub load-save : load (save new d) ≡ d
  unfolding load
  load-save = λ i. record {
    settings = (ap load_settings main_of ∙ load_main-save_main d.settings h.settings h.repo) i;
    profiles =
        (ap (map load_profile) profiles_of
            ∙ map-map_id save_profile load_profile d.profiles
                (All-map _ _ d.profiles (λ p k. load_profile-save_profile p k.1) h.profiles))
          i;
    groups =
        (ap (map load_group) groups_of
            ∙ map-map_id save_group load_group d.groups
                (All-map _ _ d.groups (λ g k. load_group-save_group g ∙ k.1) h.groups))
          i;
    rules =
        (ap (map load_rule) rules_of
            ∙ map-map_id save_rule load_rule d.rules
                (All-map _ _ d.rules (λ r k. load_rule-save_rule r k.1) h.rules))
          i;
    subscriptions =
        (ap (map load_sub) subs_of
            ∙ map-map_id save_sub load_sub d.subscriptions
                (All-map _ _ d.subscriptions (λ u k. load_sub-save_sub u) h.subs))
          i;
  }
