-- ===== src/Update/Verified.antt =====
-- An update is handed on exactly where the release vouches for it.
use mathlib.Core.Path.{subst}
use x_divine_ray.Prelude.{
  All, List, Option, Option-cases, Text, [], ap, false, inl, inr, none, refl, some, sym, true, ◌++◌,
  ◌∙◌, ◌∷◌, ◌≡◌, ◌≢◌, ◌⊎◌, arith, if_elim, leb, length, not, text_eq_refl, ◌&&◌, ◌↔◌, Bool-cases,
  text_eq, text_eq_iff,
}
use x_divine_ray.Prelude.Trim.{trim}
use x_divine_ray.Model.Profile.{is_empty}
use x_divine_ray.Model.Rule.Validate.{split}
use x_divine_ray.Update.{
  UpdateError, no_bundle, no_checksums, sums_failed, not_listed, no_directory, download_failed,
  checksum_mismatch, installable, done, broken, refused, panicked, compare_sums, receive, look_up,
  Download, sum_for, without_star, last_of, remove,
}
use x_divine_ray.Update.{
  Release, installable, fields_from, line_sum, sum_in, sum_for, Download, done, broken, Answers,
  Outcome, fetched, refused, panicked, Disk, same_digest, compare_sums, receive, look_up,
  fetch_with,
}

module _ (base : Text → Text) (name : Text) where
  abbrev pub sum_of_line : Text → Option Text
  sum_of_line line = line_sum base name (fields_from [] (trim line))

  -- The line is two words or more, the first of them the sum and the last, without a star before it, a
  -- path to the name.
  abbrev pub IsSum : Text → Text → Type 0
  IsSum line want =
      (mid : List Text) × (last : Text) × (fields_from [] (trim line) ≡ want ∷ (mid ++ last ∷ []))
      × (base (without_star last) ≡ name)

  last_split : (v : Text) (ws : List Text) → (mid : List Text) × (v ∷ ws ≡ mid ++ last_of v ws ∷ [])
  last_split v [] = ([], refl)
  last_split v (w ∷ ws) = let (mid, e) = last_split w ws in (v ∷ mid, ap (◌∷◌ v) e)

  last_of-append : (v : Text) (mid : List Text) (last : Text) → last_of v (mid ++ last ∷ []) ≡ last
  last_of-append v [] last = refl
  last_of-append v (w ∷ mid) last = last_of-append w mid last

  line_sum-split :
      (ws : List Text) (want : Text)
      → line_sum base name ws ≡ some want
      → (mid : List Text) × (last : Text) × (ws ≡ want ∷ (mid ++ last ∷ []))
        × (base (without_star last) ≡ name)
  line_sum-split [] want h = cc
  line_sum-split (w ∷ []) want h = cc
  line_sum-split (w ∷ v ∷ ws) want h =
      elim (Bool-cases (text_eq (base (without_star (last_of v ws))) name)) [
        | inl about ↦
            let (mid, e) = last_split v ws in
            let first : some w ≡ some want = sym (rw about refl) ∙ h in
            (mid, last_of v ws, (rw e cc), (text_eq_iff _ _).0 about)
        | inr other ↦ let no : none ≡ some want = sym (rw other refl) ∙ h in cc
      ]

  line_sum_of_split :
      (want : Text) (mid : List Text) (last : Text)
      → base (without_star last) ≡ name
      → line_sum base name (want ∷ (mid ++ last ∷ [])) ≡ some want
  line_sum_of_split want [] last h = rw ((text_eq_iff _ _).1 h) refl
  line_sum_of_split want (v ∷ mid) last h =
      rw (last_of-append v mid last) (rw ((text_eq_iff _ _).1 h) refl)

  -- `want` is the sum of the first of the lines that is about the name.
  abbrev pub IsFirst : List Text → Text → Type 0
  IsFirst lines want =
      (before : List Text) × (line : Text) × (after : List Text) × (lines
        ≡ before ++ (line ∷ after))
      × All (λ l. sum_of_line l ≡ none) before
      × IsSum line want

  sum_in-IsFirst :
      (lines : List Text) → sum_in base name lines ≢ [] → IsFirst lines (sum_in base name lines)
  unfolding sum_in
  sum_in-IsFirst [] h = absurd (h refl)
  sum_in-IsFirst (line ∷ lines) h = elim (Option-cases (sum_of_line line)) [
    | inl other ↦
        let e : sum_in base name (line ∷ lines) ≡ sum_in base name lines = rw other refl in
        let (before, first, after, split_there, none_before, found) =
          sum_in-IsFirst lines (λ empty. h (e ∙ empty)) in
        (
          line ∷ before,
          first,
          after,
          ap (◌∷◌ line) split_there,
          (other, none_before),
          subst (IsSum first) (sym e) found,
        )
    | inr (sum, here) ↦ ([], line, lines, refl, tt, rw here (line_sum-split _ sum here))
  ]

  IsFirst-sum_in :
      (before : List Text) (line : Text) (after : List Text) (want : Text)
      → All (λ l. sum_of_line l ≡ none) before
      → IsSum line want
      → sum_in base name (before ++ (line ∷ after)) ≡ want
  unfolding sum_in
  IsFirst-sum_in [] line after want h (mid, last, words, about) =
      rw words (rw (line_sum_of_split want mid last about) refl)
  IsFirst-sum_in (l ∷ before) line after want h e =
      rw h.0 (IsFirst-sum_in before line after want h.1 e)

-- The release has the bundle and the file of sums, that file gives a sum for the bundle, and what was
-- downloaded has that sum.
abbrev pub IsVouched : (Text → Text) → Release → Answers → Type 0
IsVouched base r a =
    (r.asset ≢ [])
    × (r.checksums ≢ [])
    × (a.dir_made ≡ true)
    × (sums : Text) × (want : Text) × (got : Text) × (a.sums ≡ some sums)
    × IsFirst base r.asset_name (split 10 sums) want
    × (want ≢ [])
    × (a.download ≡ done got)
    × (same_digest got want ≡ true)

ne_of_is_empty : (s : Text) → is_empty s ≡ false → s ≢ []
ne_of_is_empty [] h = cc
ne_of_is_empty (c ∷ s) h = λ e. cc

is_empty_of_ne : (s : Text) → s ≢ [] → is_empty s ≡ false
is_empty_of_ne [] h = absurd (h refl)
is_empty_of_ne (c ∷ s) h = refl

module _ (base : Text → Text) (join : Text → Text → Text) (dir : Text) (r : Release) (a : Answers)
    (disk : Disk) where
  abbrev path : Text
  path = join dir r.asset_name

  -- What an outcome says, with the disk that it leaves.
  abbrev Says : Outcome × Disk → Type 0
  Says res =
      ((p : Text) → res.0 ≡ fetched p → (p ≡ path) × IsVouched base r a)
      × (res.1 path ≡ true → (res.0 ≡ fetched path) ⊎ (disk path ≡ true) ⊎ (a.removes ≡ false))

  refused-Says : (e : UpdateError) → Says (refused e, disk)
  refused-Says e = (λ p h. cc, λ h. inr (inl h))

  removed : (there : Disk) → remove a.removes path there path ≡ true → a.removes ≡ false
  removed there h = elim (Bool-cases a.removes) [
    | inl works ↦
        let gone : remove a.removes path there path ≡ false =
          rw works (rw (text_eq_refl path) refl) in
        cc
    | inr fails ↦ fails
  ]

  failed-Says :
      (out : Outcome) (there : Disk)
      → ((p : Text) → out ≢ fetched p)
      → Says (out, remove a.removes path there)
  failed-Says out there never = (λ p h. absurd (never p h), λ h. inr (inr (removed there h)))

  compare_sums-Says :
      (want got : Text) (there : Disk)
      → (same_digest got want ≡ true → IsVouched base r a)
      → Says (compare_sums a.removes path want got there)
  unfolding compare_sums
  compare_sums-Says want got there vouched =
      if_elim Says (same_digest got want) _ _ (λ same. (λ p h. (cc, vouched same), λ _. inl refl))
        (λ _.
          if_elim Says (leb 12 (length want) && leb 12 (length got)) _ _
            (λ _. failed-Says (refused checksum_mismatch) there (λ p h. cc))
            (λ _. failed-Says panicked there (λ p h. cc)))

  receive-Says :
      (want : Text) (d : Download)
      → ((got : Text) → d ≡ done got → same_digest got want ≡ true → IsVouched base r a)
      → Says (receive a.removes path want d disk)
  receive-Says want (done got) vouched = compare_sums-Says want got _ (vouched got refl)
  receive-Says want (broken begun) vouched = failed-Says (refused download_failed) _ (λ p h. cc)

  look_up-Says :
      (s : Option Text)
      → a.sums ≡ s
      → r.asset ≢ []
      → r.checksums ≢ []
      → Says (look_up base join dir r a s disk)
  unfolding sum_for
  look_up-Says none has bundle file = refused-Says sums_failed
  look_up-Says (some sums) has bundle file =
      let want : Text = sum_for base sums r.asset_name in
      if_elim Says (is_empty want) _ _ (λ _. refused-Says not_listed)
        (λ listed.
          if_elim Says (not a.dir_made) _ _ (λ _. refused-Says no_directory)
            (λ made. receive-Says want a.download (λ got e same. (
              bundle,
              file,
              ground arith,
              sums,
              want,
              got,
              has,
              sum_in-IsFirst base r.asset_name (split 10 sums) (ne_of_is_empty want listed),
              ne_of_is_empty want listed,
              e,
              same,
            ))))

  fetch_with-Says : Says (fetch_with base join dir r a disk)
  unfolding fetch_with installable
  fetch_with-Says =
      if_elim Says (not (not (is_empty r.asset) && not (is_empty r.checksums))) _ _
        (λ _.
          if_elim Says (is_empty r.asset) _ _ (λ _. refused-Says no_bundle)
            (λ _. refused-Says no_checksums))
        (λ whole.
          look_up-Says a.sums refl (ne_of_is_empty r.asset (ground arith))
            (ne_of_is_empty r.checksums (ground arith)))

  IsVouched-fetched : IsVouched base r a → (fetch_with base join dir r a disk).0 ≡ fetched path
  unfolding fetch_with installable sum_for compare_sums
  IsVouched-fetched
        (
          bundle,
          file,
          made,
          sums,
          want,
          got,
          has,
          (before, line, after, whole, none_before, found),
          some_sum,
          arrived,
          same,
        ) =
      let e : sum_in base r.asset_name (split 10 sums) ≡ want =
        ap (sum_in base r.asset_name) whole
        ∙ IsFirst-sum_in base r.asset_name before line after want none_before found in
      rw (is_empty_of_ne r.asset bundle) (
        rw (is_empty_of_ne r.checksums file)
          (rw has (rw e (rw (is_empty_of_ne want some_sum) (rw made (rw arrived (rw same refl)))))))

  -- FetchWith returns a path exactly where the release has a bundle and a file of sums, the first line
  -- of that file about the bundle gives a sum, the directory is made, and what was downloaded has that
  -- sum; the path is then that of the bundle. Where it returns none, no file is at that path that was
  -- not there before, unless the disk refuses to remove what was downloaded.
  pub fetch_with_iff :
      ((p : Text)
        → ((fetch_with base join dir r a disk).0 ≡ fetched p) ↔ ((p ≡ path) × IsVouched base r a))
      × ((fetch_with base join dir r a disk).1 path ≡ true
          → ((fetch_with base join dir r a disk).0 ≡ fetched path)
            ⊎ (disk path ≡ true)
            ⊎ (a.removes ≡ false))
  fetch_with_iff = (
    λ p. (fetch_with-Says.0 p, λ h. IsVouched-fetched h.1 ∙ ap fetched (sym h.0)),
    fetch_with-Says.1,
  )
