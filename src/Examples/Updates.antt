-- ===== src/Examples/Updates.antt =====
-- An update whose digest is written in capitals, and one whose sum is too short for the message.
use x_divine_ray.Prelude.{Text, codes, false, refl, some, text_eq, true, ◌++◌, ◌↔◌, ◌∷◌, ◌≡◌, ◌⊎◌}
use x_divine_ray.Prelude.Trim.{trim, drop_space, is_space}
use x_divine_ray.Model.Rule.Validate.{split}
use x_divine_ray.Update.{
  Release, Answers, done, Disk, fetched, panicked, installable, fields_from, sum_in, sum_for,
  compare_sums, fetch_with,
}
use x_divine_ray.Update.Verified.{IsVouched, fetch_with_iff}

abbrev release : Release
release = record { asset = codes "u"; asset_name = codes "b.tar.gz"; checksums = codes "s" }

abbrev answers : Text → Answers
answers sum = record {
  sums = some (codes "00  other" ++ 10 ∷ (sum ++ codes "  *b.tar.gz"));
  dir_made = true;
  download = done (codes "ab12");
  removes = true;
}

abbrev whole_name : Text → Text
whole_name s = s

abbrev empty_disk : Disk
empty_disk path = false

capitals_fetched :
    (fetch_with whole_name
      (λ d n. d ++ n)
      (codes "/tmp/")
      release
      (answers (codes "AB12"))
      empty_disk).0
    ≡ fetched (codes "/tmp/b.tar.gz")
unfolding fetch_with installable sum_for sum_in fields_from compare_sums split trim drop_space
    is_space codes text_eq
capitals_fetched = refl

short_sum_panics :
    (fetch_with whole_name
      (λ d n. d ++ n)
      (codes "/tmp/")
      release
      (answers (codes "cd"))
      empty_disk).0
    ≡ panicked
unfolding fetch_with installable sum_for sum_in fields_from compare_sums split trim drop_space
    is_space codes text_eq
short_sum_panics = refl

fetch_with_iff_example :
    ((p : Text)
      → ((fetch_with whole_name
            (λ d n. d ++ n)
            (codes "/tmp/")
            release
            (answers (codes "AB12"))
            empty_disk).0
          ≡ fetched p)
        ↔ ((p ≡ codes "/tmp/" ++ release.asset_name)
            × IsVouched whole_name release (answers (codes "AB12"))))
    × ((fetch_with whole_name
              (λ d n. d ++ n)
              (codes "/tmp/")
              release
              (answers (codes "AB12"))
              empty_disk).1
            (codes "/tmp/" ++ release.asset_name)
          ≡ true
        → ((fetch_with whole_name
              (λ d n. d ++ n)
              (codes "/tmp/")
              release
              (answers (codes "AB12"))
              empty_disk).0
            ≡ fetched (codes "/tmp/" ++ release.asset_name))
          ⊎ (empty_disk (codes "/tmp/" ++ release.asset_name) ≡ true)
          ⊎ ((answers (codes "AB12")).removes ≡ false))
fetch_with_iff_example =
    fetch_with_iff whole_name (λ d n. d ++ n) (codes "/tmp/") release (answers (codes "AB12"))
      empty_disk
