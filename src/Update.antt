-- ===== src/Update.antt =====
-- The download of an update (internal/update/update.go): sumFor and FetchWith. What the network and
-- the disk answer is data, and what a release is known to hold stands in Release. filepath.Join and
-- filepath.Base are parameters.
pub mod Verified
use x_divine_ray.Prelude.{
  Bool, List, Option, Text, [], false, if◌then◌else◌, leb, length, none, not, some, text_eq, true,
  ◌&&◌, ◌++◌, ◌==◌, ◌∷◌,
}
use x_divine_ray.Prelude.Trim.{trim, is_space}
use x_divine_ray.Model.Profile.{is_empty}
use x_divine_ray.Model.Rule.Validate.{split}
use x_divine_ray.Ucicfg.Value.{lower}

-- The addresses and the name that an update needs of a release.
pub record Release : Type 0 where
  pub asset : Text
  pub asset_name : Text
  pub checksums : Text

unfoldable pub installable : Release → Bool
installable r = not (is_empty r.asset) && not (is_empty r.checksums)

-- strings.Fields over ASCII white space: `word` is the word that is being read.
unfoldable pub fields_from : Text → Text → List Text
fields_from word [] = if is_empty word then [] else word ∷ []
fields_from word (c ∷ s) =
    let cut : List Text = fields_from [] s in
    let longer : List Text = fields_from (word ++ c ∷ []) s in
    if is_space c then if is_empty word then cut else word ∷ cut else longer

-- strings.TrimPrefix(s, "*")
abbrev pub without_star : Text → Text
without_star [] = []
without_star (c ∷ s) = if c == 42 then s else c ∷ s

abbrev pub last_of : Text → List Text → Text
last_of word [] = word
last_of word (w ∷ ws) = last_of w ws

-- The sum that one line gives for a name, if it is about that name.
abbrev pub line_sum : (Text → Text) → Text → List Text → Option Text
line_sum base name [] = none
line_sum base name (w ∷ []) = none
line_sum base name (w ∷ v ∷ ws) =
    if text_eq (base (without_star (last_of v ws))) name then some w else none

abbrev or_later : Option Text → Text → Text
or_later none later = later
or_later (some sum) later = sum

unfoldable pub sum_in : (Text → Text) → Text → List Text → Text
sum_in base name [] = []
sum_in base name (line ∷ lines) =
    or_later (line_sum base name (fields_from [] (trim line))) (sum_in base name lines)

-- The loop over the lines; no line is about the name where the result is empty.
unfoldable pub sum_for : (Text → Text) → Text → Text → Text
sum_for base sums name = sum_in base name (split 10 sums)

-- What a download comes to: its digest, or a failure that may have begun the file.
pub data Download : Type 0 where
  done : Text → Download
  broken : Bool → Download

-- What the outside answers while an update is fetched.
pub record Answers : Type 0 where
  pub sums : Option Text
  pub dir_made : Bool
  pub download : Download
  pub removes : Bool

pub data UpdateError : Type 0 where
  no_bundle no_checksums sums_failed not_listed no_directory : UpdateError
  download_failed checksum_mismatch : UpdateError

-- `panicked` is a slice out of range.
pub data Outcome : Type 0 where
  fetched : Text → Outcome
  refused : UpdateError → Outcome
  panicked : Outcome

-- The files that are there, by their paths.
abbrev pub Disk : Type 0
Disk = Text → Bool

abbrev pub with_file : Text → Bool → Disk → Disk
with_file path there disk other = if text_eq other path then there else disk other

-- strings.EqualFold of a digest in hex and another text.
abbrev pub same_digest : Text → Text → Bool
same_digest got want = text_eq (lower got) (lower want)

-- os.Remove(path), whose error is ignored; `removes` says whether it works.
abbrev pub remove : Bool → Text → Disk → Disk
remove removes path disk = if removes then with_file path false disk else disk

-- The comparison; the message of a mismatch takes the first twelve bytes of both sums.
unfoldable pub compare_sums : Bool → Text → Text → Text → Disk → Outcome × Disk
compare_sums removes path want got disk =
    if same_digest got want
    then (fetched path, disk)
    else if leb 12 (length want) && leb 12 (length got)
    then (refused checksum_mismatch, remove removes path disk)
    else (panicked, remove removes path disk)

-- The download and what follows; a download that is whole has written the file.
abbrev pub receive : Bool → Text → Text → Download → Disk → Outcome × Disk
receive removes path want (done got) disk =
    compare_sums removes path want got (with_file path true disk)
receive removes path want (broken begun) disk = (
  refused download_failed,
  remove removes path (if begun then with_file path true disk else disk),
)

module _ (base : Text → Text) (join : Text → Text → Text) (dir : Text) where
  abbrev pub look_up : Release → Answers → Option Text → Disk → Outcome × Disk
  look_up r a none disk = (refused sums_failed, disk)
  look_up r a (some sums) disk =
      if is_empty (sum_for base sums r.asset_name)
      then (refused not_listed, disk)
      else if not a.dir_made
      then (refused no_directory, disk)
      else receive a.removes (join dir r.asset_name) (sum_for base sums r.asset_name) a.download
          disk

  unfoldable pub fetch_with : Release → Answers → Disk → Outcome × Disk
  fetch_with r a disk =
      if not (installable r)
      then if is_empty r.asset then (refused no_bundle, disk) else (refused no_checksums, disk)
      else look_up r a a.sums disk
