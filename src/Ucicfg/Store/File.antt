-- ===== src/Ucicfg/Store/File.antt =====
-- The configuration in its file (internal/ucicfg/store.go, load and save, with Load and Save of
-- internal/ucicfg/uci.go where there is no `uci` binary).
pub mod Reread
pub mod Kept
use x_divine_ray.Prelude.{Option, Text, [], codes, none, some, ℕ}
use x_divine_ray.Ucicfg.Data.{Data}
use x_divine_ray.Ucicfg.Syntax.{Package}
use x_divine_ray.Ucicfg.Text.{parse, print}
use x_divine_ray.Ucicfg.Store.Whole.{save, load}

-- u.Load(pkg), from what the file holds, if there is one.
abbrev pub load_package : Text → Option Text → Package
load_package name none = record { name = name; sections = [] }
load_package name (some text) = parse name text

-- s.load(), from what the file holds, if it is there.
unfoldable pub load_file : Option Text → Data
load_file file = load (load_package (codes "xwrt") file)

-- s.save(d): what is written to the file.
unfoldable pub save_file : (Text → ℕ → Text) → Data → Text
save_file new d = print (save new d)
