-- ===== src/Dashboard/Explorer.antt =====
-- src/components/GoCodeExplorer.tsx: which source file it shows first.
use ingestion_engine.Prelude.{
  String, Bool, true, false, Option, none, some, List, [], ◌∷◌, if◌then◌else◌,
}
use ingestion_engine.GoFiles.{GoSourceFile}

pub record Explorer : Type 0 where
  pub files : List GoSourceFile
  pub selected_file : Option GoSourceFile
  pub copied : Bool
  pub loading : Bool

unfoldable pub new_explorer : Explorer
new_explorer = record { files = []; selected_file = none; copied = false; loading = true }

-- `String.includes` is a parameter.
module _ (includes : String → String → Bool) where
  -- `files.find((f) => f.path.includes('main.go'))`
  unfoldable pub find_main : List GoSourceFile → Option GoSourceFile
  find_main [] = none
  find_main (f ∷ rest) =
      let later = find_main rest in if includes f.path "main.go" then some f else later

  -- The answer of the route; `none` if the request failed.
  unfoldable pub files_arrive : Option (List GoSourceFile) → Explorer → Explorer
  unfolding find_main
  files_arrive none e = record e { loading = false }
  files_arrive (some []) e = record e { loading = false }
  files_arrive (some (f ∷ rest)) e = record e {
    files = f ∷ rest;
    selected_file = (elim (find_main (f ∷ rest)) [ none ↦ some f | some g ↦ some g ]);
    loading = false;
  }

-- The text that `handleCopy` puts on the clipboard.
unfoldable pub copy : Explorer → Option String × Explorer
copy e = elim e.selected_file [
  | none ↦ (none, e)
  | some f ↦ (some f.content, record e { copied = true })
]
