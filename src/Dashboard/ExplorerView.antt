-- ===== src/Dashboard/ExplorerView.antt =====
-- src/components/GoCodeExplorer.tsx: what it shows of the listed source files, and its controls.
use text.Mathlib.Text.{◌==◌ as str_eq}
use ingestion_engine.Prelude.{
  ℕ, String, Bool, true, false, Option, none, some, List, [], ◌∷◌, ◌++◌, if◌then◌else◌,
}
use ingestion_engine.GoFiles.{GoSourceFile}
use ingestion_engine.Dashboard.Explorer.{Explorer, copy}
use ingestion_engine.Dashboard.View.{lit, View, label, button, line, word, number}

pub data ExplorerEvent : Type 0 where
  copy_file : ExplorerEvent
  select : GoSourceFile → ExplorerEvent

-- The text put on the clipboard, if any, and the new state.
unfoldable pub on_explorer : ExplorerEvent → Explorer → Option String × Explorer
unfolding copy
on_explorer copy_file e = copy e
on_explorer (select f) e = (none, record e { selected_file = some f })

-- The timeout that takes the copy mark away.
unfoldable pub hide_copied : Explorer → Explorer
hide_copied e = record e { copied = false }

abbrev is_chosen : Option GoSourceFile → Bool
is_chosen none = false
is_chosen (some f) = true

-- `selectedFile?.path === file.path`
unfoldable pub is_selected : Option GoSourceFile → GoSourceFile → Bool
is_selected none f = false
is_selected (some g) f = str_eq g.path f.path

unfoldable pub file_tree : Option GoSourceFile → List GoSourceFile → View ExplorerEvent
unfolding is_selected
file_tree chosen [] = []
file_tree chosen (f ∷ rest) =
    button true (is_selected chosen f) (word f.path) (select f) ∷ file_tree chosen rest

-- Without a file the number of lines is missing and its unit is not. The number of lines of a text is
-- a parameter: `content.split('\n').length`.
unfoldable pub file_view : (String → ℕ) → Option GoSourceFile → View ExplorerEvent
file_view count_lines none = label [] ∷ line " lines" ∷ label [] ∷ []
file_view count_lines (some f) =
    line f.path ∷ label (number (count_lines f.content) ∷ lit " lines" ∷ []) ∷ line f.content ∷ []

unfoldable pub explorer_view : (String → ℕ) → Explorer → View ExplorerEvent
unfolding file_tree file_view
explorer_view count_lines e =
    line "Production Go Concurrency Engine Source Code"
    ∷ line "Go 1.22+ Standard Lib & Drivers"
    ∷ line
        "Complete idiomatic implementation of worker pools, bounded channels, token bucket limiter, and batch flusher."
    ∷ button (is_chosen e.selected_file) false (word (if e.copied then "Copied!" else "Copy File"))
        copy_file
    ∷ (if e.loading
        then line "Loading Go repository manifests..." ∷ []
        else line "Repository Tree" ∷ file_tree e.selected_file e.files
          ++ line "Quick Run"
            ∷ line "go run cmd/server/main.go"
            ∷ file_view count_lines e.selected_file)
