-- ===== src/GoFiles.antt =====
-- The listing of the Go sources in server.ts: `scanDir` and the language of a file. The file system is a
-- tree that the request reads.
use Prim.Native.String.{◌++◌ as concat, len, slice}
use text.Mathlib.Text.{◌==◌ as str_eq}
use ingestion_engine.Prelude.{
  ℕ, ◌-◌, String, Bool, ◌||◌, Option, none, some, List, [], ◌∷◌, ◌++◌, if◌then◌else◌,
}
pub mod Suffix
pub mod Paths
pub mod Listing

mutual
  pub data Node : Type 0 where
    file : String → Node
    dir : Entries → Node

  pub data Entries : Type 0 where
    end : Entries
    entry : String → Node → Entries → Entries

-- `GoSourceFile` of src/types.ts
pub record GoSourceFile : Type 0 where
  pub path : String
  pub name : String
  pub content : String
  pub language : String

-- `s.endsWith(t)`
unfoldable pub ends_with : String → String → Bool
ends_with s t = str_eq (slice s (len s - len t) (len s)) t

-- The tests in their order: a later one that holds overrides an earlier one.
unfoldable pub language_of : String → String
unfolding ends_with
language_of name =
    if str_eq name "Dockerfile"
    then "dockerfile"
    else if str_eq name "Makefile"
    then "makefile"
    else if ends_with name ".md"
    then "markdown"
    else if ends_with name ".yml" || ends_with name ".yaml"
    then "yaml"
    else if ends_with name ".js"
    then "javascript"
    else "go"

-- `path.join(rel, name)`, for a relative path of plain names
unfoldable pub join : String → String → String
join String.[] name = name
join (String.◌∷◌ c s) name = concat (String.◌∷◌ c s) (concat "/" name)

unfoldable pub source_file : String → String → String → GoSourceFile
unfolding language_of
source_file rel name content = record {
  path = rel;
  name = name;
  content = content;
  language = language_of name;
}

-- `filesList` is passed along: each file goes to its end.
unfoldable mutual
  pub scan_node : Node → String → String → List GoSourceFile → List GoSourceFile
  scan_node (file content) rel name files = files ++ source_file rel name content ∷ []
  scan_node (dir es) rel name files = scan_entries es rel files

  pub scan_entries : Entries → String → List GoSourceFile → List GoSourceFile
  scan_entries end rel files = files
  scan_entries (entry name node es) rel files =
      scan_entries es rel (scan_node node (join rel name) name files)

-- The whole listing; there is none where the directory does not exist.
unfoldable pub scan_dir : Option Entries → List GoSourceFile
scan_dir none = []
scan_dir (some es) = scan_entries es "" []
