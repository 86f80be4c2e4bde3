-- ===== src/GoFiles/Listing.antt =====
-- The listing of the Go sources, on a description of its own: the names on the way to each file, and
-- the rules for its language in their order.
use mathlib.Core.List.{append-nil, append_assoc}
use text.Mathlib.Text.{◌==◌ as str_eq}
use ingestion_engine.Prelude.{
  ◌≡◌, refl, sym, ap, ◌∙◌, arith, String, Bool, some, List, [], ◌∷◌, ◌++◌, All, if◌then◌else◌,
}
use ingestion_engine.GoFiles.{
  Node, Entries, file, dir, end, entry, GoSourceFile, join, language_of, source_file, scan_node,
  scan_entries, scan_dir,
}
use ingestion_engine.GoFiles.Suffix.{is_suffix, ends_with-is_suffix}
use ingestion_engine.GoFiles.Paths.{path_of, IsNamed, join-path_of}

-- A file as the tree has it: the names of the directories on the way to it, its name and its content.
abbrev pub Leaf : Type 0
Leaf = List String × String × String

mutual
  pub leaves : Node → List String → String → List Leaf
  leaves (file content) dirs name = (dirs, name, content) ∷ []
  leaves (dir es) dirs name = entry_leaves es (dirs ++ name ∷ [])

  pub entry_leaves : Entries → List String → List Leaf
  entry_leaves end dirs = []
  entry_leaves (entry name node es) dirs = leaves node dirs name ++ entry_leaves es dirs

-- No name of the tree is empty.
unfoldable mutual
  pub HasNames : Node → Type 0
  HasNames (file content) = Unit
  HasNames (dir es) = AreNamed es

  pub AreNamed : Entries → Type 0
  AreNamed end = Unit
  AreNamed (entry name node es) = IsNamed name × HasNames node × AreNamed es

-- Tests on a file's name with their languages, in an order in which a later one that holds wins.
abbrev pub rules : List ((String → Bool) × String)
rules =
    (is_suffix ".js", "javascript")
    ∷ (is_suffix ".yml", "yaml")
    ∷ (is_suffix ".yaml", "yaml")
    ∷ (is_suffix ".md", "markdown")
    ∷ ((λ name. str_eq name "Makefile"), "makefile")
    ∷ ((λ name. str_eq name "Dockerfile"), "dockerfile")
    ∷ []

abbrev pub last_of : List ((String → Bool) × String) → String → String → String
last_of [] name language = language
last_of ((test, l) ∷ rest) name language = last_of rest name (if test name then l else language)

abbrev pub listed_file : Leaf → GoSourceFile
listed_file (dirs, name, content) = record {
  path = path_of (dirs ++ name ∷ []);
  name = name;
  content = content;
  language = last_of rules name "go";
}

abbrev pub listed : List Leaf → List GoSourceFile
listed [] = []
listed (l ∷ ls) = listed_file l ∷ listed ls

language_of-rules : (name : String) → language_of name ≡ last_of rules name "go"
unfolding language_of
language_of-rules name =
    rw
      (
        ends_with-is_suffix name ".js",
        ends_with-is_suffix name ".yml",
        ends_with-is_suffix name ".yaml",
        ends_with-is_suffix name ".md",
      )
      (ground arith)

source_file-listed :
    (dirs : List String) (name content : String)
    → source_file (path_of (dirs ++ name ∷ [])) name content ≡ listed_file (dirs, name, content)
unfolding source_file
source_file-listed dirs name content = rw (language_of-rules name) refl

listed-append : (xs ys : List Leaf) → listed (xs ++ ys) ≡ listed xs ++ listed ys
listed-append [] ys = refl
listed-append (x ∷ xs) ys = ap (◌∷◌ (listed_file x)) (listed-append xs ys)

All-snoc :
    (dirs : List String) (name : String)
    → All IsNamed dirs
    → IsNamed name
    → All IsNamed (dirs ++ name ∷ [])
All-snoc [] name h k = (k, tt)
All-snoc (d ∷ dirs) name h k = (h.0, All-snoc dirs name h.1 k)

mutual
  unfolding leaves entry_leaves scan_node scan_entries HasNames AreNamed

  scan_node-listed :
      (node : Node) (dirs : List String) (name : String) (files : List GoSourceFile)
      → All IsNamed dirs
      → IsNamed name
      → HasNames node
      → scan_node node (path_of (dirs ++ name ∷ [])) name files
        ≡ files ++ listed (leaves node dirs name)
  scan_node-listed (file content) dirs name files h k n =
      ap (λ (f : GoSourceFile). files ++ f ∷ []) (source_file-listed dirs name content)
  scan_node-listed (dir es) dirs name files h k n =
      scan_entries-listed es (dirs ++ name ∷ []) files (All-snoc dirs name h k) n

  scan_entries-listed :
      (es : Entries) (dirs : List String) (files : List GoSourceFile)
      → All IsNamed dirs
      → AreNamed es
      → scan_entries es (path_of dirs) files ≡ files ++ listed (entry_leaves es dirs)
  scan_entries-listed end dirs files h n = sym (append-nil files)
  scan_entries-listed (entry name node es) dirs files h (k, n, m) =
      let first = leaves node dirs name in
      let rest = entry_leaves es dirs in
      scan_entries-listed es dirs (scan_node node (join (path_of dirs) name) name files) h m
      ∙ ap (λ (r : String). scan_node node r name files ++ listed rest) (join-path_of dirs name h)
      ∙ ap (λ (l : List GoSourceFile). l ++ listed rest)
          (scan_node-listed node dirs name files h k n)
      ∙ append_assoc files (listed first) (listed rest)
      ∙ ap (◌++◌ files) (sym (listed-append first rest))

-- The answer to a request for the sources, where no name in the tree is empty: each file of the tree,
-- once and in the tree's order, with its content. Its path is the names on the way to it and its own
-- with a slash between any two; its language is that of the last of the rules that its name meets, and
-- else Go.
pub scan_dir-listed :
    (es : Entries) → AreNamed es → scan_dir (some es) ≡ listed (entry_leaves es [])
unfolding scan_dir
scan_dir-listed es n = scan_entries-listed es [] [] tt n
