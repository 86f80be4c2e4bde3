-- ===== src/GoFiles/Paths.antt =====
-- The paths of the listing, as their names between slashes.
use Prim.Native.String.{◌++◌ as concat}
use text.Mathlib.TextLemmas.{append_assoc, cons-append}
use ingestion_engine.Prelude.{◌≡◌, refl, sym, subst, ◌∙◌, ap, String, List, [], ◌∷◌, ◌++◌, All}
use ingestion_engine.GoFiles.{join}

-- The names of a path with a slash between any two.
abbrev pub path_of : List String → String
path_of [] = ""
path_of (n ∷ []) = n
path_of (n ∷ m ∷ ns) = concat n (concat "/" (path_of (m ∷ ns)))

abbrev pub IsNamed : String → Type 0
IsNamed String.[] = ⊥
IsNamed (String.◌∷◌ c s) = Unit

IsNamed-concat : (s t : String) → IsNamed s → IsNamed (concat s t)
IsNamed-concat String.[] t h = absurd h
IsNamed-concat (String.◌∷◌ c s) t h = subst IsNamed (sym (cons-append c s t)) tt

path_of-IsNamed : (n : String) (ns : List String) → IsNamed n → IsNamed (path_of (n ∷ ns))
path_of-IsNamed n [] h = h
path_of-IsNamed n (m ∷ ns) h = IsNamed-concat n (concat "/" (path_of (m ∷ ns))) h

join-named : (s name : String) → IsNamed s → join s name ≡ concat s (concat "/" name)
unfolding join
join-named String.[] name h = absurd h
join-named (String.◌∷◌ c s) name h = refl

path_of-slash :
    (n : String) (ns : List String) (name : String)
    → path_of ((n ∷ ns) ++ name ∷ []) ≡ concat (path_of (n ∷ ns)) (concat "/" name)
path_of-slash n [] name = refl
path_of-slash n (m ∷ ns) name =
    ap (λ s. concat n (concat "/" s)) (path_of-slash m ns name)
    ∙ ap (concat n) (sym (append_assoc "/" (path_of (m ∷ ns)) (concat "/" name)))
    ∙ sym (append_assoc n (concat "/" (path_of (m ∷ ns))) (concat "/" name))

-- `path.join` of a path and a name adds the name to the path.
pub join-path_of :
    (dirs : List String) (name : String)
    → All IsNamed dirs
    → join (path_of dirs) name ≡ path_of (dirs ++ name ∷ [])
unfolding join
join-path_of [] name h = refl
join-path_of (n ∷ ns) name h =
    join-named (path_of (n ∷ ns)) name (path_of-IsNamed n ns h.0) ∙ sym (path_of-slash n ns name)
