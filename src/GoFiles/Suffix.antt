-- ===== src/GoFiles/Suffix.antt =====
-- `endsWith`, on its description character by character.
use Prim.Native.Char.{Char, len_utf8}
use Prim.Native.String.{◌++◌ as concat, len, slice}
use Prim.Native.String.append
use Prim.Native.String.len
use Prim.Native.String.slice
use text.Mathlib.Text.{◌==◌ as str_eq}
use text.Mathlib.TextEquality.{eq_iff}
use text.Mathlib.TextPositions.{len-append, slice_all, slice-append_right, eq_refl}
use native.Mathlib.Nat.{add-sub_cancel_left}
use ingestion_engine.Prelude.{
  ℕ, zero, suc, ◌+◌, ◌-◌, ◌≡◌, refl, sym, subst, ◌∙◌, ap, arith, String, Bool, true, false, ◌||◌,
  Bool-cases, inl, inr,
}
use ingestion_engine.GoFiles.{ends_with}

-- A text is at the end of another: it is all of it, or at the end of what follows the first character.
abbrev pub is_suffix : String → String → Bool
is_suffix t String.[] = str_eq String.[] t
is_suffix t (String.◌∷◌ c s) = str_eq (String.◌∷◌ c s) t || is_suffix t s

or_true : (b : Bool) → (b || true) ≡ true
or_true b = ground arith

after_step :
    (c : Char) (s : String) (k : ℕ)
    → slice (String.◌∷◌ c s) (suc k) (len (String.◌∷◌ c s)) ≡ slice s (suc k - len_utf8 c) (len s)
after_step c s k =
    ap (λ n. slice (String.◌∷◌ c s) (suc k) n) (len.cons c s)
    ∙ slice.cons-suc c s k (len_utf8 c + len s)
    ∙ ap (λ n. slice s (suc k - len_utf8 c) n) (add-sub_cancel_left (len_utf8 c) (len s))

-- What stands after a position is a suffix.
slice-suffix : (s : String) (k : ℕ) → is_suffix (slice s k (len s)) s ≡ true
slice-suffix String.[] k = ap (λ x. str_eq "" x) (slice.nil k (len ""))
slice-suffix (String.◌∷◌ c s) zero =
    let all = String.◌∷◌ c s in
    ap (λ x. str_eq all x || is_suffix x s) (slice_all all)
    ∙ ap (λ b. b || is_suffix all s) (eq_refl all)
slice-suffix (String.◌∷◌ c s) (suc k) =
    let all = String.◌∷◌ c s in
    let rest = suc k - len_utf8 c in
    ap (λ x. str_eq all x || is_suffix x s) (after_step c s k)
    ∙ ap (λ b. str_eq all (slice s rest (len s)) || b) (slice-suffix s rest)
    ∙ or_true (str_eq all (slice s rest (len s)))

suffix_split : (t s : String) → is_suffix t s ≡ true → (u : String) × (s ≡ concat u t)
suffix_split t String.[] h = (String.[], (eq_iff "" t).0 h ∙ sym (append.nil t))
suffix_split t (String.◌∷◌ c s) h = elim (Bool-cases (str_eq (String.◌∷◌ c s) t)) [
  | inl same ↦ (String.[], (eq_iff (String.◌∷◌ c s) t).0 same ∙ sym (append.nil t))
  | inr other ↦
      let (u, e) = suffix_split t s (sym (ap (λ b. b || is_suffix t s) other) ∙ h) in
      (String.◌∷◌ c u, ap (String.◌∷◌ c) e ∙ sym (append.cons c u t))
]

ends_with-concat : (u t : String) → ends_with (concat u t) t ≡ true
unfolding ends_with
ends_with-concat u t =
    let from : (len u + len t) - len t ≡ len u = omega arith in
    ap (λ n. str_eq (slice (concat u t) (n - len t) n) t) (len-append u t)
    ∙ ap (λ k. str_eq (slice (concat u t) k (len u + len t)) t) from
    ∙ ap (λ x. str_eq x t) (slice-append_right u t)
    ∙ eq_refl t

ends_with_split : (s t : String) → ends_with s t ≡ true → is_suffix t s ≡ true
unfolding ends_with
ends_with_split s t h =
    let e = (eq_iff (slice s (len s - len t) (len s)) t).0 h in
    subst (λ x. is_suffix x s ≡ true) e (slice-suffix s (len s - len t))

bool_iff : (a b : Bool) → (a ≡ true → b ≡ true) → (b ≡ true → a ≡ true) → a ≡ b
bool_iff true b f g = sym (f refl)
bool_iff false true f g = g refl
bool_iff false false f g = refl

pub ends_with-is_suffix : (s t : String) → ends_with s t ≡ is_suffix t s
ends_with-is_suffix s t =
    bool_iff (ends_with s t) (is_suffix t s) (ends_with_split s t)
      (λ h. let (u, e) = suffix_split t s h in ap (λ x. ends_with x t) e ∙ ends_with-concat u t)
