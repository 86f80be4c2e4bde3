-- ===== src/Dashboard/View.antt =====
-- What a component shows: its texts, charts and controls, in the order of the document. Layout, colours
-- and icons are left out.
use ingestion_engine.Prelude.{
  ℕ, String, Bool, true, false, Option, none, some, List, [], ◌∷◌, ◌++◌, ℤ, pos,
}
pub mod Clicks

-- A piece of a text: fixed, a number as `String` prints it, a number as `toLocaleString` does, or a
-- decimal number by its digits after the point and its value in units of the last one.
pub data Part : Type 0 where
  lit : String → Part
  whole : ℤ → Part
  grouped : ℤ → Part
  scaled : ℕ → ℤ → Part

abbrev pub Text : Type 0
Text = List Part

-- A control has the event of its handler. A button is enabled or not, and shown as selected or not.
pub data Item {ℓ} (A : Type ℓ) : Type ℓ where
  label : Text → Item A
  button : Bool → Bool → Text → A → Item A
  -- least, greatest, step, value; a user sets a natural number
  slider : ℕ → ℕ → ℕ → ℤ → (ℕ → A) → Item A
  -- placeholder, value
  entry : String → String → (String → A) → Item A
  -- options, value
  choice : List String → String → (String → A) → Item A
  -- the areas of a chart by their names: the values over the times
  chart : List (String × List (String × Part)) → Item A

abbrev pub View : Type 0 → Type 0
View A = List (Item A)

abbrev pub line {ℓ} : {A : Type ℓ} → String → Item A
line s = label (lit s ∷ [])

abbrev pub lines {ℓ} : {A : Type ℓ} → List String → List (Item A)
lines [] = []
lines (s ∷ rest) = line s ∷ lines rest

abbrev pub word : String → Text
word s = lit s ∷ []

abbrev pub count : ℕ → Part
count n = grouped (pos n)

abbrev pub number : ℕ → Part
number n = whole (pos n)

module _ {A B : Type 0} (f : A → B) where
  abbrev pub map_item : Item A → Item B
  map_item (label t) = label t
  map_item (button on chosen t a) = button on chosen t (f a)
  map_item (slider lo hi step v g) = slider lo hi step v (λ x. f (g x))
  map_item (entry hint v g) = entry hint v (λ x. f (g x))
  map_item (choice options v g) = choice options v (λ x. f (g x))
  map_item (chart areas) = chart areas

  -- A component's view within that of another, which handles its events by `f`.
  abbrev pub embed : View A → View B
  embed [] = []
  embed (i ∷ r) = map_item i ∷ embed r

module _ {A : Type 0} where
  -- The events that the enabled buttons of a view send.
  abbrev pub clicks : View A → List A
  clicks [] = []
  clicks (button true chosen t a ∷ r) = a ∷ clicks r
  clicks (_ ∷ r) = clicks r
