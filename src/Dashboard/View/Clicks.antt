-- ===== src/Dashboard/View/Clicks.antt =====
-- Predicates on what the enabled buttons of a view send.
use ingestion_engine.Prelude.{◌≡◌, refl, Bool, true, false, [], ◌∷◌, ◌++◌, All, if◌then◌else◌}
use ingestion_engine.Dashboard.View.{
  Text, label, button, slider, entry, choice, chart, View, embed, clicks,
}

module _ {A : Type 0} (P : A → Type 0) where
  abbrev pub Clicks : View A → Type 0
  Clicks v = All P (clicks v)

  pub Clicks-all : ((a : A) → P a) → (v : View A) → Clicks v
  Clicks-all h [] = tt
  Clicks-all h (label t ∷ r) = Clicks-all h r
  Clicks-all h (button true chosen t a ∷ r) = (h a, Clicks-all h r)
  Clicks-all h (button false chosen t a ∷ r) = Clicks-all h r
  Clicks-all h (slider lo hi step v g ∷ r) = Clicks-all h r
  Clicks-all h (entry hint v g ∷ r) = Clicks-all h r
  Clicks-all h (choice options v g ∷ r) = Clicks-all h r
  Clicks-all h (chart areas ∷ r) = Clicks-all h r

  pub Clicks-append : (v w : View A) → Clicks v → Clicks w → Clicks (v ++ w)
  Clicks-append [] w h k = k
  Clicks-append (label t ∷ r) w h k = Clicks-append r w h k
  Clicks-append (button true chosen t a ∷ r) w h k = (h.0, Clicks-append r w h.1 k)
  Clicks-append (button false chosen t a ∷ r) w h k = Clicks-append r w h k
  Clicks-append (slider lo hi step v g ∷ r) w h k = Clicks-append r w h k
  Clicks-append (entry hint v g ∷ r) w h k = Clicks-append r w h k
  Clicks-append (choice options v g ∷ r) w h k = Clicks-append r w h k
  Clicks-append (chart areas ∷ r) w h k = Clicks-append r w h k

  pub Clicks-if : (b : Bool) (v w : View A) → Clicks v → Clicks w → Clicks (if b then v else w)
  Clicks-if true v w h k = h
  Clicks-if false v w h k = k

  -- A button that may be disabled.
  pub Clicks-button :
      (on chosen : Bool) (t : Text) (a : A) (r : View A)
      → (on ≡ true → P a)
      → Clicks r
      → Clicks (button on chosen t a ∷ r)
  Clicks-button true chosen t a r h k = (h refl, k)
  Clicks-button false chosen t a r h k = k

-- A component's view within another.
module _ {A B : Type 0} (f : A → B) (P : B → Type 0) where
  pub Clicks-embed : (v : View A) → Clicks (λ a. P (f a)) v → Clicks P (embed f v)
  Clicks-embed [] h = tt
  Clicks-embed (label t ∷ r) h = Clicks-embed r h
  Clicks-embed (button true chosen t a ∷ r) h = (h.0, Clicks-embed r h.1)
  Clicks-embed (button false chosen t a ∷ r) h = Clicks-embed r h
  Clicks-embed (slider lo hi step v g ∷ r) h = Clicks-embed r h
  Clicks-embed (entry hint v g ∷ r) h = Clicks-embed r h
  Clicks-embed (choice options v g ∷ r) h = Clicks-embed r h
  Clicks-embed (chart areas ∷ r) h = Clicks-embed r h

  pub Clicks-embed_all : (v : View A) → ((a : A) → P (f a)) → Clicks P (embed f v)
  Clicks-embed_all v h = Clicks-embed v (Clicks-all (λ a. P (f a)) h v)
