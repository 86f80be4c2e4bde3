-- ===== src/Dashboard/Sliders.antt =====
-- src/components/ConfigPanel.tsx: the panel around the form, its six sliders and the indicator of saving.
use ingestion_engine.Prelude.{
  ℕ, ℤ, pos, String, Bool, true, false, not, Option, none, some, List, [], ◌∷◌, ◌++◌, if◌then◌else◌,
}
use ingestion_engine.Server.{Request}
use ingestion_engine.Dashboard.Home.{send_config}
use ingestion_engine.Dashboard.ConfigForm.{Form, new_form, submission}
use ingestion_engine.Dashboard.Boxes.{
  Setting, workers, capacity, threshold, window, rate, burst, SliderBox, slider_box,
}
use ingestion_engine.Dashboard.View.{
  View, Part, lit, whole, grouped, label, button, slider, line, lines, word,
}
pub mod Saved

-- The state of the component: the form and the two flags.
pub record Panel : Type 0 where
  pub form : Form
  pub is_saving : Bool
  pub saved_success : Bool

unfoldable pub new_panel : Panel
unfolding new_form
new_panel = record { form = new_form; is_saving = false; saved_success = false }

unfoldable pub set_field : Setting → ℕ → Form → Form
set_field workers x form = record form { worker_count = pos x }
set_field capacity x form = record form { channel_capacity = pos x }
set_field threshold x form = record form { batch_threshold = pos x }
set_field window x form = record form { batch_flush_window_ms = pos x }
set_field rate x form = record form { rate_limit_rps = pos x }
set_field burst x form = record form { rate_limit_burst = pos x }

unfoldable pub get_field : Setting → Form → ℤ
get_field workers form = form.worker_count
get_field capacity form = form.channel_capacity
get_field threshold form = form.batch_threshold
get_field window form = form.batch_flush_window_ms
get_field rate form = form.rate_limit_rps
get_field burst form = form.rate_limit_burst

pub data FormEvent : Type 0 where
  slide : Setting → ℕ → FormEvent
  submit : FormEvent

-- `handleSubmit` up to the request, and the six handlers of the sliders.
unfoldable pub on_form : FormEvent → Panel → Option Request × Panel
unfolding set_field submission
on_form (slide setting x) p = (none, record p { form = set_field setting x p.form })
on_form submit p = (some (send_config (submission p.form)), record p { is_saving = true })

-- The rest of `handleSubmit`: whether the request succeeded.
unfoldable pub config_saved : Bool → Panel → Panel
config_saved true p = record p { is_saving = false; saved_success = true }
config_saved false p = record p { is_saving = false }

-- The timeout that takes the indicator away.
unfoldable pub hide_saved : Panel → Panel
hide_saved p = record p { saved_success = false }

unfoldable pub box_view : Setting → Form → View FormEvent
unfolding slider_box get_field
box_view setting form =
    let b = slider_box setting in
    let x = get_field setting form in
    line b.title
      ∷ label (b.shown x ∷ lit b.unit ∷ [])
      ∷ slider b.least b.greatest b.step x (slide setting)
      ∷ lines b.marks
    ++ line b.text ∷ []

-- The notice of a saved form, and the six boxes.
unfoldable pub settings_view : Bool → Form → View FormEvent
unfolding box_view
settings_view saved form =
    (if saved then line "Config Hot-Reloaded" ∷ [] else [])
    ++ box_view workers form
    ++ box_view capacity form
    ++ box_view threshold form
    ++ box_view window form
    ++ box_view rate form
    ++ box_view burst form

unfoldable pub save_button : Panel → View FormEvent
save_button p =
    button (not p.is_saving) false
      (word (if p.is_saving then "APPLYING HOT RELOAD..." else "APPLY ENGINE CONFIG")) submit
    ∷ []

unfoldable pub panel_view : Panel → View FormEvent
unfolding settings_view save_button
panel_view p =
    line "Runtime Concurrency & Buffer Capacity Tuning"
      ∷ line
          "Dynamically reconfigure Go goroutine worker pools, channel queue boundaries, and batch flush triggers."
      ∷ settings_view p.saved_success p.form
    ++ save_button p
