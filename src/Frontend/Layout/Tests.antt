-- ===== src/Frontend/Layout/Tests.antt =====
-- The theorem on layouts at concrete values.
use lo_ra_dbase.Common.{◌≡◌, refl, none, some, [], ◌∷◌, nat_eq, string_eq}
use lo_ra_dbase.Frontend.Layout.{
  DashboardLayout, WidgetInstance, add_widget, delete_widget, get_default_layout, sizes_of, bottom,
}
use lo_ra_dbase.Frontend.Layout.Tidy.{IsTidy}
use lo_ra_dbase.Table.{first}
use lo_ra_dbase.Frontend.Layout.Reach.{
  Reach, Reach-IsTidy, empty-IsTidy, then_step, here, added, deleted,
}
use lo_ra_dbase.Table.Keys.{by_key}

abbrev gauge : WidgetInstance
gauge = record {
  id = "a";
  dev_eui = "0123456789ABCDEF";
  device_type = none;
  measurement_id = some "battery";
  widget_type = some "gauge";
  template_id = none;
  section_overrides = none;
  section_order = none;
  inner_layout = none;
  inner_layout_locked = none;
  title = none;
  config = none;
  conversion = none;
  custom_y_axis_min = none;
  custom_y_axis_max = none;
}

abbrev status : WidgetInstance
status = record gauge { id = "b"; widget_type = some "status" }

abbrev one : DashboardLayout
one = add_widget gauge get_default_layout

abbrev two : DashboardLayout
two = add_widget status one

-- the second widget stands below the first
two_lem :
    two.layouts.lg
    ≡ record { i = "a"; x = 0; y = 0; w = 4; h = 4 }
      ∷ record { i = "b"; x = 0; y = 4; w = 3; h = 2 }
      ∷ []
unfolding add_widget sizes_of bottom
two_lem = refl

one_new : by_key (λ (w : WidgetInstance). w.id) "b" one.widgets ≡ none
unfolding first add_widget
one_new = refl

zero_new : by_key (λ (w : WidgetInstance). w.id) "a" get_default_layout.widgets ≡ none
unfolding first
zero_new = refl

steps : Reach get_default_layout (delete_widget "a" two)
steps =
    then_step get_default_layout two (delete_widget "a" two)
      (then_step get_default_layout one two
        (then_step get_default_layout get_default_layout one (here get_default_layout)
          (added gauge get_default_layout zero_new))
        (added status one one_new))
      (deleted "a" two)

Reach-IsTidy_example : IsTidy (delete_widget "a" two)
Reach-IsTidy_example = Reach-IsTidy get_default_layout (delete_widget "a" two) empty-IsTidy steps
