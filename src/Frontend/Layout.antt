-- ===== src/Frontend/Layout.antt =====
-- LoRaDB-UI/frontend/src/hooks/useDashboardLayout.ts, and the parts of types/widgets.ts that it keeps: the
-- local layout and the actions on it. A field that no action reads is held as JSON, an item of a layout as
-- its name and its rectangle.
pub mod Tidy
pub mod Reach
mod Tests
use lo_ra_dbase.Common.{
  ℕ, zero, suc, ◌+◌, ◌-◌, ◌*◌, ◌/◌, ◌%◌, ◌≤◌, ◌<◌, Char, code, String, ◌≡◌, refl, sym, ap, ◌∙◌, ◌≢◌,
  ◌↔◌, ◌⊎◌, inl, inr, Bool, true, false, not, ◌&&◌, ◌||◌, Option, none, some, List, [], ◌∷◌, ◌++◌,
  map, arith, eq_iff, ltb, leb, nat_beq, nat_beq_iff, Eq, ◌==◌, nat_eq, string_eq, if◌then◌else◌,
  Bool-cases, Option-cases, false_of_not_true, beq_refl, ne_of_beq, beq_of_ne, length,
  length-append, All, All-append, All-concat, All-map, All-image, All-zip, All-every, Distinct,
  Distinct-concat,
}
use lo_ra_dbase.Table
use lo_ra_dbase.Table.{delete, insert}
use lo_ra_dbase.Json.{Json}

pub record Item : Type 0 where
  pub i : String
  pub x : ℕ
  pub y : ℕ
  pub w : ℕ
  pub h : ℕ

pub record WidgetInstance : Type 0 where
  pub id : String
  pub dev_eui : String
  pub device_type : Option String
  pub measurement_id : Option String
  pub widget_type : Option String
  pub template_id : Option String
  pub section_overrides : Option Json
  pub section_order : Option (List String)
  pub inner_layout : Option Json
  pub inner_layout_locked : Option Bool
  pub title : Option String
  pub config : Option Json
  pub conversion : Option Json
  pub custom_y_axis_min : Option Json
  pub custom_y_axis_max : Option Json

-- Partial<WidgetInstance>: the fields that the object has
pub record WidgetUpdate : Type 0 where
  pub id : Option String
  pub dev_eui : Option String
  pub device_type : Option (Option String)
  pub measurement_id : Option (Option String)
  pub widget_type : Option (Option String)
  pub template_id : Option (Option String)
  pub section_overrides : Option (Option Json)
  pub section_order : Option (Option (List String))
  pub inner_layout : Option (Option Json)
  pub inner_layout_locked : Option (Option Bool)
  pub title : Option (Option String)
  pub config : Option (Option Json)
  pub conversion : Option (Option Json)
  pub custom_y_axis_min : Option (Option Json)
  pub custom_y_axis_max : Option (Option Json)

pub record Layouts : Type 0 where
  pub lg : List Item
  pub md : Option (List Item)
  pub sm : Option (List Item)

pub record DashboardLayout : Type 0 where
  pub version : String
  pub time_range : String
  pub auto_refresh : Bool
  pub refresh_interval : ℕ
  pub widgets : List WidgetInstance
  pub layouts : Layouts

-- utils/dashboardStorage.ts
abbrev pub get_default_layout : DashboardLayout
get_default_layout = record {
  version = "2.0";
  time_range = "24h";
  auto_refresh = true;
  refresh_interval = 60;
  widgets = [];
  layouts = record { lg = []; md = none; sm = none };
}

abbrev pub items_of : Option (List Item) → List Item
items_of none = []
items_of (some items) = items

-- Math.max of y + h, 0 where there is no item
unfoldable pub bottom : List Item → ℕ
bottom [] = 0
bottom (it ∷ items) =
    let rest = bottom items in if ltb rest (it.y + it.h) then it.y + it.h else rest

pub record Size : Type 0 where
  pub w : ℕ
  pub h : ℕ

pub record Sizes : Type 0 where
  pub lg : Size
  pub md : Size
  pub sm : Size

abbrev sizes : ℕ → ℕ → ℕ → ℕ → ℕ → ℕ → Sizes
sizes lg_w lg_h md_w md_h sm_w sm_h = record {
  lg = record { w = lg_w; h = lg_h };
  md = record { w = md_w; h = md_h };
  sm = record { w = sm_w; h = sm_h };
}

abbrev composite_sizes : Sizes
composite_sizes = sizes 8 6 6 6 2 6

unfoldable pub sizes_of : Option String → Sizes
sizes_of none = composite_sizes
sizes_of (some t) =
    if t == ""
    then composite_sizes
    else if t == "current-value" || t == "status"
    then sizes 3 2 3 2 2 3
    else if t == "gauge"
    then sizes 4 4 3 4 2 4
    else if t == "time-series"
    then sizes 6 4 6 4 2 4
    else sizes 4 4 3 4 2 4

abbrev pub new_item : String → Size → List Item → Item
new_item id size items = record { i = id; x = 0; y = bottom items; w = size.w; h = size.h }

abbrev pub below : String → Size → List Item → List Item
below id size items = insert (new_item id size items) items

unfoldable pub add_widget : WidgetInstance → DashboardLayout → DashboardLayout
add_widget widget prev =
    let size = sizes_of widget.widget_type in
    record prev {
      widgets = insert widget prev.widgets;
      layouts = record {
        lg = below widget.id size.lg prev.layouts.lg;
        md = some (below widget.id size.md (items_of prev.layouts.md));
        sm = some (below widget.id size.sm (items_of prev.layouts.sm));
      };
    }

abbrev or_kept {ℓ} : {A : Type ℓ} → Option A → A → A
or_kept none kept = kept
or_kept (some given) kept = given

-- { ...w, ...updates }
abbrev pub spread : WidgetUpdate → WidgetInstance → WidgetInstance
spread u w = record {
  id = or_kept u.id w.id;
  dev_eui = or_kept u.dev_eui w.dev_eui;
  device_type = or_kept u.device_type w.device_type;
  measurement_id = or_kept u.measurement_id w.measurement_id;
  widget_type = or_kept u.widget_type w.widget_type;
  template_id = or_kept u.template_id w.template_id;
  section_overrides = or_kept u.section_overrides w.section_overrides;
  section_order = or_kept u.section_order w.section_order;
  inner_layout = or_kept u.inner_layout w.inner_layout;
  inner_layout_locked = or_kept u.inner_layout_locked w.inner_layout_locked;
  title = or_kept u.title w.title;
  config = or_kept u.config w.config;
  conversion = or_kept u.conversion w.conversion;
  custom_y_axis_min = or_kept u.custom_y_axis_min w.custom_y_axis_min;
  custom_y_axis_max = or_kept u.custom_y_axis_max w.custom_y_axis_max;
}

unfoldable pub update_widget : String → WidgetUpdate → DashboardLayout → DashboardLayout
update_widget id updates prev = record prev {
  widgets = Table.update (λ (w : WidgetInstance). w.id == id) (spread updates) prev.widgets;
}

abbrev pub without : String → List Item → List Item
without id items = delete (λ (it : Item). it.i == id) items

unfoldable pub delete_widget : String → DashboardLayout → DashboardLayout
delete_widget id prev = record prev {
  widgets = delete (λ (w : WidgetInstance). w.id == id) prev.widgets;
  layouts = record {
    lg = without id prev.layouts.lg;
    md = some (without id (items_of prev.layouts.md));
    sm = some (without id (items_of prev.layouts.sm));
  };
}

-- the layouts that react-grid-layout reports, in which each breakpoint may be missing
pub record AllLayouts : Type 0 where
  pub lg : Option (List Item)
  pub md : Option (List Item)
  pub sm : Option (List Item)

abbrev pub reported : List Item → AllLayouts → Layouts
reported layout all = record {
  lg = elim all.lg [ none ↦ layout | some items ↦ items ];
  md = all.md;
  sm = all.sm;
}

unfoldable pub update_layout : List Item → AllLayouts → DashboardLayout → DashboardLayout
update_layout layout all prev = record prev { layouts = reported layout all }

abbrev pub set_time_range : String → DashboardLayout → DashboardLayout
set_time_range time_range prev = record prev { time_range = time_range }

abbrev pub set_auto_refresh : Bool → DashboardLayout → DashboardLayout
set_auto_refresh auto_refresh prev = record prev { auto_refresh = auto_refresh }

abbrev pub set_refresh_interval : ℕ → DashboardLayout → DashboardLayout
set_refresh_interval refresh_interval prev = record prev { refresh_interval = refresh_interval }

abbrev pub reset_dashboard : DashboardLayout → DashboardLayout
reset_dashboard prev = get_default_layout

abbrev pub load_layout : DashboardLayout → DashboardLayout → DashboardLayout
load_layout new_layout prev = new_layout
