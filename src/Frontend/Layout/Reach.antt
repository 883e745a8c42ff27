-- ===== src/Frontend/Layout/Reach.antt =====
-- The actions of the dashboard, one after another, from a tidy layout.
use lo_ra_dbase.Common.{
  ℕ, ◌≤◌, String, ◌≡◌, refl, sym, ap, ◌∙◌, inl, inr, Bool, Option, none, some, List, [], ◌∷◌, ◌++◌,
  map, arith, ◌==◌, nat_eq, string_eq, Bool-cases, map-concat,
}
use lo_ra_dbase.Table
use lo_ra_dbase.Table.{delete}
use lo_ra_dbase.Frontend.Layout.{
  DashboardLayout, Item, WidgetUpdate, add_widget, delete_widget, sizes_of, update_widget,
  WidgetInstance, get_default_layout, spread, without, AllLayouts, update_layout, items_of,
  new_item, set_time_range, set_auto_refresh, set_refresh_interval, reset_dashboard, load_layout,
}
use lo_ra_dbase.Frontend.Layout.Tidy.{
  IsTidy, IsPlaced, update-IsPlaced, without-IsPlaced, below-IsPlaced,
}
use lo_ra_dbase.Table.Keys.{Distinct-delete, Distinct-update, by_key, Distinct-insert}

-- What the user or the grid does. A new widget has a name of its own (a UUID), an update does not rename a
-- widget, and what the grid or a file gives is tidy.
pub data Step : DashboardLayout → DashboardLayout → Type 0 where
  added :
      (widget : WidgetInstance) (l : DashboardLayout)
      → by_key (λ (w : WidgetInstance). w.id) widget.id l.widgets ≡ none
      → Step l (add_widget widget l)
  updated :
      (id : String) (u : WidgetUpdate) (l : DashboardLayout)
      → u.id ≡ none
      → Step l (update_widget id u l)
  deleted : (id : String) (l : DashboardLayout) → Step l (delete_widget id l)
  moved :
      (layout : List Item) (all : AllLayouts) (l : DashboardLayout)
      → IsTidy (update_layout layout all l)
      → Step l (update_layout layout all l)
  time_range_set : (t : String) (l : DashboardLayout) → Step l (set_time_range t l)
  auto_refresh_set : (b : Bool) (l : DashboardLayout) → Step l (set_auto_refresh b l)
  refresh_interval_set : (n : ℕ) (l : DashboardLayout) → Step l (set_refresh_interval n l)
  reset : (l : DashboardLayout) → Step l (reset_dashboard l)
  loaded : (new l : DashboardLayout) → IsTidy new → Step l (load_layout new l)

pub data Reach : DashboardLayout → DashboardLayout → Type 0 where
  here : (l : DashboardLayout) → Reach l l
  then_step : (a b c : DashboardLayout) → Reach a b → Step b c → Reach a c

sizes-fit :
    (t : Option String)
    → ((sizes_of t).lg.w ≤ 12) × ((sizes_of t).md.w ≤ 6) × ((sizes_of t).sm.w ≤ 2)
unfolding sizes_of
sizes-fit none = (omega arith, omega arith, omega arith)
sizes-fit (some t) = (ground arith, ground arith, ground arith)

names-delete :
    (id : String) (items : List Item) (widgets : List WidgetInstance)
    → map (λ (it : Item). it.i) items ≡ map (λ (w : WidgetInstance). w.id) widgets
    → map (λ (it : Item). it.i) (without id items)
      ≡ map (λ (w : WidgetInstance). w.id) (delete (λ (w : WidgetInstance). w.id == id) widgets)
unfolding delete
names-delete id [] [] h = refl
names-delete id [] (w ∷ widgets) h = absurd (cc h)
names-delete id (it ∷ items) [] h = absurd (cc h)
names-delete id (it ∷ items) (w ∷ widgets) h =
    let head : it.i ≡ w.id = cc h in
    let tail : map (λ (x : Item). x.i) items ≡ map (λ (x : WidgetInstance). x.id) widgets = cc h in
    let rest = names-delete id items widgets tail in
    elim (Bool-cases (w.id == id)) [ inl t ↦ rw (head, t) rest | inr f ↦ rw (head, f) (cc rest) ]

names-update :
    (id : String) (u : WidgetUpdate) (widgets : List WidgetInstance)
    → u.id ≡ none
    → map
        (λ (w : WidgetInstance). w.id)
        (Table.update (λ (w : WidgetInstance). w.id == id) (spread u) widgets)
      ≡ map (λ (w : WidgetInstance). w.id) widgets
unfolding Table.update
names-update id u [] same = refl
names-update id u (w ∷ widgets) same = ground (arith, same, names-update id u widgets same)

added-IsTidy :
    (widget : WidgetInstance) (l : DashboardLayout)
    → by_key (λ (w : WidgetInstance). w.id) widget.id l.widgets ≡ none
    → IsTidy l
    → IsTidy (add_widget widget l)
unfolding add_widget
added-IsTidy widget l fresh tidy =
    let fit = sizes-fit widget.widget_type in
    let size = sizes_of widget.widget_type in
    record {
      names =
          map-concat (λ (it : Item). it.i) l.layouts.lg (new_item widget.id size.lg l.layouts.lg)
          ∙ ap (λ (xs : List String). xs ++ widget.id ∷ []) tidy.names
          ∙ sym (map-concat (λ (w : WidgetInstance). w.id) l.widgets widget);
      distinct =
          Distinct-insert (λ (w : WidgetInstance). w.id) l.widgets widget tidy.distinct fresh;
      lg = below-IsPlaced 12 l.widgets l.layouts.lg tidy.lg widget size.lg fit.0;
      md = below-IsPlaced 6 l.widgets (items_of l.layouts.md) tidy.md widget size.md fit.1;
      sm = below-IsPlaced 2 l.widgets (items_of l.layouts.sm) tidy.sm widget size.sm fit.2;
    }

deleted-IsTidy : (id : String) (l : DashboardLayout) → IsTidy l → IsTidy (delete_widget id l)
unfolding delete_widget
deleted-IsTidy id l tidy = record {
  names = names-delete id l.layouts.lg l.widgets tidy.names;
  distinct =
      Distinct-delete (λ (w : WidgetInstance). w.id) (λ (w : WidgetInstance). w.id == id) l.widgets
        tidy.distinct;
  lg = without-IsPlaced 12 l.widgets l.layouts.lg tidy.lg id;
  md = without-IsPlaced 6 l.widgets (items_of l.layouts.md) tidy.md id;
  sm = without-IsPlaced 2 l.widgets (items_of l.layouts.sm) tidy.sm id;
}

updated-IsTidy :
    (id : String) (u : WidgetUpdate) (l : DashboardLayout)
    → u.id ≡ none
    → IsTidy l
    → IsTidy (update_widget id u l)
unfolding update_widget
updated-IsTidy id u l same tidy = record {
  names = tidy.names ∙ sym (names-update id u l.widgets same);
  distinct =
      Distinct-update (λ (w : WidgetInstance). w.id) (λ (w : WidgetInstance). w.id == id) (spread u)
        l.widgets (λ r t. rw same refl) tidy.distinct;
  lg = update-IsPlaced 12 l.widgets l.layouts.lg tidy.lg id u same;
  md = update-IsPlaced 6 l.widgets (items_of l.layouts.md) tidy.md id u same;
  sm = update-IsPlaced 2 l.widgets (items_of l.layouts.sm) tidy.sm id u same;
}

pub empty-IsTidy : IsTidy get_default_layout
empty-IsTidy =
    let placed : (n : ℕ) → IsPlaced n [] [] = λ n. record { inside = tt; apart = tt; owned = tt } in
    record { names = refl; distinct = tt; lg = placed 12; md = placed 6; sm = placed 2 }

same-IsTidy :
    (t : String) (b : Bool) (n : ℕ) (l : DashboardLayout)
    → IsTidy l
    → IsTidy (record l { time_range = t; auto_refresh = b; refresh_interval = n })
same-IsTidy t b n l tidy = record {
  names = tidy.names;
  distinct = tidy.distinct;
  lg = tidy.lg;
  md = tidy.md;
  sm = tidy.sm;
}

step-IsTidy : (a b : DashboardLayout) → IsTidy a → Step a b → IsTidy b
step-IsTidy _ _ tidy (added widget l fresh) = added-IsTidy widget l fresh tidy
step-IsTidy _ _ tidy (updated id u l same) = updated-IsTidy id u l same tidy
step-IsTidy _ _ tidy (deleted id l) = deleted-IsTidy id l tidy
step-IsTidy _ _ tidy (moved layout all l given) = given
step-IsTidy _ _ tidy (time_range_set t l) = same-IsTidy t l.auto_refresh l.refresh_interval l tidy
step-IsTidy _ _ tidy (auto_refresh_set b l) = same-IsTidy l.time_range b l.refresh_interval l tidy
step-IsTidy _ _ tidy (refresh_interval_set n l) = same-IsTidy l.time_range l.auto_refresh n l tidy
step-IsTidy _ _ tidy (reset l) = empty-IsTidy
step-IsTidy _ _ tidy (loaded new l given) = given

-- After any sequence of actions from a tidy layout the layout is tidy: on the widest grid the items are the
-- widgets, in their order, each with a name of its own; on each of the three grids every item belongs to a
-- widget and lies within the columns, and no two items overlap. A new widget must have a new name, an
-- update may not rename a widget, and a layout that the grid reports or that is loaded must be tidy itself.
pub Reach-IsTidy : (a b : DashboardLayout) → IsTidy a → Reach a b → IsTidy b
Reach-IsTidy _ _ tidy (here l) = tidy
Reach-IsTidy _ _ tidy (then_step a b c reached step) =
    step-IsTidy b c (Reach-IsTidy a b tidy reached) step
