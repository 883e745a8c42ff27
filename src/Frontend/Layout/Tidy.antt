-- ===== src/Frontend/Layout/Tidy.antt =====
-- Layouts in which every item belongs to a widget, lies inside the grid and covers no other.
use lo_ra_dbase.Common.{
  ℕ, ◌+◌, ◌≤◌, String, ◌≡◌, refl, sym, ◌∙◌, ◌≢◌, ◌⊎◌, inl, inr, none, List, [], ◌∷◌, map, arith,
  ◌==◌, nat_eq, string_eq, Bool-cases, Option-cases, beq_refl, ne_of_beq, All, All-concat, All-map,
  All-zip, Distinct,
}
use lo_ra_dbase.Table
use lo_ra_dbase.Table.{delete, insert}
use lo_ra_dbase.Frontend.Layout.{
  DashboardLayout, Item, WidgetInstance, bottom, Size, WidgetUpdate, items_of, without, below,
  spread, new_item,
}
use lo_ra_dbase.Table.Keys.{by_key, by_key-delete_ne, by_key-update}
use lo_ra_dbase.Table.Laws.{All-delete, first-append, All-delete_not, first-insert_new}

abbrev pub Apart : Item → Item → Type 0
Apart a b = (a.y + a.h ≤ b.y) ⊎ ((b.y + b.h ≤ a.y) ⊎ ((a.x + a.w ≤ b.x) ⊎ (b.x + b.w ≤ a.x)))

abbrev pub AreApart : List Item → Type 0
AreApart [] = Unit
AreApart (it ∷ items) = All (Apart it) items × AreApart items

-- the items of one breakpoint, on a grid of `columns` columns
pub record IsPlaced (columns : ℕ) (widgets : List WidgetInstance) (items : List Item) : Type 0 where
  pub inside : All (λ (it : Item). it.x + it.w ≤ columns) items
  pub apart : AreApart items
  pub owned : All (λ (it : Item). by_key (λ (w : WidgetInstance). w.id) it.i widgets ≢ none) items

-- The items of the widest breakpoint are the widgets in their order, and those of the others belong to
-- widgets; no two widgets have the same name.
pub record IsTidy (l : DashboardLayout) : Type 0 where
  pub names : map (λ (it : Item). it.i) l.layouts.lg ≡ map (λ (w : WidgetInstance). w.id) l.widgets
  pub distinct : Distinct (λ (w : WidgetInstance). w.id) l.widgets
  pub lg : IsPlaced 12 l.widgets l.layouts.lg
  pub md : IsPlaced 6 l.widgets (items_of l.layouts.md)
  pub sm : IsPlaced 2 l.widgets (items_of l.layouts.sm)

bottom-bounds : (items : List Item) → All (λ (it : Item). it.y + it.h ≤ bottom items) items
unfolding bottom
bottom-bounds [] = tt
bottom-bounds (it ∷ items) = (
  ground arith,
  All-map {Q = λ (b : Item). b.y + b.h ≤ bottom (it ∷ items)} (λ b h. ground (arith, h)) items
      (bottom-bounds items),
)

below-AreApart :
    (items : List Item) (new : Item)
    → AreApart items
    → All (λ (it : Item). it.y + it.h ≤ new.y) items
    → AreApart (insert new items)
below-AreApart [] new a h = (tt, tt)
below-AreApart (it ∷ items) new (a, rest) (h, hs) =
    (All-concat (Apart it) items new a (inl h), below-AreApart items new rest hs)

without-AreApart : (id : String) (items : List Item) → AreApart items → AreApart (without id items)
unfolding delete
without-AreApart id [] a = tt
without-AreApart id (it ∷ items) (a, rest) = elim (Bool-cases (it.i == id)) [
  | inl t ↦ rw t (without-AreApart id items rest)
  | inr f ↦
      rw f (All-delete (Apart it) (λ (b : Item). b.i == id) items a, without-AreApart id items rest)
]

module _ (columns : ℕ) (widgets : List WidgetInstance) (items : List Item)
    (p : IsPlaced columns widgets items) where
  -- a new widget of a width that the grid has, below all others
  pub below-IsPlaced :
      (widget : WidgetInstance) (size : Size)
      → size.w ≤ columns
      → IsPlaced columns (insert widget widgets) (below widget.id size items)
  below-IsPlaced widget size fits = record {
    inside =
        All-concat (λ (it : Item). it.x + it.w ≤ columns) items (new_item widget.id size items)
          p.inside (omega (arith, fits));
    apart = below-AreApart items (new_item widget.id size items) p.apart (bottom-bounds items);
    owned =
        All-concat
          (λ (it : Item). by_key (λ (w : WidgetInstance). w.id) it.i (insert widget widgets) ≢ none)
          items (new_item widget.id size items)
          (All-map
            {Q = λ (it : Item).
              by_key (λ (w : WidgetInstance). w.id) it.i (insert widget widgets) ≢ none}
            (λ it there. there_inserted widget it.i there) items p.owned)
          (there_new widget);
  }
    where
      there_inserted :
          (widget : WidgetInstance) (k : String)
          → by_key (λ (w : WidgetInstance). w.id) k widgets ≢ none
          → by_key (λ (w : WidgetInstance). w.id) k (insert widget widgets) ≢ none
      there_inserted widget k there absent =
          elim (Option-cases (by_key (λ (w : WidgetInstance). w.id) k widgets)) [
            | inl missing ↦ there missing
            | inr (w, found) ↦ absurd (
                ground (
                  arith,
                  found,
                  absent,
                  first-append (λ (w : WidgetInstance). w.id == k) widgets (widget ∷ []),
                ))
          ]

      there_new :
          (widget : WidgetInstance)
          → by_key (λ (w : WidgetInstance). w.id) widget.id (insert widget widgets) ≢ none
      there_new widget absent =
          elim (Option-cases (by_key (λ (w : WidgetInstance). w.id) widget.id widgets)) [
            | inl missing ↦ absurd (
                cc (
                  absent,
                  first-insert_new (λ (w : WidgetInstance). w.id == widget.id) widgets widget
                      missing (beq_refl widget.id),
                ))
            | inr (w, found) ↦ absurd (
                ground (
                  arith,
                  found,
                  absent,
                  first-append (λ (w : WidgetInstance). w.id == widget.id) widgets (widget ∷ []),
                ))
          ]

  pub without-IsPlaced :
      (id : String)
      → IsPlaced columns (delete (λ (w : WidgetInstance). w.id == id) widgets) (without id items)
  without-IsPlaced id = record {
    inside =
        All-delete (λ (it : Item). it.x + it.w ≤ columns) (λ (it : Item). it.i == id) items
          p.inside;
    apart = without-AreApart id items p.apart;
    owned =
        All-zip
          {R = λ (it : Item).
            by_key (λ (w : WidgetInstance). w.id) it.i
              (delete (λ (w : WidgetInstance). w.id == id) widgets)
            ≢ none}
          (λ it other there absent. there (
            sym (
              by_key-delete_ne (λ (w : WidgetInstance). w.id) id it.i widgets
                (λ e. ne_of_beq it.i id other (sym e)))
            ∙ absent))
          (without id items) (All-delete_not (λ (it : Item). it.i == id) items)
          (All-delete (λ (it : Item). by_key (λ (w : WidgetInstance). w.id) it.i widgets ≢ none)
            (λ (it : Item). it.i == id) items p.owned);
  }

  pub update-IsPlaced :
      (id : String) (u : WidgetUpdate)
      → u.id ≡ none
      → IsPlaced columns
          (Table.update (λ (w : WidgetInstance). w.id == id) (spread u) widgets)
          items
  update-IsPlaced id u same = record {
    inside = p.inside;
    apart = p.apart;
    owned =
        All-map
          {Q = λ (it : Item).
            by_key (λ (w : WidgetInstance). w.id) it.i
              (Table.update (λ (w : WidgetInstance). w.id == id) (spread u) widgets)
            ≢ none}
          (λ it there absent.
            elim (Option-cases (by_key (λ (w : WidgetInstance). w.id) it.i widgets)) [
              | inl missing ↦ there missing
              | inr (w, found) ↦ absurd (
                  ground (
                    arith,
                    found,
                    absent,
                    by_key-update (λ (w : WidgetInstance). w.id)
                        (λ (w : WidgetInstance). w.id == id) (spread u) it.i widgets
                        (λ r t. rw same refl),
                  ))
            ])
          items p.owned;
  }
