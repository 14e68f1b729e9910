-- ===== src/Table/Events/Chooser.antt =====
-- The column chooser: which columns are shown after its events.
use enterprise_platform.Common.{
  String, Bool, true, false, ◌&&◌, ◌||◌, Option, none, some, List, [], ◌∷◌, ◌≡◌, refl, arith, ◌∙◌,
  if◌then◌else◌, ◌==◌, Bool-cases, inl, inr, filter, any, get_or, is_some, eq_iff, Dict, lookup,
  insert, lookup-insert,
}
use enterprise_platform.Table.Types.{ColumnDef, TableConfig}
use enterprise_platform.Table.View.{
  TableState, column_visibility, override_visibility, visibility_map, visible_columns,
}
use enterprise_platform.Table.Handlers.{
  toggle_column, set_all_columns, all_columns, reset_columns, is_toggleable,
}

abbrev over : Option Bool → Option Bool → Option Bool
over none base = base
over (some v) base = some v

abbrev has_key : String → Dict Bool → Bool
has_key j [] = false
has_key j ((k, v) ∷ d) = k == j || has_key j d

lookup-override_visibility :
    (j : String) (keys ovr rest : Dict Bool)
    → lookup j (override_visibility keys ovr rest)
      ≡ (if has_key j rest then some (get_or (lookup j ovr) true) else lookup j keys)
unfolding override_visibility
lookup-override_visibility j keys ovr [] = refl
lookup-override_visibility j keys ovr ((k, v) ∷ rest) = ground (
  arith,
  lookup-override_visibility j (insert k (get_or (lookup k ovr) true) keys) ovr rest,
  lookup-insert k j (get_or (lookup k ovr) true) keys,
  eq_iff k j,
)

has_key-lookup : (j : String) (d : Dict Bool) → has_key j d ≡ is_some (lookup j d)
unfolding lookup
has_key-lookup j [] = refl
has_key-lookup j ((k, v) ∷ d) = ground (arith, has_key-lookup j d)

-- What the configuration says of a column, when no choice overrides it.
abbrev pub configured : TableConfig → String → Bool
configured config j = get_or (lookup j (column_visibility config.columns [])) true

lookup-visibility_map :
    (config : TableConfig) (s : TableState) (j : String)
    → lookup j (visibility_map config s)
      ≡ over (lookup j s.visibility_override) (lookup j (column_visibility config.columns []))
unfolding visibility_map
lookup-visibility_map config s j =
    lookup-override_visibility j (column_visibility config.columns []) s.visibility_override
      s.visibility_override
    ∙ rw (has_key-lookup j s.visibility_override)
        (elim (lookup j s.visibility_override)
          as (λ o.
            (if is_some o
              then some (get_or o true)
              else lookup j (column_visibility config.columns []))
            ≡ over o (lookup j (column_visibility config.columns []))) [
              | none ↦ refl
              | some v ↦ refl
            ])

-- Whether the columns of a field are shown.
abbrev pub is_shown : TableConfig → TableState → String → Bool
is_shown config s j = get_or (lookup j (visibility_map config s)) true

is_shown_lem :
    (config : TableConfig) (s : TableState) (j : String)
    → is_shown config s j ≡ get_or (lookup j s.visibility_override) (configured config j)
is_shown_lem config s j =
    rw (lookup-visibility_map config s j)
      (elim (lookup j s.visibility_override)
        as (λ o.
          get_or (over o (lookup j (column_visibility config.columns []))) true
          ≡ get_or o (configured config j)) [ none ↦ refl | some v ↦ refl ])

filter_same {ℓ} :
    {A : Type ℓ} (p q : A → Bool)
    → ((x : A) → p x ≡ q x)
    → (xs : List A) → filter p xs ≡ filter q xs
filter_same p q h [] = refl
filter_same p q h (x ∷ xs) = ground (arith, filter_same p q h xs, h x)

lookup-all_columns :
    (visible : Bool) (j : String) (cs : List ColumnDef) (out : Dict Bool)
    → lookup j (all_columns visible cs out)
      ≡ (if any (λ c. is_toggleable c && c.field == j) cs then some visible else lookup j out)
unfolding all_columns
lookup-all_columns visible j [] out = refl
lookup-all_columns visible j (c ∷ cs) out = elim (Bool-cases (is_toggleable c)) [
  | inr e ↦ rw e (lookup-all_columns visible j cs out)
  | inl e ↦ rw e (
      ground (
        arith,
        lookup-all_columns visible j cs (insert c.field visible out),
        lookup-insert c.field j visible out,
      ))
]

-- The columns that are shown are these. After one field is switched on or off: its columns as
-- chosen, the others as before. After all are switched on or off: the columns whose field is the
-- field of a column that the user may switch, as chosen, and the others as the configuration has
-- them. After a reset: the columns as the configuration has them.
pub visible_columns-chooser :
    (config : TableConfig) (s : TableState) (name : String) (visible : Bool)
    → (visible_columns config (toggle_column name visible s).0
        ≡ filter
            (λ c. if name == c.field then visible else is_shown config s c.field)
            config.columns)
      × ((visible_columns config (set_all_columns config visible s).0
            ≡ filter
                (λ c.
                  if any (λ d. is_toggleable d && d.field == c.field) config.columns
                  then visible
                  else configured config c.field)
                config.columns)
          × (visible_columns config (reset_columns s).0
              ≡ filter (λ c. configured config c.field) config.columns))
unfolding visible_columns toggle_column set_all_columns
visible_columns-chooser config s name visible = (
  filter_same _ _
      (λ (c : ColumnDef).
        is_shown_lem config (toggle_column name visible s).0 c.field
        ∙ ground (
          arith,
          lookup-insert name c.field visible s.visibility_override,
          is_shown_lem config s c.field,
        ))
      config.columns,
  (
    filter_same _ _
        (λ (c : ColumnDef).
          is_shown_lem config (set_all_columns config visible s).0 c.field
          ∙ ground (arith, lookup-all_columns visible c.field config.columns []))
        config.columns,
    filter_same _ _ (λ (c : ColumnDef). is_shown_lem config (reset_columns s).0 c.field)
        config.columns,
  ),
)
