-- ===== src/Ingres/Query/Groups.antt =====
-- The columns of the calls of `IIapi_getColumns`.
use libdbi_drivers.Prelude.{
  ℕ, zero, suc, ◌≤◌, ◌<◌, Bool, true, false, some, List, [], ◌∷◌, ◌++◌, ◌≡◌, refl, ap, ◌∙◌, arith,
  length,
}
use libdbi_drivers.Ingres.Query.{to_next_long, one_group, groups}

abbrev pub AllShort : List Bool → Type 0
AllShort [] = Unit {0}
AllShort (true ∷ columns) = ⊥
AllShort (false ∷ columns) = AllShort columns

-- A long column alone, or some that are not long.
abbrev pub IsGroup : List Bool → Type 0
IsGroup [] = ⊥
IsGroup (true ∷ []) = Unit {0}
IsGroup (true ∷ c ∷ columns) = ⊥
IsGroup (false ∷ columns) = AllShort columns

abbrev pub AreGroups : List (List Bool) → Type 0
AreGroups [] = Unit {0}
AreGroups (g ∷ gs) = IsGroup g × AreGroups gs

abbrev pub joined : List (List Bool) → List Bool
joined [] = []
joined (g ∷ gs) = g ++ joined gs

to_next_long-parts :
    (columns : List Bool)
    → AllShort (to_next_long columns).0
      × ((to_next_long columns).0 ++ (to_next_long columns).1 ≡ columns)
      × (length (to_next_long columns).1 ≤ length columns)
unfolding to_next_long
to_next_long-parts [] = (tt, refl, omega arith)
to_next_long-parts (true ∷ columns) = (tt, refl, omega arith)
to_next_long-parts (false ∷ columns) =
    let (short, whole, le) = to_next_long-parts columns in
    (short, ap (λ s. false ∷ s) whole, omega arith)

one_group-parts :
    (c : Bool) (columns : List Bool)
    → IsGroup (one_group (c ∷ columns)).0
      × ((one_group (c ∷ columns)).0 ++ (one_group (c ∷ columns)).1 ≡ c ∷ columns)
      × (length (one_group (c ∷ columns)).1 < length (c ∷ columns))
unfolding one_group to_next_long
one_group-parts true columns = (tt, refl, omega arith)
one_group-parts false columns =
    let (short, whole, le) = to_next_long-parts columns in
    (short, ap (λ s. false ∷ s) whole, omega arith)

-- The loop over the columns ends, with any fuel above their number. Its calls ask for every column once and in
-- order, for a long one alone, and for no other with it.
pub groups-AreGroups :
    (fuel : ℕ) (columns : List Bool)
    → length columns < fuel
    → (gs : List (List Bool)) × (groups fuel columns ≡ some gs)
      × AreGroups gs
      × (joined gs ≡ columns)
unfolding groups
groups-AreGroups zero columns h = absurd (omega arith)
groups-AreGroups (suc fuel) [] h = ([], refl, tt, refl)
groups-AreGroups (suc fuel) (c ∷ columns) h =
    let (is_group, whole, less) = one_group-parts c columns in
    let (gs, e, are, j) = groups-AreGroups fuel (one_group (c ∷ columns)).1 (omega arith) in
    (
      (one_group (c ∷ columns)).0 ∷ gs,
      rw e refl,
      (is_group, are),
      ap (λ s. (one_group (c ∷ columns)).0 ++ s) j ∙ whole,
    )
