-- ===== src/Msql/Rows/Values.antt =====
-- What a row's cells hold.
use libdbi_drivers.Prelude.{Option, none, some, List, [], ◌∷◌, ◌++◌, ◌≡◌, refl, Bytes}
use libdbi_drivers.Dbi.{Field, Cell, Libdbi, IsolatesAttribs}
use libdbi_drivers.Dbi.Sized.{field, IsFilled}
use libdbi_drivers.Msql.Rows.{_get_row_data}
use libdbi_drivers.Msql.Types.{MsqlType, _translate_msql_type}

-- Columns of a result, by their names and types.
abbrev pub fields_of : List (Bytes × MsqlType) → List Field
fields_of [] = []
fields_of ((name, t) ∷ cs) = field name (_translate_msql_type t) ∷ fields_of cs

abbrev pub all_some : List (Bytes × MsqlType) → List Bytes → List (Option Bytes)
all_some [] values = []
all_some (c ∷ cs) [] = some [] ∷ all_some cs []
all_some (c ∷ cs) (v ∷ values) = some v ∷ all_some cs values

abbrev pub AreFilled : {F T : Type 0} → List (Cell F T) → Type 0
AreFilled [] = Unit {0}
AreFilled (c ∷ cs) = IsFilled c × AreFilled cs

module _ (lib : Libdbi) (law : IsolatesAttribs lib) where
  open lib use {Float, Time}

  -- A row with a NULL after columns that hold values is not read: the null pointer is followed.
  pub msql_row-null :
      (columns : List (Bytes × MsqlType)) (values : List Bytes) (f : Field) (fs : List Field)
      (rest : List (Option Bytes))
      → _get_row_data lib (fields_of columns ++ f ∷ fs) (all_some columns values ++ none ∷ rest)
        ≡ none
  unfolding _get_row_data
  msql_row-null [] values f fs rest = refl
  msql_row-null ((name, t) ∷ cs) [] f fs rest =
      rw (msql_row-null cs [] f fs rest, _get_row_data) refl
  msql_row-null ((name, t) ∷ cs) (v ∷ values) f fs rest =
      rw (msql_row-null cs values f fs rest, _get_row_data) refl
