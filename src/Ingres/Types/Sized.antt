-- ===== src/Ingres/Types/Sized.antt =====
-- The types that the Ingres driver gives the fields of a result.
use libdbi_drivers.Prelude.{ℕ, ◌≡◌, ◌⊎◌, arith, ◌↔◌}
use libdbi_drivers.Dbi.Sized.{IsSized}
use libdbi_drivers.Ingres.Types.{iiapi_int, iiapi_flt, ingres_classify_field}

-- An integer has a size exactly for the lengths 1, 2, 4 and 8, and a decimal for 4 and 8.
pub ingres_classify_field_lem :
    (ds_length : ℕ)
    → (IsSized (ingres_classify_field iiapi_int ds_length)
        ↔ ((ds_length ≡ 1) ⊎ (ds_length ≡ 2) ⊎ (ds_length ≡ 4) ⊎ (ds_length ≡ 8)))
      × (IsSized (ingres_classify_field iiapi_flt ds_length) ↔ ((ds_length ≡ 4) ⊎ (ds_length ≡ 8)))
unfolding ingres_classify_field
ingres_classify_field_lem ds_length = ground arith
