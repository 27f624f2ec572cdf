-- ===== src/Mysql/Types/Sized.antt =====
-- The attributes of the fields of a result.
use libdbi_drivers.Prelude.{ℕ, Bool, arith, Bytes}
use libdbi_drivers.Dbi.Sized.{SizedAs}
use libdbi_drivers.Mysql.Types.{MysqlType, tiny, MysqlField, field_info}

pub field_info-SizedAs : (f : MysqlField) → SizedAs (field_info f).type (field_info f).attribs
unfolding field_info
field_info-SizedAs f = by_type f.type f.charsetnr f.is_unsigned f.name
  where
    by_type :
        (t : MysqlType) (charsetnr : ℕ) (u : Bool) (n : Bytes)
        → SizedAs
            (field_info
              (record { name = n; type = t; charsetnr = charsetnr; is_unsigned = u })).type
            (field_info
              (record { name = n; type = t; charsetnr = charsetnr; is_unsigned = u })).attribs
    by_type tiny charsetnr u n = ground arith
    by_type _ charsetnr u n = ground arith
