-- ===== src/Pgsql/Conninfo/Settings.antt =====
-- The settings that a connection string stands for.
use mathlib.Core.List.{append_assoc, append-nil}
use libdbi_drivers.Prelude.{
  none, some, Option, List, [], ◌∷◌, ◌++◌, ◌≡◌, refl, sym, arith, ap, ◌∙◌, Bytes, codes, length,
}
use libdbi_drivers.Prelude.Int.{ℤ}
use libdbi_drivers.CString.Laws.{Lacks}
use libdbi_drivers.Pgsql.Conninfo.{
  Setting, text, number, Options, keyword, assignment, conninfo_append, chosen_dbname, value_text,
  append_option, append_options, or_empty, conninfo,
}
use libdbi_drivers.Pgsql.Conninfo.RoundTrip.{
  read_settings, backslashed, joined, AreKeywords, read_settings-joined,
}

-- The string of a list of settings; a null pointer for none.
abbrev string_of : List (Bytes × Bytes) → Option Bytes
string_of [] = none
string_of (p ∷ ps) = some (joined (p ∷ ps))

joined-append :
    (p : Bytes × Bytes) (ps : List (Bytes × Bytes)) (key value : Bytes)
    → joined ((p ∷ ps) ++ (key, value) ∷ [])
      ≡ joined (p ∷ ps) ++ b' ' ∷ assignment key (backslashed value)
joined-append (k, v) [] key value = refl
joined-append (k, v) (q ∷ ps) key value =
    rw
      (
        joined-append q ps key value,
        append_assoc (assignment k (backslashed v)) (b' ' ∷ joined (q ∷ ps))
            (b' ' ∷ assignment key (backslashed value)),
      )
      refl

append-string_of :
    (ps : List (Bytes × Bytes)) (key value : Bytes)
    → conninfo_append (string_of ps) key (backslashed value) ≡ string_of (ps ++ (key, value) ∷ [])
unfolding conninfo_append
append-string_of [] key value = refl
append-string_of (p ∷ ps) key value =
    ap (λ (s : Bytes). some s) (sym (joined-append p ps key value))

-- A text without quotes and backslashes.
abbrev pub IsBare : Bytes → Type 0
IsBare s = Lacks b'\'' s × Lacks b'\\' s

backslashed-IsBare : (s : Bytes) → IsBare s → backslashed s ≡ s
backslashed-IsBare [] h = refl
backslashed-IsBare (c ∷ s) ((h, hs), (k, ks)) = ground (arith, backslashed-IsBare s (hs, ks))

abbrev pub dbname_setting : Option Bytes → List (Bytes × Bytes)
dbname_setting none = []
dbname_setting (some db) = (codes "dbname", db) ∷ []

module _ (print_int : ℤ → Bytes) where
  abbrev pub plain : Setting → Bytes
  plain (text value) = value
  plain (number z) = print_int z

  abbrev pub kept_one : Option Bytes → Setting → List (Bytes × Bytes)
  kept_one none s = []
  kept_one (some key) s = (key, plain s) ∷ []

  -- The options that are not passed over, by their keywords.
  abbrev pub kept : Options → List (Bytes × Bytes)
  kept [] = []
  kept ((name, s) ∷ options) = kept_one (keyword name) s ++ kept options

  -- What a connection is opened with: the options, then the name of the database.
  abbrev pub settings : Options → Bytes → List (Bytes × Bytes)
  settings options db = kept options ++ dbname_setting (chosen_dbname options db)

module _ (escape_chars : Bytes → Bytes → Bytes) (print_int : ℤ → Bytes)
    (escapes : (s : Bytes) → escape_chars s (b'\\' ∷ b'\'' ∷ []) ≡ backslashed s)
    (bare : (z : ℤ) → IsBare (print_int z)) where
  value_text-plain :
      (s : Setting) → value_text escape_chars print_int s ≡ backslashed (plain print_int s)
  value_text-plain (text value) = escapes value
  value_text-plain (number z) = sym (backslashed-IsBare (print_int z) (bare z))

  append_option-string_of :
      (ps : List (Bytes × Bytes)) (name : Bytes) (s : Setting)
      → append_option escape_chars print_int (string_of ps) name s
        ≡ string_of (ps ++ kept_one print_int (keyword name) s)
  unfolding append_option
  append_option-string_of ps name s = by_keyword (keyword name)
    where
      by_keyword :
          (k : Option Bytes)
          → elim k [
            | none ↦ string_of ps
            | some pgopt ↦
                conninfo_append (string_of ps) pgopt (value_text escape_chars print_int s)
          ]
            ≡ string_of (ps ++ kept_one print_int k s)
      by_keyword none = rw (append-nil ps) refl
      by_keyword (some pgopt) =
          rw (value_text-plain s) (append-string_of ps pgopt (plain print_int s))

  append_options-cons :
      (conninfo' : Option Bytes) (name : Bytes) (s : Setting) (options : Options)
      → append_options escape_chars print_int conninfo' ((name, s) ∷ options)
        ≡ append_options escape_chars print_int
            (append_option escape_chars print_int conninfo' name s)
            options
  unfolding append_options
  append_options-cons conninfo' name s options = refl

  append_options-string_of :
      (ps : List (Bytes × Bytes)) (options : Options)
      → append_options escape_chars print_int (string_of ps) options
        ≡ string_of (ps ++ kept print_int options)
  append_options-string_of ps [] = unfold append_options in rw (append-nil ps) refl
  append_options-string_of ps ((name, s) ∷ options) =
      rw
        (
          append_options-cons (string_of ps) name s options,
          append_option-string_of ps name s,
          append_options-string_of (ps ++ kept_one print_int (keyword name) s) options,
          append_assoc ps (kept_one print_int (keyword name) s) (kept print_int options),
        )
        refl

  or_empty-string_of : (ps : List (Bytes × Bytes)) → or_empty (string_of ps) ≡ joined ps
  or_empty-string_of [] = refl
  or_empty-string_of (p ∷ ps) = refl

  conninfo-joined :
      (options : Options) (db : Bytes)
      → conninfo escape_chars print_int options db ≡ joined (settings print_int options db)
  unfolding conninfo
  conninfo-joined options db =
      by_dbname (chosen_dbname options db) ∙ or_empty-string_of (settings print_int options db)
    where
      by_dbname :
          (o : Option Bytes)
          → or_empty (elim o [
            | none ↦ append_options escape_chars print_int none options
            | some dbname ↦
                conninfo_append
                  (append_options escape_chars print_int none options)
                  (codes "dbname")
                  (escape_chars dbname (b'\\' ∷ b'\'' ∷ []))
          ])
            ≡ or_empty (string_of (kept print_int options ++ dbname_setting o))
      by_dbname none =
          rw (append_options-string_of [] options, append-nil (kept print_int options)) refl
      by_dbname (some dbname) =
          rw
            (
              append_options-string_of [] options,
              escapes dbname,
              append-string_of (kept print_int options) (codes "dbname") dbname,
            )
            refl

  -- libpq reads out of the connection string each option that is not passed over, under its keyword
  -- and with the value that it has, and behind them the name of the database: no value can end
  -- early or bring in a setting of its own. Keywords hold no space and no equals sign.
  pub read_settings-conninfo :
      (options : Options) (db : Bytes)
      → AreKeywords (settings print_int options db)
      → read_settings
          (length (settings print_int options db))
          (conninfo escape_chars print_int options db)
        ≡ some (settings print_int options db)
  read_settings-conninfo options db h =
      rw (conninfo-joined options db) (read_settings-joined _ _ (omega arith) h)
