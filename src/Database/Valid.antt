-- ===== src/Database/Valid.antt =====
-- Every table of a database meets its constraints: an invariant of the calls on a database.
use essa_db.Prelude.{
  ℕ, Str, str_eq, Bool, true, false, Option, none, some, List, ◌∷◌, if◌then◌else◌, Result, ok, err,
  undefined, ◌≡◌, refl, ◌∙◌, ap, suc, [], ok-injective, All, Bool-cases, inl, inr, DbError, subst,
}
use essa_db.Value.Types.{Platform}
use essa_db.Row.{Tuple, Column}
use essa_db.Expression.{Context}
use essa_db.Expression.Check.{Check}
use essa_db.Table.State.{Table, get_column}
use essa_db.Table.Insert.{insert}
use essa_db.Table.Valid.{IsValid, ValidRows, UniqueFrom, KeyHolds, KeyAt}
use essa_db.Table.Inserted.{insert-IsValid}
use essa_db.Database.Action.{
  Database, Engine, memory, edb, Action, pure, raise, lift, gets, continue, ◌>>=◌, find_table,
  insert_table, erase_table, write_table, with_table,
}
use essa_db.Database.Tables.{
  TableSetup, new_table, table, or_missing, create_with, create_table, drop_table, change_tables,
  insert_into, tables_of,
}

-- `m` keeps `P`, however it ends; and where it ends well, `Q` holds of its value.
pub record Keeps {F A : Type 0} (P : Database F → Type 0) (Q : A → Type 0) (m : Action F A)
    : Type 0 where
  pub after : (db : Database F) → P db → P (m db).1
  pub gives : (db : Database F) → P db → (a : A) → (m db).0 ≡ ok a → Q a

abbrev pub Any : {A : Type 0} → A → Type 0
Any a = Unit {0}

module _ {F A B : Type 0} {P : Database F → Type 0} where
  continue-Keeps :
      {Q : A → Type 0} {R : B → Type 0} (r : Result A) (f : A → Action F B)
      → ((a : A) → r ≡ ok a → Q a)
      → ((a : A) → Q a → Keeps P R (f a))
      → (db : Database F) → P db
      → P (continue r f db).1 × ((b : B) → (continue r f db).0 ≡ ok b → R b)
  continue-Keeps (ok a) f q k db h = let s = k a (q a refl) in (s.after db h, s.gives db h)
  continue-Keeps (err e) f q k db h = (h, λ b p. cc)
  continue-Keeps undefined f q k db h = (h, λ b p. cc)

  -- The rest of a block may use what its first call established.
  pub Keeps-bind :
      (Q : A → Type 0) {R : B → Type 0} (m : Action F A) (f : A → Action F B)
      → Keeps P Q m
      → ((a : A) → Q a → Keeps P R (f a))
      → Keeps P R (m >>= f)
  unfolding ◌>>=◌
  Keeps-bind Q m f km kf = record {
    after =
        λ db h. (continue-Keeps {Q = Q} (m db).0 f (km.gives db h) kf (m db).1 (km.after db h)).0;
    gives =
        λ db h. (continue-Keeps {Q = Q} (m db).0 f (km.gives db h) kf (m db).1 (km.after db h)).1;
  }

module _ {F A : Type 0} {P : Database F → Type 0} where
  pub Keeps-pure : (a : A) → Keeps P Any (pure a)
  unfolding pure
  Keeps-pure a = record { after = λ db h. h; gives = λ db h b e. tt }

  pub Keeps-raise : (e : DbError) → Keeps P (Any {A = A}) (raise e)
  unfolding raise
  Keeps-raise e = record { after = λ db h. h; gives = λ db h b p. tt }

  pub Keeps-lift : (r : Result A) → Keeps P (λ a. r ≡ ok a) (lift r)
  unfolding lift
  Keeps-lift r = record { after = λ db h. h; gives = λ db h b e. e }

  pub Keeps-gets : (f : Database F → A) → Keeps P Any (gets f)
  unfolding gets
  Keeps-gets f = record { after = λ db h. h; gives = λ db h b p. tt }

  pub Keeps-if :
      {Q : A → Type 0} (b : Bool) (m n : Action F A)
      → Keeps P Q m
      → Keeps P Q n
      → Keeps P Q (if b then m else n)
  Keeps-if true m n km kn = km
  Keeps-if false m n km kn = kn

module _ (p : Platform) where
  open p use {Float}

  abbrev pub Entry : Str × Table Float → Type 0
  Entry e = IsValid p e.1

  abbrev pub AllValid : Database Float → Type 0
  AllValid db = All Entry db.tables

  pub find-IsValid :
      (name : Str) (m : List (Str × Table Float)) {t : Table Float}
      → All Entry m
      → find_table name m ≡ some t
      → IsValid p t
  unfolding find_table
  find-IsValid name [] h e = cc
  find-IsValid name ((n, s) ∷ m) {t} h e = elim (Bool-cases (str_eq n name)) [
    | inl same ↦
        let found : some s ≡ some t = rw same at e in
        let it : s ≡ t = cc found in subst (IsValid p) it h.0
    | inr other ↦ find-IsValid name m h.1 (rw other at e)
  ]

  pub insert-Entry :
      (name : Str) (t : Table Float) (m : List (Str × Table Float))
      → IsValid p t
      → All Entry m
      → All Entry (insert_table name t m)
  unfolding insert_table
  insert-Entry name t [] v h = (v, tt)
  insert-Entry name t ((n, s) ∷ m) v h = elim (Bool-cases (str_eq n name)) [
    | inl same ↦ rw same h
    | inr other ↦ rw other (h.0, insert-Entry name t m v h.1)
  ]

  erase-Entry :
      (name : Str) (m : List (Str × Table Float)) → All Entry m → All Entry (erase_table name m)
  unfolding erase_table
  erase-Entry name [] h = tt
  erase-Entry name ((n, s) ∷ m) h = elim (Bool-cases (str_eq n name)) [
    | inl same ↦ rw same (erase-Entry name m h.1)
    | inr other ↦ rw other (h.0, erase-Entry name m h.1)
  ]

  pub write-Entry :
      (name : Str) (t : Table Float) (m : List (Str × Table Float))
      → IsValid p t
      → All Entry m
      → All Entry (write_table name t m)
  unfolding write_table
  write-Entry name t [] v h = tt
  write-Entry name t ((n, s) ∷ m) v h = elim (Bool-cases (str_eq n name)) [
    | inl same ↦ rw same (v, h.1)
    | inr other ↦ rw other (h.0, write-Entry name t m v h.1)
  ]

  or_missing-IsValid :
      (name : Str) (m : List (Str × Table Float))
      → All Entry m
      → (t : Table Float) → or_missing (find_table name m) ≡ ok t
      → IsValid p t
  or_missing-IsValid name m h t e = go (find_table name m) refl e
    where
      go : (o : Option (Table Float)) → find_table name m ≡ o → or_missing o ≡ ok t → IsValid p t
      go none q e = absurd (unfold or_missing in cc e)
      go (some s) q e =
          find-IsValid name m {t = t} h (q ∙ ap some (ok-injective (unfold or_missing in e)))

  -- A table that is looked up is valid.
  pub table-Keeps : (name : Str) → Keeps AllValid (IsValid p) (table name)
  unfolding table
  table-Keeps name = record {
    after = λ db h. h;
    gives = λ db h t e. or_missing-IsValid name db.tables h t e;
  }

  pub change_tables-Keeps :
      (f : List (Str × Table Float) → List (Str × Table Float))
      → ((m : List (Str × Table Float)) → All Entry m → All Entry (f m))
      → Keeps AllValid Any (change_tables f)
  unfolding change_tables
  change_tables-Keeps f k = record { after = λ db h. k db.tables h; gives = λ db h a e. tt }

  UniqueFrom-nil : (i : ℕ) (cs : List (Column Float)) → UniqueFrom p [] i cs
  UniqueFrom-nil i [] = tt
  UniqueFrom-nil i (c ∷ cs) = ((λ e. tt), UniqueFrom-nil (suc i) cs)

  KeyHolds-nil : (cs : List (Column Float)) (key : Option Str) → KeyHolds p [] cs key
  KeyHolds-nil cs none = tt
  KeyHolds-nil cs (some key) = at_key (get_column cs key)
    where
      at_key : (o : Option (ℕ × Column Float)) → KeyAt p [] o
      at_key none = tt
      at_key (some (i, c)) = (tt, tt)

  -- A table with no rows is valid, whatever its columns and its key.
  pub no_rows-ValidRows : (cs : List (Column Float)) (key : Option Str) → ValidRows p cs key []
  no_rows-ValidRows cs key = record {
    fits = tt;
    unique = UniqueFrom-nil 0 cs;
    keyed = KeyHolds-nil cs key;
  }

  create_with-Keeps :
      (setup : TableSetup Float) (check : Option (Check Float)) (engine : Engine)
      → Keeps AllValid Any (create_with setup check engine)
  unfolding create_with
  create_with-Keeps setup check memory = change_tables-Keeps _ (λ m h.
      insert-Entry setup.name (new_table setup check) m (no_rows-ValidRows setup.columns none) h)
  create_with-Keeps setup check edb = Keeps-raise _

  pub create_table-Keeps :
      (setup : TableSetup Float) (check : Option (Check Float)) (engine : Engine)
      → Keeps AllValid Any (create_table setup check engine)
  unfolding create_table
  create_table-Keeps setup check engine =
      Keeps-bind Any _ _ (Keeps-gets _)
        λ taken _. Keeps-if taken _ _ (Keeps-raise _) (create_with-Keeps setup check engine)

  pub drop_table-Keeps : (name : Str) → Keeps AllValid Any (drop_table name)
  unfolding drop_table
  drop_table-Keeps name =
      Keeps-bind (IsValid p) _ _ (table-Keeps name)
        λ t v. change_tables-Keeps (erase_table name) (erase-Entry name)

  pub write-Keeps :
      (name : Str) (t : Table Float)
      → IsValid p t
      → Keeps AllValid Any (λ db. (ok tt, with_table name t db))
  unfolding with_table
  write-Keeps name t v = record {
    after = λ db h. write-Entry name t db.tables v h;
    gives = λ db h a e. tt;
  }

  pub insert_into-Keeps :
      (built_in : Context Float) (name : Str) (row : Tuple Float)
      → Keeps AllValid Any (insert_into p built_in name row)
  unfolding insert_into
  insert_into-Keeps built_in name row = Keeps-bind (IsValid p) _ _ (table-Keeps name) λ t v.
      Keeps-bind Any _ _ (Keeps-gets _) λ db _.
        Keeps-bind _ _ _ (Keeps-lift (insert p built_in (some (tables_of db)) t row))
          λ t' e. write-Keeps name t' (insert-IsValid p built_in (some (tables_of db)) t row t' v e)
