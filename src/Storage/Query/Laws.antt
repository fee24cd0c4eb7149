-- ===== src/Storage/Query/Laws.antt =====
-- database.js: what the rows of a mutation are made of.
use communications_service.Prelude.{
  Bool, true, false, ◌&&◌, all, if◌then◌else◌, subst, All, List, [], ◌∷◌, Bool-cases, Option-cases,
  Option, none, some, ◌≡◌, refl, arith, ◌⊎◌, inl, inr,
}
use communications_service.Storage.Json.{
  Value, undefined, null, boolean, number, text, array, object, nil, cons, Fields, end, defined,
  Values,
}
use communications_service.Prelude.Text.{filled}
use communications_service.Storage.Query.{
  entries, each_row, mutation_rows, Query, Action, select, insert, upsert, update, delete,
  Statement, select_rows, insert_rows, upsert_rows, update_rows, delete_rows, nothing,
  insert_statement, inserted, updated, filtered, has_columns, named, accepts, execute,
}

-- A row is an object's entries, or empty.
pub entries_cases :
    (v : Value) (row : Fields)
    → entries v ≡ some row
    → ((fs : Fields) × (v ≡ object fs) × (row ≡ defined fs)) ⊎ (row ≡ end)
unfolding entries
entries_cases (object fs) row h = inl (fs, refl, ground arith)
entries_cases (text s) row h = inr (ground arith)
entries_cases (array nil) row h = inr (ground arith)
entries_cases (array (cons v vs)) row h = cc
entries_cases undefined row h = inr (ground arith)
entries_cases null row h = inr (ground arith)
entries_cases (boolean b) row h = inr (ground arith)
entries_cases (number n) row h = inr (ground arith)

-- A predicate on the members of an array, and on the rows that a payload stands for.
abbrev pub EachValue : (Value → Type 0) → Values → Type 0
EachValue Q nil = Unit {0}
EachValue Q (cons v vs) = Q v × EachValue Q vs

abbrev pub EachRow : (Value → Type 0) → Value → Type 0
EachRow Q (array vs) = EachValue Q vs
EachRow Q undefined = Q undefined
EachRow Q null = Q null
EachRow Q (boolean b) = Q (boolean b)
EachRow Q (number n) = Q (number n)
EachRow Q (text s) = Q (text s)
EachRow Q (object fs) = Q (object fs)

module _ (Q : Value → Type 0) (P : Fields → Type 0)
    (keep : (v : Value) (row : Fields) → entries v ≡ some row → Q v → P row) where
  each_row-All :
      (vs : Values) (rows : List Fields) → each_row vs ≡ some rows → EachValue Q vs → All P rows
  unfolding each_row
  each_row-All nil rows h q = let p : ◌≡◌ {A = List Fields} [] rows = cc in subst (All P) p tt
  each_row-All (cons v vs) rows h q = elim (Option-cases (entries v)) [
    | inl e ↦ absurd (cc (rw e at h))
    | inr (r, e) ↦ elim (Option-cases (each_row vs)) [
      | inl e' ↦ absurd (cc (rw (e, e') at h))
      | inr (rs, e') ↦
          let p : ◌≡◌ {A = List Fields} (r ∷ rs) rows = cc (rw (e, e') at h) in
          subst (All P) p (keep v r e q.0, each_row-All vs rs e' q.1)
    ]
  ]

  -- What holds of the rows that a payload stands for holds of the rows that are sent.
  pub mutation_rows-All :
      (v : Value) (rows : List Fields) → mutation_rows v ≡ some rows → EachRow Q v → All P rows
  unfolding mutation_rows entries
  mutation_rows-All (array vs) rows h q = each_row-All vs rows h q
  mutation_rows-All (object fs) rows h q =
      let p : ◌≡◌ {A = List Fields} (defined fs ∷ []) rows = cc in
      subst (All P) p (keep (object fs) (defined fs) refl q, tt)
  mutation_rows-All (text s) rows h q = elim (Bool-cases (filled s)) [
    | inl f ↦ absurd (cc (rw f at h))
    | inr f ↦
        let p : ◌≡◌ {A = List Fields} (end ∷ []) rows = cc (rw f at h) in
        subst (All P) p (keep (text s) end (rw f) q, tt)
  ]
  mutation_rows-All v rows h q =
      let p : ◌≡◌ {A = List Fields} (end ∷ []) rows = cc in subst (All P) p (keep v end refl q, tt)

-- Which query a statement comes from.
abbrev pub ComesFrom : Query → Statement → Type 0
ComesFrom q (select_rows fs) = (q.action ≡ select) × (fs ≡ q.filters)
ComesFrom q (insert_rows rows) = (q.action ≡ insert) × (mutation_rows q.payload ≡ some rows)
ComesFrom q (upsert_rows rows c i) = (q.action ≡ upsert) × (mutation_rows q.payload ≡ some rows)
ComesFrom q (update_rows row fs) = (q.action ≡ update) × (fs ≡ q.filters)
ComesFrom q (delete_rows fs) = (q.action ≡ delete) × (fs ≡ q.filters)
ComesFrom q nothing = Unit {0}

insert_statement-ComesFrom :
    (q : Query) (rows : List Fields) (st : Statement)
    → (q.action ≡ insert) ⊎ (q.action ≡ upsert)
    → mutation_rows q.payload ≡ some rows
    → insert_statement q.action q.conflict q.ignore_duplicates rows ≡ some st
    → ComesFrom q st
unfolding insert_statement
insert_statement-ComesFrom q rows (insert_rows rs) a e h = ground arith
insert_statement-ComesFrom q rows (upsert_rows rs c i) a e h = ground arith
insert_statement-ComesFrom q rows nothing a e h = tt
insert_statement-ComesFrom q rows st a e h = ground arith

inserted-ComesFrom :
    (q : Query) (o : Option (List Fields)) (st : Statement)
    → (q.action ≡ insert) ⊎ (q.action ≡ upsert)
    → mutation_rows q.payload ≡ o
    → inserted q o ≡ some st
    → ComesFrom q st
unfolding inserted
inserted-ComesFrom q none st a e h = cc
inserted-ComesFrom q (some []) st a e h =
    let p : ◌≡◌ {A = Statement} nothing st = cc in subst (ComesFrom q) p tt
inserted-ComesFrom q (some (r ∷ rows)) st a e h = insert_statement-ComesFrom q (r ∷ rows) st a e h

updated-ComesFrom :
    (q : Query) (o : Option (List Fields)) (st : Statement)
    → q.action ≡ update
    → updated q o ≡ some st
    → ComesFrom q st
unfolding updated
updated-ComesFrom q none st a h = cc
updated-ComesFrom q (some []) st a h = cc
updated-ComesFrom q (some (r ∷ rows)) st a h =
    elim (Bool-cases (filtered q.filters && has_columns r && named r)) [
      | inl t ↦
          let p : ◌≡◌ {A = Statement} (update_rows r q.filters) st = cc (rw t at h) in
          subst (ComesFrom q) p (a, refl)
      | inr f ↦ absurd (cc (rw f at h))
    ]

filters-ComesFrom :
    (q : Query) (st : Statement) (b : Bool) (made : Statement)
    → ComesFrom q made
    → (if b then some made else none) ≡ some st
    → ComesFrom q st
filters-ComesFrom q st true made c h =
    let p : ◌≡◌ {A = Statement} made st = cc in subst (ComesFrom q) p c
filters-ComesFrom q st false made c h = cc

-- A statement that reaches the server does what the query's action says, with all its filters and
-- with the rows of its payload.
pub execute-ComesFrom : (q : Query) (st : Statement) → execute q ≡ some st → ComesFrom q st
unfolding execute
execute-ComesFrom q st h = go q.action refl
  where
    go : (a : Action) → q.action ≡ a → ComesFrom q st
    go select e =
        filters-ComesFrom q st (all accepts q.filters) (select_rows q.filters) (e, refl)
          (rw (e, execute) at h)
    go insert e =
        inserted-ComesFrom q (mutation_rows q.payload) st (inl e) refl (rw (e, execute) at h)
    go upsert e =
        inserted-ComesFrom q (mutation_rows q.payload) st (inr e) refl (rw (e, execute) at h)
    go update e = updated-ComesFrom q (mutation_rows q.payload) st e (rw (e, execute) at h)
    go delete e =
        filters-ComesFrom q st (filtered q.filters) (delete_rows q.filters) (e, refl)
          (rw (e, execute) at h)
