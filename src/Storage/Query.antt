-- ===== src/Storage/Query.antt =====
-- database.js: the query builder of the PostgreSQL adapter, `PostgresQuery`. A builder is a record;
-- each method returns the new one; `execute` yields the statement that is sent to the server, or
-- nothing where it throws. The text of the SQL (column lists, joins, placeholders) is left out, but
-- not which rows the statement selects or changes, and to what. An `or` expression is taken as one
-- that the adapter can parse.
pub mod Laws
use Prim.Native.Char.{code}
use communications_service.Prelude.{
  leb, eqb, any, ℕ, suc, ◌+◌, ◌-◌, String, Bool, true, false, not, ◌&&◌, ◌||◌, Option, none, some,
  List, [], ◌∷◌, ◌++◌, all, if◌then◌else◌,
}
use communications_service.Prelude.Text.{filled, is_space}
use communications_service.Storage.Json.{
  Value, Values, Fields, undefined, null, boolean, number, text, array, object, nil, cons, end,
  field, defined, truthy_value,
}

pub data Operator : Type 0 where
  eq gte lte gt lt is in_list contains is_not or_any : Operator

pub record Filter : Type 0 where
  pub column : String
  pub operator : Operator
  pub value : Value

pub data Action : Type 0 where
  select insert upsert update delete : Action

pub data Cardinality : Type 0 where
  many single maybe_single : Cardinality

pub record Query : Type 0 where
  pub table : String
  pub action : Action
  pub payload : Value
  pub conflict : String
  pub ignore_duplicates : Bool
  pub filters : List Filter
  pub orders : List (String × Bool)
  pub row_limit : Option ℕ
  pub row_offset : Option ℕ
  pub cardinality : Cardinality
  pub return_rows : Bool

abbrev pub from : String → Query
from table = record {
  table = table;
  action = select;
  payload = null;
  conflict = "";
  ignore_duplicates = false;
  filters = [];
  orders = [];
  row_limit = none;
  row_offset = none;
  cardinality = many;
  return_rows = true;
}

-- A call of one of the builder's methods. `limit` and `range` take the bounds that the program
-- passes, natural numbers.
pub data Method : Type 0 where
  selects : Method
  inserts : Value → Method
  upserts : Value → (on_conflict : String) → (ignore_duplicates : Bool) → Method
  updates : Value → Method
  deletes : Method
  filter_by : Filter → Method
  orders_by : (column : String) → (ascending : Bool) → Method
  limits : ℕ → Method
  ranges : (from to : ℕ) → Method
  singles : Cardinality → Method

abbrev at_least_two : Option ℕ → Option ℕ
at_least_two none = some 2
at_least_two (some n) = some n

is_select : Action → Bool
is_select select = true
is_select insert = false
is_select upsert = false
is_select update = false
is_select delete = false

unfoldable pub apply : Query → Method → Query
unfolding is_select
apply q selects = if is_select q.action then q else record q { return_rows = true }
apply q (inserts v) = record q { action = insert; payload = v; return_rows = false }
apply q (upserts v c i) = record q {
  action = upsert;
  payload = v;
  conflict = c;
  ignore_duplicates = i;
  return_rows = false;
}
apply q (updates v) = record q { action = update; payload = v; return_rows = false }
apply q deletes = record q { action = delete; payload = null; return_rows = false }
apply q (filter_by f) = record q { filters = q.filters ++ f ∷ [] }
apply q (orders_by c a) = record q { orders = q.orders ++ (c, a) ∷ [] }
apply q (limits n) = record q { row_limit = some n }
apply q (ranges a b) = record q { row_offset = some a; row_limit = some (b + 1 - a) }
apply q (singles c) = record q { cardinality = c; row_limit = at_least_two q.row_limit }

-- `identifier`: the rest of a text behind its longest identifier, if it begins with one.
abbrev codes : String → List ℕ
codes String.[] = []
codes (String.◌∷◌ c t) = code c ∷ codes t

starts_identifier : ℕ → Bool
starts_identifier c = (leb b'A' c && leb c b'Z') || (leb b'a' c && leb c b'z') || eqb c b'_'

skip_identifier : List ℕ → List ℕ
unfolding starts_identifier
skip_identifier [] = []
skip_identifier (c ∷ cs) =
    if starts_identifier c || (leb b'0' c && leb c b'9') then skip_identifier cs else c ∷ cs

behind_identifier : List ℕ → Option (List ℕ)
unfolding starts_identifier skip_identifier
behind_identifier [] = none
behind_identifier (c ∷ cs) = if starts_identifier c then some (skip_identifier cs) else none

ends_identifier : List ℕ → Bool
unfolding behind_identifier
ends_identifier cs = elim (behind_identifier cs) [
  | none ↦ false
  | some [] ↦ true
  | some (d ∷ ds) ↦ false
]

pub is_identifier : String → Bool
unfolding ends_identifier
is_identifier s = ends_identifier (codes s)

-- `qualified`: a column, `table.column` or `column->>key`.
second_part : List ℕ → Bool
unfolding ends_identifier
second_part [] = true
second_part (c ∷ []) = false
second_part (c ∷ d ∷ []) = eqb c b'.' && ends_identifier (d ∷ [])
second_part (c ∷ d ∷ e ∷ cs) =
    (eqb c b'.' && ends_identifier (d ∷ e ∷ cs))
    || (eqb c b'-' && eqb d b'>' && eqb e b'>' && ends_identifier cs)

pub qualifies : String → Bool
unfolding second_part behind_identifier
qualifies s = elim (behind_identifier (codes s)) [ none ↦ false | some cs ↦ second_part cs ]

-- `onConflict` names a column: something stands beside its commas and spaces.
names_columns : String → Bool
unfolding is_space
names_columns String.[] = false
names_columns (String.◌∷◌ c t) = not (is_space (code c) || eqb (code c) b',') || names_columns t

-- What reaches the server.
pub data Statement : Type 0 where
  select_rows : List Filter → Statement
  insert_rows : List Fields → Statement
  upsert_rows : List Fields → (on_conflict : String) → (ignore_duplicates : Bool) → Statement
  update_rows : Fields → List Filter → Statement
  delete_rows : List Filter → Statement
  nothing : Statement

-- An object's entries. A text or an array has the entries "0", "1", …, which are no identifiers,
-- so a row of that kind is refused; null and the other values have none.
pub entries : Value → Option Fields
entries (object fs) = some (defined fs)
entries (text s) = if filled s then none else some end
entries (array nil) = some end
entries (array (cons v vs)) = none
entries undefined = some end
entries null = some end
entries (boolean b) = some end
entries (number n) = some end

with_row : Option Fields → Option (List Fields) → Option (List Fields)
with_row none rs = none
with_row (some r) none = none
with_row (some r) (some rs) = some (r ∷ rs)

each_row : Values → Option (List Fields)
unfolding entries with_row
each_row nil = some []
each_row (cons v vs) = with_row (entries v) (each_row vs)

pub mutation_rows : Value → Option (List Fields)
unfolding each_row
mutation_rows (array vs) = each_row vs
mutation_rows undefined = some (end ∷ [])
mutation_rows null = some (end ∷ [])
mutation_rows (boolean b) = some (end ∷ [])
mutation_rows (number n) = some (end ∷ [])
mutation_rows (text s) = if filled s then none else some (end ∷ [])
mutation_rows (object fs) = some (defined fs ∷ [])

has_columns : Fields → Bool
has_columns end = false
has_columns (field k v fs) = true

named : Fields → Bool
unfolding is_identifier
named end = true
named (field k v fs) = is_identifier k && named fs

-- `is` and `is not` take null, true and false only.
tests_is : Operator → Value → Bool
tests_is is null = true
tests_is is (boolean b) = true
tests_is is v = false
tests_is is_not null = true
tests_is is_not (boolean b) = true
tests_is is_not v = false
tests_is _ v = true

is_or : Operator → Bool
is_or or_any = true
is_or _ = false

pub accepts : Filter → Bool
unfolding tests_is is_or qualifies
accepts f = is_or f.operator || (qualifies f.column && tests_is f.operator f.value)

insert_statement : Action → String → Bool → List Fields → Option Statement
unfolding has_columns named
insert_statement upsert c i rows =
    if any has_columns rows && all named rows && names_columns c
    then some (upsert_rows rows c i)
    else none
insert_statement _ c i rows =
    if any has_columns rows && all named rows then some (insert_rows rows) else none

inserted : Query → Option (List Fields) → Option Statement
unfolding insert_statement
inserted q none = none
inserted q (some []) = some nothing
inserted q (some (r ∷ rows)) = insert_statement q.action q.conflict q.ignore_duplicates (r ∷ rows)

filtered : List Filter → Bool
filtered [] = false
filtered (f ∷ fs) = all accepts (f ∷ fs)

updated : Query → Option (List Fields) → Option Statement
unfolding filtered has_columns named
updated q none = none
updated q (some []) = none
updated q (some (row ∷ rows)) =
    if filtered q.filters && has_columns row && named row
    then some (update_rows row q.filters)
    else none

-- `execute`: none is a thrown error, which the adapter turns into an error result.
unfoldable pub execute : Query → Option Statement
unfolding inserted updated filtered accepts mutation_rows names_columns named any all has_columns
execute q = elim q.action [
  | select ↦ if all accepts q.filters then some (select_rows q.filters) else none
  | insert ↦ inserted q (mutation_rows q.payload)
  | upsert ↦ inserted q (mutation_rows q.payload)
  | update ↦ updated q (mutation_rows q.payload)
  | delete ↦ if filtered q.filters then some (delete_rows q.filters) else none
]
