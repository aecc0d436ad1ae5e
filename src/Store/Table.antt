-- ===== src/Store/Table.antt =====
-- The tables of the database that crates/tith-store/src/ keeps its records in. The database is the
-- third-party crate redb: a table is a parameter with what the store calls of it (`get`, `insert`,
-- `iter`), and laws for its documented behaviour, a map that is walked in the order of its keys.
pub mod Entries
use tith.Base.{
  ℕ, ◌≡◌, Bool, true, false, ltb, if◌then◌else◌, ◌||◌, ◌&&◌, ◌==◌, ◌=?◌, nat_eq, list_eq, List, [],
  ◌∷◌, Option, none, some,
}

-- A table's contents: its keys, which are bytes, in order, each with its value.
abbrev pub Entries : Type 0 → Type 0
Entries V = List (List ℕ × V)

abbrev pub less : List ℕ → List ℕ → Bool
less [] [] = false
less [] (y ∷ ys) = true
less (x ∷ xs) [] = false
less (x ∷ xs) (y ∷ ys) = ltb x y || x == y && less xs ys

abbrev pub find : {V : Type 0} → List ℕ → Entries V → Option V
find key [] = none
find key ((k, v) ∷ entries) = if k =? key then some v else find key entries

-- A new value goes where its key belongs, in place of the value that the key has.
abbrev pub put : {V : Type 0} → List ℕ → V → Entries V → Entries V
put key value [] = (key, value) ∷ []
put key value ((k, v) ∷ entries) =
    let rest = put key value entries in
    if k =? key
    then (key, value) ∷ entries
    else if less k key
    then (k, v) ∷ rest
    else (key, value) ∷ (k, v) ∷ entries

abbrev pub encoded : {V W : Type 0} → (V → W) → Entries V → Entries W
encoded f [] = []
encoded f ((k, v) ∷ entries) = (k, f v) ∷ encoded f entries

pub record Tables (T : Type 0) : Type 0 where
  pub get : List ℕ → T → Option (List ℕ)
  pub insert : List ℕ → List ℕ → T → T
  pub iter : T → Entries (List ℕ)
  pub get-iter : (key : List ℕ) (table : T) → get key table ≡ find key (iter table)
  pub iter-insert :
      (key value : List ℕ) (table : T) → iter (insert key value table) ≡ put key value (iter table)

-- The outbound tables JOBS, ITEMS, SUBMISSIONS and EVENTS.
pub record Db (T : Type 0) : Type 0 where
  pub jobs : T
  pub items : T
  pub submissions : T
  pub events : T
