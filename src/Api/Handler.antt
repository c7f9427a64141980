-- ===== src/Api/Handler.antt =====
-- A handler of the HTTP API: it reads and writes the database behind one lock, and returns a result
-- or an `AppError`. What was written before an error stays written.
pub mod Post
use pier.Base.{Result, ok, err, AppError, ◌++◌, [], ◌∷◌, String, some, List}
use pier.Db.{Db, AuthEvent}

abbrev pub Handler : Type 0 → Type 0
Handler A = Db → Result AppError A × Db

module _ {A : Type 0} where
  pub pure : A → Handler A
  pure a db = (ok a, db)

  -- `?` on a value that needs no database
  pub lift : Result AppError A → Handler A
  lift r db = (r, db)

  -- `?` on the result of a query
  pub query : (Db → Result AppError A) → Handler A
  query f db = (f db, db)

-- a statement that cannot fail
pub modify : (Db → Db) → Handler (Unit {0})
modify f db = (ok tt, f db)

-- `audit::log`, whose own failures are swallowed
pub log : AuthEvent → String → List (String × String) → Handler (Unit {0})
log event actor details db = (
  ok tt,
  record db {
    auth_events =
        db.auth_events
        ++ record { event_type = event; user_id = some actor; details = details } ∷ [];
  },
)

abbrev continue : {A B : Type 0} → Result AppError A → (A → Handler B) → Handler B
continue (ok a) f db = f a db
continue (err e) f db = (err e, db)

infixl 10 ◌>>=◌ ◌>>◌
-- opening this opens the actions above too
unfoldable pub ◌>>=◌ : {A B : Type 0} → Handler A → (A → Handler B) → Handler B
unfolding pure lift query modify log
◌>>=◌ m f db = let (r, db') = m db in continue r f db'

abbrev pub ◌>>◌ : {A B : Type 0} → Handler A → Handler B → Handler B
m >> k = m >>= λ _. k
