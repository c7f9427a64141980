-- ===== src/Api/Handler/Post.antt =====
-- What holds of the database after a handler, one rule for each kind of step.
use pier.Base.{
  ◌≡◌, ◌≢◌, refl, Result, ok, err, Option, some, ok_or, AppError, String, List, arith, ◌++◌, ◌∷◌,
  [],
}
use pier.Db.{Db, AuthEvent}
use pier.Api.Handler.{Handler, pure, lift, query, modify, log, ◌>>=◌}

pub ok_or-eq-ok {ℓ κ} :
    {E : Type κ} {A : Type ℓ} (o : Option A) (e : E) (a : A) → ok_or o e ≡ ok a → o ≡ some a
ok_or-eq-ok o e a h = ground arith

module _ {A B : Type 0} (P : Db → Type 0) (db : Db) where
  pub lift-post :
      (r : Result AppError A) (f : A → Handler B)
      → P db
      → ((a : A) → r ≡ ok a → P (f a db).1)
      → P ((lift r >>= f) db).1
  unfolding ◌>>=◌
  lift-post (ok a) f h k = k a refl
  lift-post (err e) f h k = h

  pub query-post :
      (g : Db → Result AppError A) (f : A → Handler B)
      → P db
      → ((a : A) → g db ≡ ok a → P (f a db).1)
      → P ((query g >>= f) db).1
  unfolding ◌>>=◌
  query-post g f h k = lift-post (g db) f h k

  pub bind-post :
      (m : Handler A) (f : A → Handler B)
      → P (m db).1
      → ((a : A) (s : Db) → P s → P (f a s).1)
      → P ((m >>= f) db).1
  unfolding ◌>>=◌
  bind-post m f h k = let (r, s) = m db in lift-post' r s f (λ a. k a s h) h
    where
      lift-post' :
          (r : Result AppError A) (s : Db) (f : A → Handler B)
          → ((a : A) → P (f a s).1)
          → P s
          → P ((lift r >>= f) s).1
      lift-post' (ok a) s f k h = k a
      lift-post' (err e) s f k h = h

module _ {B : Type 0} (P : Db → Type 0) (db : Db) where
  pub modify-post :
      (g : Db → Db) (f : Unit {0} → Handler B) → P (f tt (g db)).1 → P ((modify g >>= f) db).1
  unfolding ◌>>=◌
  modify-post g f h = h

  pub modify-post_last : (g : Db → Db) (b : B) → P (g db) → P ((modify g >>= λ _. pure b) db).1
  unfolding ◌>>=◌
  modify-post_last g b h = h

  pub log-post :
      (event : AuthEvent) (actor : String) (details : List (String × String)) (b : B)
      → P (record db {
        auth_events =
            db.auth_events
            ++ record { event_type = event; user_id = some actor; details = details } ∷ [];
      })
      → P ((log event actor details >>= λ _. pure b) db).1
  unfolding ◌>>=◌
  log-post event actor details b h = h

-- What holds of the reply and the database after a handler that has returned a value.
pub record Ensures {B : Type 0} (Q : Db → Type 0) (m : Handler B) (db : Db) : Type 0 where
  pub at : (b : B) → (m db).0 ≡ ok b → Q (m db).1

module _ {A B : Type 0} (Q : Db → Type 0) (db : Db) where
  pub lift-Ensures :
      (r : Result AppError A) (f : A → Handler B)
      → ((a : A) → r ≡ ok a → Ensures Q (f a) db)
      → Ensures Q (lift r >>= f) db
  unfolding ◌>>=◌
  lift-Ensures (ok a) f k = record { at = λ b h. (k a refl).at b h }
  lift-Ensures (err e) f k = record { at = λ b h. cc }

  pub query-Ensures :
      (g : Db → Result AppError A) (f : A → Handler B)
      → ((a : A) → g db ≡ ok a → Ensures Q (f a) db)
      → Ensures Q (query g >>= f) db
  unfolding ◌>>=◌
  query-Ensures g f k = record { at = λ b h. (lift-Ensures (g db) f k).at b h }

module _ {A B : Type 0} (Q : Db → Type 0) (db : Db) where
  pub bind-Ensures :
      (m : Handler A) (f : A → Handler B)
      → ((a : A) → (m db).0 ≡ ok a → Ensures Q (f a) (m db).1)
      → Ensures Q (m >>= f) db
  unfolding ◌>>=◌
  bind-Ensures m f k = record { at = λ b. go (m db).0 (m db).1 k b }
    where
      go :
          (r : Result AppError A) (s : Db)
          → ((a : A) → r ≡ ok a → Ensures Q (f a) s)
          → (b : B) → ((lift r >>= f) s).0 ≡ ok b
          → Q ((lift r >>= f) s).1
      go (ok a) s k b h = (k a refl).at b h
      go (err e) s k b h = cc

module _ {B : Type 0} (Q : Db → Type 0) (db : Db) where
  pub modify-Ensures : (g : Db → Db) (b : B) → Q (g db) → Ensures Q (modify g >>= λ _. pure b) db
  unfolding ◌>>=◌
  modify-Ensures g b h = record { at = λ _ _. h }

  pub log-Ensures :
      (event : AuthEvent) (actor : String) (details : List (String × String)) (b : B)
      → Q (record db {
        auth_events =
            db.auth_events
            ++ record { event_type = event; user_id = some actor; details = details } ∷ [];
      })
      → Ensures Q (log event actor details >>= λ _. pure b) db
  unfolding ◌>>=◌
  log-Ensures event actor details b h = record { at = λ _ _. h }

-- The last statement, the audit log and the reply.
pub modify-log-Ensures :
    {B : Type 0} (Q : Db → Type 0) (db : Db) (g : Db → Db) (event : AuthEvent) (actor : String)
    (details : List (String × String)) (b : B)
    → Q (record (g db) {
      auth_events =
          (g db).auth_events
          ++ record { event_type = event; user_id = some actor; details = details } ∷ [];
    })
    → Ensures Q (modify g >>= λ _. log event actor details >>= λ _. pure b) db
unfolding ◌>>=◌
modify-log-Ensures Q db g event actor details b h = record { at = λ _ _. h }

-- A handler whose error means that it has written nothing.
pub record IsAtomic {A : Type 0} (m : Handler A) : Type 0 where
  pub at : (db : Db) (e : AppError) → (m db).0 ≡ err e → (m db).1 ≡ db

module _ {A B : Type 0} where
  pub IsAtomic-lift :
      (r : Result AppError A) (f : A → Handler B)
      → ((a : A) → IsAtomic (f a))
      → IsAtomic (lift r >>= f)
  unfolding ◌>>=◌
  IsAtomic-lift (ok a) f k = record { at = λ db e h. (k a).at db e h }
  IsAtomic-lift (err x) f k = record { at = λ db e h. refl }

  pub IsAtomic-query :
      (g : Db → Result AppError A) (f : A → Handler B)
      → ((a : A) → IsAtomic (f a))
      → IsAtomic (query g >>= f)
  unfolding ◌>>=◌
  IsAtomic-query g f k = record { at = λ db e h. (IsAtomic-lift (g db) f k).at db e h }

  -- The last writing step, with nothing behind it that can fail.
  pub IsAtomic-last :
      (m : Handler A) (f : A → Handler B)
      → IsAtomic m
      → ((a : A) (s : Db) (e : AppError) → (f a s).0 ≢ err e)
      → IsAtomic (m >>= f)
  unfolding ◌>>=◌
  IsAtomic-last m f h k = record { at = λ db e. go (m db).0 (m db).1 db (λ x. h.at db x) e }
    where
      go :
          (r : Result AppError A) (s db : Db)
          → ((x : AppError) → r ≡ err x → s ≡ db)
          → (e : AppError) → ((lift r >>= f) s).0 ≡ err e
          → ((lift r >>= f) s).1 ≡ db
      go (ok a) s db p e q = absurd (k a s e q)
      go (err x) s db p e q = p x refl

-- What follows the last check of a handler: one statement, the audit log and the reply.
module _ {B : Type 0} (event : AuthEvent) (actor : String) (details : List (String × String))
    (b : B) where
  pub log-ne-err :
      (db : Db) (e : AppError) → ((log event actor details >>= λ _. pure b) db).0 ≢ err e
  unfolding ◌>>=◌
  log-ne-err db e h = cc

  pub IsAtomic-modify-log :
      (g : Db → Db) → IsAtomic (modify g >>= λ _. log event actor details >>= λ _. pure b)
  unfolding ◌>>=◌
  IsAtomic-modify-log g = record { at = λ db e h. cc }
