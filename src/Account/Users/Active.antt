-- ===== src/Account/Users/Active.antt =====
-- Every user is active from the start, whatever the users do.
use mathlib.Core.Path.{subst}
use snapemu_workflow.Base.{
  ℕ, ◌≡◌, refl, inl, inr, Bool, true, false, Bool-cases, Option, none, some, List, [], ◌∷◌, map,
  All, ◌==◌, Outcome, ok, err, panic, stuck,
}
use snapemu_workflow.Groups.{find}
use snapemu_workflow.Tables.{IsTable, replaced}
use snapemu_workflow.Tables.Rows.{find-All}
use snapemu_workflow.Account.Login.{UsersModel}
use snapemu_workflow.Account.Users.{
  UserError, Services, World, Run, next, ◌>>=◌, give, check, must, must_not, hashed, ask, user_by,
  insert_user, update_user,
}

module _ (S : Services) where
  abbrev pub AllActive : World S → Type 0
  AllActive w = All (λ u. u.active ≡ true) (S.users.rows w.users)

  -- A step that keeps all users active, and whose result has a property.
  pub record Keeps {A : Type 0} (Q : A → Type 0) (m : Run S A) : Type 0 where
    pub run : (w : World S) → AllActive w → AllActive (m w).1 × ((a : A) → (m w).0 ≡ ok a → Q a)

  abbrev pub Any : {A : Type 0} → A → Type 0
  Any a = Unit

  next-Keeps :
      {A B : Type 0} {Q : A → Type 0} {R : B → Type 0} (f : A → Run S B) (o : Outcome UserError A)
      (w : World S)
      → ((a : A) → Q a → Keeps R (f a))
      → AllActive w
      → ((a : A) → o ≡ ok a → Q a)
      → AllActive (next f (o, w)).1 × ((b : B) → (next f (o, w)).0 ≡ ok b → R b)
  next-Keeps f (ok a) w after active holds = (after a (holds a refl)).run w active
  next-Keeps f (err e) w after active holds = (active, λ b. cc)
  next-Keeps f panic w after active holds = (active, λ b. cc)
  next-Keeps f stuck w after active holds = (active, λ b. cc)

  pub bind-Keeps :
      {A B : Type 0} {Q : A → Type 0} {R : B → Type 0} (m : Run S A) (f : A → Run S B)
      → Keeps Q m
      → ((a : A) → Q a → Keeps R (f a))
      → Keeps R (m >>= f)
  bind-Keeps m f first after = record {
    run = λ w active.
        let (left, holds) = first.run w active in next-Keeps f (m w).0 (m w).1 after left holds;
  }

  pub give-Keeps : {A : Type 0} {Q : A → Type 0} (a : A) → Q a → Keeps Q (give a)
  give-Keeps {A} {Q} a holds = record {
    run = λ w active. (active, λ b e. subst Q (out a b e) holds);
  }
    where
      out : (x y : A) → ◌≡◌ {A = Outcome UserError A} (ok x) (ok y) → x ≡ y
      out x y e = cc

  pub check-Keeps : (b : Bool) (e : UserError) → Keeps Any (check b e)
  check-Keeps true e = record { run = λ w active. (active, λ a f. tt) }
  check-Keeps false e = record { run = λ w active. (active, λ a f. tt) }

  pub must-Keeps : {A : Type 0} (o : Option A) (e : UserError) → Keeps (λ a. o ≡ some a) (must o e)
  must-Keeps none e = record { run = λ w active. (active, λ a. cc) }
  must-Keeps (some x) e = record { run = λ w active. (active, λ a f. cc) }

  pub must_not-Keeps : {A : Type 0} (o : Option A) (e : UserError) → Keeps Any (must_not o e)
  must_not-Keeps none e = record { run = λ w active. (active, λ a f. tt) }
  must_not-Keeps (some x) e = record { run = λ w active. (active, λ a f. tt) }

  pub hashed-Keeps : {A : Type 0} (o : Outcome Unit A) → Keeps Any (hashed o)
  hashed-Keeps (ok a) = record { run = λ w active. (active, λ b f. tt) }
  hashed-Keeps (err e) = record { run = λ w active. (active, λ b f. tt) }
  hashed-Keeps panic = record { run = λ w active. (active, λ b f. tt) }
  hashed-Keeps stuck = record { run = λ w active. (active, λ b f. tt) }

  pub ask-Keeps :
      {A : Type 0} (q : S.remote.State → Outcome UserError A × S.remote.State) → Keeps Any (ask S q)
  ask-Keeps q = record { run = λ w active. (active, λ a e. tt) }

  -- A user who is found is active.
  pub user_by-Keeps :
      (p : UsersModel → Bool)
      → Keeps (λ o. (u : UsersModel) → o ≡ some u → u.active ≡ true) (user_by S p)
  user_by-Keeps p = record {
    run = λ w active. (
      active,
      λ o e u found.
          find-All (λ u. u.active ≡ true) p (S.users.rows w.users) u active
            (out (find p (S.users.rows w.users)) o u e found),
    );
  }
    where
      out :
          (x o : Option UsersModel) (u : UsersModel)
          → ◌≡◌ {A = Outcome UserError (Option UsersModel)} (ok x) (ok o)
          → o ≡ some u
          → x ≡ some u
      out x o u e found = cc

module _ (S : Services) (laws : IsTable S.users) where
  pub insert_user-Keeps :
      (make : ℕ → UsersModel)
      → ((id : ℕ) → (make id).active ≡ true)
      → Keeps S (λ u. u.active ≡ true) (insert_user S make)
  unfolding insert_user
  insert_user-Keeps make new = record {
    run = λ w active.
        let (k, fresh, is, rows) = laws.rows-insert make w.users in
        (rw rows (new k, active), λ u e. out (S.users.insert make w.users).0 u k is e);
  }
    where
      out :
          (x u : UsersModel) (k : ℕ)
          → x ≡ make k
          → ◌≡◌ {A = Outcome UserError UsersModel} (ok x) (ok u)
          → u.active ≡ true
      out x u k is e =
          let same_user : make k ≡ u = cc in subst (λ y. y.active ≡ true) same_user (new k)

  pub update_user-Keeps :
      (user : UsersModel) → user.active ≡ true → Keeps S (Any S) (update_user S user)
  unfolding update_user
  update_user-Keeps user is = record {
    run = λ w active. (
      rw (laws.rows-update user w.users) (all_replaced (S.users.rows w.users) active),
      λ a e. tt,
    );
  }
    where
      all_replaced :
          (rows : List UsersModel)
          → All (λ u. u.active ≡ true) rows
          → All (λ u. u.active ≡ true) (map (replaced S.users.key user) rows)
      all_replaced [] all = tt
      all_replaced (r ∷ rows) (h, all) = elim (Bool-cases (S.users.key r == S.users.key user)) [
        | inl e ↦ rw e (is, all_replaced rows all)
        | inr n ↦ rw n (h, all_replaced rows all)
      ]
