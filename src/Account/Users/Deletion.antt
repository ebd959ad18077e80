-- ===== src/Account/Users/Deletion.antt =====
-- The deletion of a user: `delete_user` and `delete_local_user` of snap_api/src/service/user/signup.rs, with the
-- deletions that they call. The codes and the sessions are in one store; what redis keeps of the devices is
-- modelled apart from it.
use snapemu_workflow.Base.{
  ℕ, ◌+◌, ◌≤◌, ◌<◌, ◌≡◌, refl, Bool, false, Option, none, some, List, map, All, lt→ltb, ◌==◌,
  if◌then◌else◌, Outcome, ok, err, panic, stuck,
}
use snapemu_workflow.Groups.{find, filter, delete_by_user}
use snapemu_workflow.Ids.{Hex}
use snapemu_workflow.Redis.{Str, Expiring, IsExpiring}
use snapemu_workflow.Tables.{Table, IsTable}
use snapemu_workflow.Tables.Rows.{All-deleted}
use snapemu_workflow.Devices.{Stores, IsStores, query_all_with_auth}
use snapemu_workflow.Devices as D
use snapemu_workflow.Devices.Deletion.{delete_by_user_id}
use snapemu_workflow.Devices.Deletion.Users.{delete_by_user_id-unowned}
use snapemu_workflow.Account.{ApiError, Stored, code, code_key, valid_code, gen_code}
use snapemu_workflow.Account.Login.{UsersModel, email_eq}
use snapemu_workflow.Account.Tokens.{UserToken, delete_user_token}
use snapemu_workflow.Account.Users.{
  UserError, code_error, not_found_email, unknown_user, UserResp, Remote,
}

-- A row of the table of tokens, without its time of creation.
pub record TokenRow : Type 0 where
  pub id : ℕ
  pub token : UserToken

-- A row of the table of scripts, without its times and its names of values.
pub record ScriptRow : Type 0 where
  pub id : ℕ
  pub script : Str
  pub lang : Str
  pub owner : ℕ
  pub name : Str

pub record Services : Type 1 where
  pub users : Table UsersModel
  pub scripts : Table ScriptRow
  pub tokens : Table TokenRow
  pub sessions : Expiring Stored
  pub stores : Stores
  pub remote : Remote
  pub has_remote : Bool

pub record World (S : Services) : Type 0 where
  pub users : S.users.State
  pub scripts : S.scripts.State
  pub tokens : S.tokens.State
  pub sessions : S.sessions.State
  pub devices : D.World S.stores
  pub remote : S.remote.State

pub record IsServices (S : Services) : Type 0 where
  pub users : IsTable S.users
  pub scripts : IsTable S.scripts
  pub tokens : IsTable S.tokens
  pub sessions : IsExpiring S.sessions
  pub stores : IsStores S.stores

module _ (S : Services) where
  -- The tables of users, scripts, tokens, groups and links of groups have no row of the user, and the
  -- user is not the owner of a device.
  abbrev pub IsGone : ℕ → World S → Type 0
  IsGone id w =
      All (λ u. (u.id == id) ≡ false) (S.users.rows w.users)
      × All (λ r. (r.owner == id) ≡ false) (S.scripts.rows w.scripts)
      × All (λ r. (r.token.user_id == id) ≡ false) (S.tokens.rows w.tokens)
      × All (λ g. (g.owner == id) ≡ false) (S.stores.groups.groups w.devices.groups)
      × All (λ r. (r.user_id == id) ≡ false) (S.stores.groups.maps w.devices.groups)
      × All (λ d. d.auth.owner ≡ false)
          (query_all_with_auth id (S.stores.auths.rows w.devices.auths)
            (S.stores.devices.rows w.devices.devices))

  unfoldable pub delete_user_script : ℕ → World S → World S
  delete_user_script id w = record w {
    scripts = S.scripts.delete_many (λ r. r.owner == id) w.scripts;
  }

  -- The sessions and the rows of a user's tokens.
  unfoldable pub delete_tokens : ℕ → ℕ → World S → World S
  delete_tokens now id w =
      let found =
        λ (p : UserToken → Bool). filter p (map (λ r. r.token) (S.tokens.rows w.tokens)) in
      record w {
        sessions = delete_user_token S.sessions now found id w.sessions;
        tokens = S.tokens.delete_many (λ r. r.token.user_id == id) w.tokens;
      }

  unfoldable pub delete_groups : ℕ → World S → World S
  delete_groups id w =
      let left =
        delete_by_user S.stores.groups S.stores.caches id w.devices.groups w.devices.caches in
      record w { devices = record w.devices { groups = left.0; caches = left.1 } }

module _ (hex : Hex) (S : Services) where
  unfoldable pub delete_local_user : ℕ → ℕ → World S → World S
  delete_local_user now id w =
      let w1 = delete_user_script S id w in
      let w2 : World S = record w1 { devices = delete_by_user_id hex S.stores id w1.devices } in
      let w3 = delete_groups S id (delete_tokens S now id w2) in
      record w3 { users = S.users.delete_many (λ u. u.id == id) w3.users }

  abbrev pub delete_or_unknown : ℕ → Option UsersModel → World S → Outcome UserError Unit × World S
  delete_or_unknown now none w = (err unknown_user, w)
  delete_or_unknown now (some user) w = (ok tt, delete_local_user now user.id w)

  abbrev pub delete_by_email : ℕ → Str → World S → Outcome UserError Unit × World S
  delete_by_email now email w =
      delete_or_unknown now (find (λ u. email_eq email u.email) (S.users.rows w.users)) w

  abbrev pub kept :
      World S → Outcome UserError Unit × S.remote.State → Outcome UserError Unit × World S
  kept w (o, r) = (o, record w { remote = r })

  -- A user of the server who has no row here: the row with the address is deleted.
  abbrev pub delete_known :
      ℕ → Str → UserResp → Option UsersModel → World S → Outcome UserError Unit × World S
  delete_known now email user_remote none w = delete_by_email now email w
  delete_known now email user_remote (some user_db) w =
      let v = delete_local_user now user_db.id w in
      kept v (S.remote.delete_user user_remote.id v.remote)

  abbrev pub delete_remote :
      ℕ
      → Str
      → World S
      → Outcome UserError (Option UserResp) × S.remote.State
      → Outcome UserError Unit × World S
  delete_remote now email w (ok none, r) = (err not_found_email, record w { remote = r })
  delete_remote now email w (ok (some user_remote), r) =
      delete_known now email user_remote
        (find (λ u. u.u_id == user_remote.id) (S.users.rows w.users)) (record w { remote = r })
  delete_remote now email w (err e, r) = (err e, record w { remote = r })
  delete_remote now email w (panic, r) = (panic, record w { remote = r })
  delete_remote now email w (stuck, r) = (stuck, record w { remote = r })

  abbrev pub delete_valid :
      ℕ → Str → World S → Outcome ApiError Unit → Outcome UserError Unit × World S
  delete_valid now email w (ok u) =
      if S.has_remote
      then delete_remote now email w (S.remote.check_email email w.remote)
      else delete_by_email now email w
  delete_valid now email w (err e) = (err (code_error e), w)
  delete_valid now email w panic = (panic, w)
  delete_valid now email w stuck = (stuck, w)

  unfoldable pub delete_user : ℕ → Str → Str → World S → Outcome UserError Unit × World S
  delete_user now email sent_code w =
      delete_valid now email w (valid_code S.sessions now email sent_code w.sessions)

module _ (hex : Hex) (S : Services) (laws : IsServices S) where
  pub delete_local_user-IsGone :
      (now id : ℕ) (w : World S) → IsGone S id (delete_local_user hex S now id w)
  unfolding delete_local_user delete_user_script delete_tokens delete_groups delete_by_user
      delete_by_user_id
  delete_local_user-IsGone now id w =
      let groups = (delete_by_user_id hex S.stores id w.devices).groups in
      (
        rw (laws.users.rows-delete_many (λ u. u.id == id) w.users)
            (All-deleted (λ u. u.id == id) (S.users.rows w.users)),
        rw (laws.scripts.rows-delete_many (λ r. r.owner == id) w.scripts)
            (All-deleted (λ r. r.owner == id) (S.scripts.rows w.scripts)),
        rw (laws.tokens.rows-delete_many (λ r. r.token.user_id == id) w.tokens)
            (All-deleted (λ r. r.token.user_id == id) (S.tokens.rows w.tokens)),
        rw
            (
              laws.stores.groups.groups-delete_maps (λ r. r.user_id == id)
                  (S.stores.groups.delete_groups (λ g. g.owner == id) groups),
              laws.stores.groups.groups-delete_groups (λ g. g.owner == id) groups,
            )
            (All-deleted (λ g. g.owner == id) (S.stores.groups.groups groups)),
        rw
            (laws.stores.groups.maps-delete_maps (λ r. r.user_id == id)
              (S.stores.groups.delete_groups (λ g. g.owner == id) groups))
            (All-deleted (λ r. r.user_id == id)
              (S.stores.groups.maps (S.stores.groups.delete_groups (λ g. g.owner == id) groups))),
        delete_by_user_id-unowned hex S.stores laws.stores id w.devices,
      )

  -- Where there is no server of users: for a hundred seconds after a code was asked for the address of a user,
  -- a request with any code whatever deletes the user. The tables of users, scripts, tokens, groups and links of
  -- groups then have no row of the user, and the user is not the owner of a device.
  pub delete_user-IsGone :
      (encode : List ℕ → Str) (random now t : ℕ) (email sent_code : Str) (w : World S)
      (user : UsersModel)
      → S.has_remote ≡ false
      → now ≤ t
      → t < now + 100
      → find (λ u. email_eq email u.email) (S.users.rows w.users) ≡ some user
      → (v : World S) × (delete_user hex S t email sent_code
            (record w { sessions = (gen_code S.sessions now encode random email w.sessions).1 })
          ≡ (ok tt, v))
        × IsGone S user.id v
  unfolding delete_user valid_code gen_code code_key
  delete_user-IsGone encode random now t email sent_code w user local after before known =
      let w1 : World S = record w {
        sessions = (gen_code S.sessions now encode random email w.sessions).1;
      } in
      (
        delete_local_user hex S t user.id w1,
        rw
            (
              laws.sessions.get-set_ex_self (code_key email sent_code) code 100 now t w.sessions
                  after,
              lt→ltb t (now + 100) before,
              local,
              known,
            )
            refl,
        delete_local_user-IsGone t user.id w1,
      )
