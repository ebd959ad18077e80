-- ===== src/Account/Users/Tests.antt =====
-- The theorems on users at concrete requests.
use snapemu_workflow.Base.{
  ℕ, suc, ◌≡◌, refl, Bool, true, false, Option, none, some, List, [], ◌∷◌, arith, ok, err,
}
use snapemu_workflow.Redis.{Str, codes, Expiring}
use snapemu_workflow.Redis.Memory.{expiring, expiring-IsExpiring}
use snapemu_workflow.Groups.Memory.{memory as group_memory, cache}
use snapemu_workflow.Groups.{find}
use snapemu_workflow.Devices.Creation.{slice_include}
use snapemu_workflow.Tables.Memory.{memory as table_memory, memory-IsTable}
use snapemu_workflow.Account.{Stored, gen_code}
use snapemu_workflow.Account.Login.{UsersModel, user_of, local_login, has_at}
use snapemu_workflow.Account.Tokens.{create_token}
use snapemu_workflow.Account.Tests.{md5, ann, ann_row, ann_row-gen}
use snapemu_workflow.Account.Users.{
  password_error, UserResp, UserInfo, Remote, Services, World, signup, signup_row, insert_user,
  check_username, remote_login, reset_password, info, remote_signup, verify_active_token, UserError,
  UserPutInfo,
}
use snapemu_workflow.Devices.Memory as DevicesMemory
use snapemu_workflow.Devices.Tests as DevicesTests
use snapemu_workflow.Ids.Digits.{hex}
use snapemu_workflow.Account.Users.Deletion as Deletion
use snapemu_workflow.Account.Users.Deletion.{delete_user, IsGone, delete_user-IsGone}
use snapemu_workflow.Account.Users.Active.{AllActive}
use snapemu_workflow.Account.Users.Requests.{start, signs_up, changes, verify_active_token_refused}
use snapemu_workflow.Account.Users.Entry.{signup-local_login}
use snapemu_workflow.Account.Users.Changes.{remote_login-info, reset_password-local_login}

abbrev store : Expiring Stored
store = expiring Stored

abbrev nothing : Str → Option (Stored × ℕ)
nothing k = none

abbrev ann_there : UserResp
ann_there = record { id = 6; username = codes "ann"; email = some ann }

-- A server that knows one user and counts the changes.
abbrev counting : Remote
counting = record {
  State = ℕ;
  password_login = λ name password n. (ok ann_there, n);
  password_signup = λ name password email n. (ok ann_there, suc n);
  active_email = λ id email n. (ok ann_there, suc n);
  check_email = λ email n. (ok (some ann_there), n);
  reset_password = λ id password n. (ok ann_there, suc n);
  change_password = λ id password old_password n. (ok ann_there, suc n);
  delete_user = λ id n. (ok tt, suc n);
}

abbrev services : Bool → Services
services has_remote = record {
  users = table_memory (λ u. u.id);
  groups = group_memory;
  caches = cache;
  remote = counting;
  has_remote = has_remote;
}

abbrev world : (b : Bool) → List UsersModel → World (services b)
world b users = record { users = users; groups = ([], []); caches = λ k. none; remote = 0 }

abbrev ann_info : UserInfo
ann_info = record { username = codes "ann"; password = codes "123"; email = ann }

abbrev signed_up : World (services false)
signed_up =
    (insert_user (services false)
      (signup_row ann_info (6, some ann) ann_row.password (codes "ok:t") 0) (world false [])).1

ann_signup :
    signup
      (services false)
      md5
      (λ e. true)
      0
      6
      (codes "1f90657d")
      (codes "ok:t")
      ann_info
      (world false [])
    ≡ (ok 1, signed_up)
unfolding signup check_username insert_user remote_signup slice_include find
ann_signup = rw ann_row-gen refl

signup-local_login_example :
    (user : UsersModel) × (user.id ≡ 1)
    × (user.user_login ≡ codes "ann")
    × (local_login md5 store
          (λ p. find p signed_up.users)
          (record { username = codes "ann"; password = codes "123" })
          9
          (codes "t")
          (codes "r")
          nothing
        ≡ ok (create_token store 9 (user_of user) (codes "t") (codes "r") nothing))
    × (local_login md5 store
          (λ p. find p signed_up.users)
          (record { username = ann; password = codes "123" })
          9
          (codes "t")
          (codes "r")
          nothing
        ≡ ok (create_token store 9 (user_of user) (codes "t") (codes "r") nothing))
unfolding has_at
signup-local_login_example =
    signup-local_login (services false) (memory-IsTable (λ u. u.id)) md5 store (λ e. true) 0 6
      (codes "1f90657d") (codes "ok:t") ann_info (world false []) signed_up 1 9 (codes "t")
      (codes "r") nothing refl refl refl ann_signup

remote_login-info_example :
    (user : UsersModel) × (v : World (services true)) × (remote_login
        (services true)
        md5
        5
        (record { username = codes "ann"; password = codes "123" })
        (world true [])
      ≡ (ok user, v))
    × (info
          (services true)
          md5
          (codes "1f90657d")
          user.id
          (record { password = some (codes "12345678"); old_password = some (codes "123") })
          v
        ≡ (err password_error, record v { remote = 1 }))
unfolding find
remote_login-info_example =
    remote_login-info (services true) (memory-IsTable (λ u. u.id)) md5 5 (codes "1f90657d")
      (record { username = codes "ann"; password = codes "123" }) (codes "12345678") (world true [])
      ann_there ann_there 0 1 refl (omega arith) refl refl refl

reset_password-local_login_example :
    (v : World (services false)) × (reset_password
        (services false)
        md5
        store
        50
        (gen_code store 10 (λ bs. bs) 7 ann nothing).1
        (codes "1f90657d")
        (record { email = ann; code = codes "wrong"; password = codes "123" })
        (world false (record ann_row { password = [] } ∷ []))
      ≡ (ok tt, v))
    × (local_login md5 store
          (λ p. find p v.users)
          (record { username = ann; password = codes "123" })
          90
          (codes "t")
          (codes "r")
          nothing
        ≡ ok (create_token store 90 (user_of ann_row) (codes "t") (codes "r") nothing))
unfolding has_at find
reset_password-local_login_example =
    reset_password-local_login (services false) (memory-IsTable (λ u. u.id)) (λ u. refl) md5 store
      (expiring-IsExpiring Stored) (λ bs. bs) 7 10 50 (codes "1f90657d")
      (record { email = ann; code = codes "wrong"; password = codes "123" }) nothing
      (world false (record ann_row { password = [] } ∷ [])) (record ann_row { password = [] })
      ann_row.password 90 (codes "t") (codes "r") nothing refl (omega arith) (omega arith) refl refl
      refl refl ann_row-gen

abbrev all_services : Deletion.Services
all_services = record {
  users = table_memory (λ u. u.id);
  scripts = table_memory (λ r. r.id);
  tokens = table_memory (λ r. r.id);
  sessions = store;
  stores = DevicesMemory.stores;
  remote = counting;
  has_remote = false;
}

all_services-IsServices : Deletion.IsServices all_services
all_services-IsServices = record {
  users = memory-IsTable (λ u. u.id);
  scripts = memory-IsTable (λ r. r.id);
  tokens = memory-IsTable (λ r. r.id);
  sessions = expiring-IsExpiring Stored;
  stores = DevicesMemory.stores-IsStores;
}

-- Ann owns a node.
abbrev with_ann : Deletion.World all_services
with_ann = record {
  users = record ann_row { id = 9 } ∷ [];
  scripts =
      record { id = 1; script = codes "s"; lang = codes "js"; owner = 9; name = codes "n" } ∷ [];
  tokens = [];
  sessions = nothing;
  devices = DevicesTests.world;
  remote = 0;
}

delete_user-IsGone_example :
    (v : Deletion.World all_services) × (delete_user hex all_services 50 ann
        (codes "wrong")
        (record with_ann { sessions = (gen_code store 10 (λ bs. bs) 7 ann nothing).1 })
      ≡ (ok tt, v))
    × IsGone all_services 9 v
unfolding find
delete_user-IsGone_example =
    delete_user-IsGone hex all_services all_services-IsServices (λ bs. bs) 7 10 50 ann
      (codes "wrong") with_ann (record ann_row { id = 9 }) refl (omega arith) (omega arith) refl

abbrev new_password : UserPutInfo
new_password = record { password = some (codes "12345678"); old_password = some (codes "123") }

-- Ann has signed up and then asked for a change of the password.
abbrev changed : World (services false)
changed =
    (info (services false) md5 (codes "1f90657d") 1 new_password
      (signup (services false) md5 (λ e. true) 0 6 (codes "1f90657d") (codes "ok:t") ann_info
        (world false [])).1).1

verify_active_token_refused_example :
    AllActive (services false) changed
    × ((e : UserError) × (verify_active_token (services false) md5 (codes "ok:t") changed
          ≡ (err e, changed)))
verify_active_token_refused_example =
    verify_active_token_refused (services false) (memory-IsTable (λ u. u.id)) md5 store
      (world false []) changed (codes "ok:t") tt
      (changes (codes "1f90657d") 1 new_password
        (signs_up (λ e. true) 0 6 (codes "1f90657d") (codes "ok:t") ann_info start))
