-- ===== src/Storage/Users.antt =====
-- pkg/storage/storage_user.go
use razpravljalnica.Base.{nat_eq, String, Bool, none, some, is_some}
use razpravljalnica.Int64.{Int64, inc}
use razpravljalnica.Dict.{lookup, insert}
use razpravljalnica.Storage.Types.{User, Storage, Reply, done, fail, user_not_found}

unfoldable pub create_user : String → Storage → Storage × Reply User
create_user name s = (
  record s { users = insert s.next_user_id user s.users; next_user_id = inc s.next_user_id },
  done user,
)
  where
    user : User
    user = record { id = s.next_user_id; name = name }

unfoldable pub get_user : Int64 → Storage → Reply User
get_user user_id s = elim (lookup user_id s.users) [
  | none ↦ fail user_not_found
  | some user ↦ done user
]

unfoldable pub user_exists : Int64 → Storage → Bool
user_exists user_id s = is_some (lookup user_id s.users)
