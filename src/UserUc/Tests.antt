-- ===== src/UserUc/Tests.antt =====
-- The theorems about the deletion of users at a student and a teacher of one school.
use schulcloud.Base.{
  String, ◌≡◌, ◌↔◌, refl, none, some, List, [], ◌∷◌, ◌++◌, true, ◌==◌, if◌then◌else◌, All, ok, err,
  not_found,
}
use schulcloud.UserUc.{
  User, grant_permissions_for_school, has, check_permissions, check_users, Facade,
  delete_user_related_data, created_user, stored_id, get_or_create_tombstone_user_id,
}
use schulcloud.UserUc.Laws.{
  check_permissions_and_or_iff, MayActOn, check_users_iff, all_trash,
  delete_user_related_data-all_trash, get_or_create_tombstone_user_id-again,
}

abbrev school_id : String
school_id = "0000000000000000000000aa"

abbrev teacher : User
teacher = record {
  id = "1";
  school_id = school_id;
  roles = record { name = "teacher"; permissions = "STUDENT_DELETE" ∷ [] } ∷ [];
}

abbrev student : User
student = record {
  id = "2";
  school_id = school_id;
  roles = record { name = "student"; permissions = [] } ∷ [];
}

check_permissions_and_or_iff_example :
    ((check_permissions teacher school_id ("STUDENT_DELETE" ∷ []) "AND" ≡ ok tt) ↔ (
      (grant_permissions_for_school teacher school_id ≡ true)
      × All (λ p. has teacher p ≡ true) ("STUDENT_DELETE" ∷ [])))
    × ((check_permissions teacher school_id ("STUDENT_DELETE" ∷ []) "OR" ≡ ok tt)
        ↔ (grant_permissions_for_school teacher school_id ≡ true))
check_permissions_and_or_iff_example =
    check_permissions_and_or_iff teacher school_id ("STUDENT_DELETE" ∷ [])

abbrev to_upper : String → String
to_upper name = if name == "student" then "STUDENT" else name

abbrev permission_of : String → String
permission_of prefix = if prefix == "STUDENT_" then "STUDENT_DELETE" else "TEACHER_DELETE"

check_users_iff_run :
    (check_users to_upper permission_of (student ∷ []) "STUDENT" teacher ≡ ok tt)
    ↔ All (MayActOn to_upper permission_of "STUDENT" teacher) (student ∷ [])
check_users_iff_run = check_users_iff to_upper permission_of (student ∷ []) "STUDENT" teacher

abbrev facades : List Facade
facades =
    record {
      name = "/helpdesk/v2";
      functions =
          record { name = "a"; run = λ user tombstone. err not_found }
          ∷ record { name = "b"; run = λ user tombstone. ok "problems" }
          ∷ [];
    }
    ∷ []

delete_user_related_data-all_trash_run :
    delete_user_related_data "2" none facades [] ≡ [] ++ all_trash "2" none facades
delete_user_related_data-all_trash_run = delete_user_related_data-all_trash "2" none facades []

get_or_create_tombstone_user_id-again_run :
    (get_or_create_tombstone_user_id (λ s. "9") (some "t") none
      ≡ (some (created_user "9"), some "9"))
    × (get_or_create_tombstone_user_id (λ s. "9") (some "t") (some "9")
        ≡ (some (stored_id "9"), some "9"))
get_or_create_tombstone_user_id-again_run =
    get_or_create_tombstone_user_id-again (λ s. "9") "t" refl
