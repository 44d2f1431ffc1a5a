-- ===== src/Examples/Permits.antt =====
-- Roles, permissions and categories at concrete inputs.
use backend_pluseops.Base.{
  ℕ, ◌≡◌, ◌≤◌, refl, true, false, none, some, [], ◌∷◌, ok, is_ok, is_some, arith, pair_eq, nat_eq,
}
use backend_pluseops.Base.Tables.{lookup, upsert}
use backend_pluseops.Auth.{MembershipStatus, tenant_scope}
use backend_pluseops.Access.{
  Access, Role, Permission, is_member, granted, granted_by, role_ids, forget_user, forget_tenant,
}
use backend_pluseops.Access.Authorizing.{
  Context, Demand, authorize, authorize_member, get_user_permissions, read_permissions,
}
use backend_pluseops.Access.Authorizing.Coherent.{IsCoherent}
use backend_pluseops.Access.Deciding.{is_allowed, is_permitted, Run-is_allowed}
use backend_pluseops.Access.Granting.{find_role, holders, remove_role, delete_row}
use backend_pluseops.Access.Granting.Admins.{remove_role-keeps_admin}
use backend_pluseops.Access.Managing.{
  assign_permissions, get_mutable_role, assert_tenant_permissions, find_permissions, add_grants,
  permission_ids,
}
use backend_pluseops.Access.Granting.{unique}
use backend_pluseops.Access.Managing.Immutable.{Protected}
use backend_pluseops.Access.History.{done, call, authorized, permissions_assigned, Run-IsCoherent}
use backend_pluseops.Access.Protecting.{Run-Protected}
use backend_pluseops.Categories.{
  Category, NewCategory, Shelf, CategoryChange, keep, set, create, update, find_category,
  exists_by_slug, check_parent, check_change, would_create_cycle, parent_of, finish_change,
  apply_change, change_category, rewritten, has_children,
}
use backend_pluseops.Categories.Forest.{walk, IsForest}
use backend_pluseops.Categories.Growing.{update_ends}
use backend_pluseops.Categories.Pruning.{created, updated, done as rest, call as also, Run-IsForest}

-- A tenant with two admins, one of whom is a clerk too.
abbrev admin : Role
admin = record { id = 5; tenant_id = 1; name = 0; description = none; is_system = true }

abbrev clerks : Role
clerks = record { id = 6; tenant_id = 1; name = 2; description = none; is_system = false }

abbrev reading : Permission
reading = record { id = 30; tenant_id = 1; resource = 4; action = 0 }

abbrev writing : Permission
writing = record { id = 31; tenant_id = 1; resource = 4; action = 1 }

abbrev permits : Access
permits = record {
  memberships = record { tenant_id = 1; user_id = 7; status = MembershipStatus.active } ∷ [];
  roles = admin ∷ clerks ∷ [];
  permissions = reading ∷ writing ∷ [];
  user_roles =
      record { tenant_id = 1; user_id = 7; role_id = 6 }
      ∷ record { tenant_id = 1; user_id = 7; role_id = 5 }
      ∷ record { tenant_id = 1; user_id = 8; role_id = 5 }
      ∷ [];
  role_permissions = record { tenant_id = 1; role_id = 6; permission_id = 30 } ∷ [];
  cache = [];
}

permits-IsCoherent : IsCoherent permits
unfolding lookup
permits-IsCoherent = record { agrees = λ user tenant ps e. ground arith }

abbrev to_write : Demand
to_write = record { resource = 4; action = 1 }

abbrev asked : Context
asked = record { user_id = some 7; tenant_id = some 1; scope = tenant_scope }

-- A refused check fills the cache; the grant that follows empties it.
abbrev cached : Access
cached = record permits { cache = ((1, 7), reading ∷ []) ∷ [] }

abbrev allowed : Access
allowed = record permits {
  role_permissions =
      record { tenant_id = 1; role_id = 6; permission_id = 31 } ∷ permits.role_permissions;
}

checks : (authorize to_write asked permits).1 ≡ cached
unfolding authorize authorize_member is_member get_user_permissions read_permissions lookup granted
    granted_by role_ids upsert
checks = refl

grants : assign_permissions 6 1 (31 ∷ []) cached ≡ ok (31 ∷ 30 ∷ [], allowed)
unfolding assign_permissions get_mutable_role find_role assert_tenant_permissions find_permissions
    unique add_grants permission_ids forget_tenant
grants = refl

Run-IsCoherent_example : IsCoherent allowed
Run-IsCoherent_example =
    Run-IsCoherent permits allowed
      (call (call done (authorized to_write asked checks))
        (permissions_assigned 6 1 (31 ∷ []) (31 ∷ 30 ∷ []) grants))
      permits-IsCoherent

-- The permission that was refused before it was granted
Run-is_allowed_example : is_ok (authorize to_write asked allowed).0 ≡ true
unfolding is_allowed is_permitted is_member
Run-is_allowed_example =
    Run-is_allowed permits allowed to_write asked
      (call (call done (authorized to_write asked checks))
        (permissions_assigned 6 1 (31 ∷ []) (31 ∷ 30 ∷ []) grants))
      permits-IsCoherent

Run-Protected_example : Protected 5 1 admin [] allowed
unfolding find_role permission_ids
Run-Protected_example =
    Run-Protected 5 1 admin [] permits allowed
      (call (call done (authorized to_write asked checks))
        (permissions_assigned 6 1 (31 ∷ []) (31 ∷ 30 ∷ []) grants))
      (record { found = refl; system = refl; grants = refl })

abbrev demoted : Access
demoted = record permits {
  user_roles =
      record { tenant_id = 1; user_id = 7; role_id = 6 }
      ∷ record { tenant_id = 1; user_id = 8; role_id = 5 }
      ∷ [];
}

demotes : remove_role true 7 1 5 permits ≡ ok (6 ∷ [], demoted)
unfolding remove_role is_member find_role holders delete_row forget_user role_ids
demotes = refl

remove_role-keeps_admin_example : 1 ≤ holders 1 5 demoted
unfolding find_role holders
remove_role-keeps_admin_example =
    remove_role-keeps_admin true 7 1 5 1 5 admin (6 ∷ []) permits demoted refl refl (omega arith)
      (omega arith) demotes

-- Categories: a root and a child, and the child moved to the top.
abbrev empty : Shelf
empty = record { categories = []; products = [] }

abbrev root : Category
root = record {
  id = 1;
  tenant_id = 1;
  parent_id = none;
  name = 1;
  slug = 1;
  description = none;
  sort_order = 0;
  is_active = true;
}

abbrev planted : Shelf
planted = record { categories = root ∷ []; products = [] }

abbrev branch : Category
branch = record root { id = 2; parent_id = some 1; name = 2; slug = 2 }

abbrev branched : Shelf
branched = record { categories = branch ∷ root ∷ []; products = [] }

abbrev root_body : NewCategory
root_body = record {
  parent_id = none;
  name = 1;
  slug = 1;
  description = none;
  sort_order = none;
  is_active = none;
}

abbrev move_up : CategoryChange
move_up = record {
  parent_id = set none;
  name = none;
  slug = none;
  description = keep;
  sort_order = none;
  is_active = none;
}

abbrev levelled : Shelf
levelled = record { categories = record branch { parent_id = none } ∷ root ∷ []; products = [] }

plants : create 1 1 root_body empty ≡ ok (root, planted)
unfolding create exists_by_slug check_parent
plants = refl

branches :
    create 2 1 (record root_body { parent_id = some 1; name = 2; slug = 2 }) planted
    ≡ ok (branch, branched)
unfolding create exists_by_slug check_parent find_category
branches = refl

levels : update 3 2 1 move_up branched ≡ some (ok (tt, levelled))
unfolding update check_change find_category check_parent would_create_cycle finish_change
    apply_change change_category rewritten
levels = refl

empty-IsForest : IsForest 1 empty
unfolding walk parent_of find_category
empty-IsForest = record { ends = λ x. (1, refl) }

branched-IsForest : IsForest 1 branched
unfolding find_category has_children
branched-IsForest =
    Run-IsForest 1 empty branched
      (also
        (also rest (created 1 root_body root (record { absent = refl; childless = refl }) plants))
        (created 2 _ branch (record { absent = refl; childless = refl }) branches))
      empty-IsForest

Run-IsForest_example : IsForest 1 levelled
Run-IsForest_example =
    Run-IsForest 1 branched levelled (also rest (updated 3 2 move_up levels)) branched-IsForest

update_ends_example :
    (n : ℕ) × ((fuel : ℕ) → n ≤ fuel → is_some (update fuel 2 1 move_up branched) ≡ true)
update_ends_example = update_ends 2 1 move_up branched branched-IsForest
