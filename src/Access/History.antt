-- ===== src/Access/History.antt =====
-- Sequences of calls on users' roles, on the roles of tenants and on `authorize`, each run to its
-- end before the next, with a cache that carries out every deletion.
use backend_pluseops.Base.{ℕ, ◌≡◌, Bool, Option, none, List, ok}
use backend_pluseops.Access.{Access, Role}
use backend_pluseops.Access.Authorizing.{Context, Demand, authorize}
use backend_pluseops.Access.Authorizing.Coherent.{IsCoherent, authorize-IsCoherent}
use backend_pluseops.Access.Granting.{find_role, assign_roles, remove_role}
use backend_pluseops.Access.Granting.Caching.{assign_roles-IsCoherent, remove_role-IsCoherent}
use backend_pluseops.Access.Managing.{
  create_role, update_role, delete_role, assign_permissions, replace_permissions, remove_permission,
}
use backend_pluseops.Access.Managing.Caching.{
  IsOwned, create_role-IsCoherent, update_role-IsCoherent, delete_role-IsCoherent,
  assign_permissions-IsCoherent, replace_permissions-IsCoherent, remove_permission-IsCoherent,
}

-- One call. A call of these services that raises writes nothing, and is no step. The database gives
-- a new role an id that no role has, and the rows of a role that is deleted are in its own tenant.
pub data Step : Access → Access → Type 0 where
  authorized :
      {s t : Access} (demand : Demand) (context : Context)
      → (authorize demand context s).1 ≡ t
      → Step s t
  roles_assigned :
      {s t : Access} (known : Bool) (user tenant : ℕ) (ids answer : List ℕ)
      → assign_roles known user tenant ids s ≡ ok (answer, t)
      → Step s t
  role_removed :
      {s t : Access} (known : Bool) (user tenant id : ℕ) (answer : List ℕ)
      → remove_role known user tenant id s ≡ ok (answer, t)
      → Step s t
  role_created :
      {s t : Access} (id tenant name : ℕ) (description : Option ℕ) (role : Role)
      → find_role id tenant s ≡ none
      → create_role id tenant name description s ≡ ok (role, t)
      → Step s t
  role_updated :
      {s t : Access} (id tenant : ℕ) (name description : Option ℕ)
      → update_role id tenant name description s ≡ ok (tt, t)
      → Step s t
  role_deleted :
      {s t : Access} (id tenant : ℕ)
      → IsOwned id tenant s
      → delete_role id tenant s ≡ ok (tt, t)
      → Step s t
  permissions_assigned :
      {s t : Access} (id tenant : ℕ) (ids answer : List ℕ)
      → assign_permissions id tenant ids s ≡ ok (answer, t)
      → Step s t
  permissions_replaced :
      {s t : Access} (id tenant : ℕ) (ids answer : List ℕ)
      → replace_permissions id tenant ids s ≡ ok (answer, t)
      → Step s t
  permission_removed :
      {s t : Access} (id tenant permission : ℕ)
      → remove_permission id tenant permission s ≡ ok (tt, t)
      → Step s t

pub data Run : Access → Access → Type 0 where
  done : {s : Access} → Run s s
  call : {s t u : Access} → Run s t → Step t u → Run s u

Step-IsCoherent : (s t : Access) → Step s t → IsCoherent s → IsCoherent t
Step-IsCoherent s t (authorized demand context e) h =
    rw e at (authorize-IsCoherent demand context s h)
Step-IsCoherent s t (roles_assigned known user tenant ids answer e) h =
    assign_roles-IsCoherent known user tenant ids answer s t e h
Step-IsCoherent s t (role_removed known user tenant id answer e) h =
    remove_role-IsCoherent known user tenant id answer s t e h
Step-IsCoherent s t (role_created id tenant name description role fresh e) h =
    create_role-IsCoherent id tenant name description role s t e h
Step-IsCoherent s t (role_updated id tenant name description e) h =
    update_role-IsCoherent id tenant name description s t e h
Step-IsCoherent s t (role_deleted id tenant owned e) h =
    delete_role-IsCoherent id tenant s t e owned h
Step-IsCoherent s t (permissions_assigned id tenant ids answer e) h =
    assign_permissions-IsCoherent id tenant ids answer s t e h
Step-IsCoherent s t (permissions_replaced id tenant ids answer e) h =
    replace_permissions-IsCoherent id tenant ids answer s t e h
Step-IsCoherent s t (permission_removed id tenant permission e) h =
    remove_permission-IsCoherent id tenant permission s t e h

-- After any sequence of checks of permissions and of changes to roles, their permissions and their
-- holders, what is cached for a user of a tenant is what the rows grant, if that was so before.
pub Run-IsCoherent : (s t : Access) → Run s t → IsCoherent s → IsCoherent t
Run-IsCoherent s t done h = h
Run-IsCoherent s t (call {t = m} before step) h =
    Step-IsCoherent m t step (Run-IsCoherent s m before h)
