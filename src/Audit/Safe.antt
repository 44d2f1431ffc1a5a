-- ===== src/Audit/Safe.antt =====
-- What the logs hold.
use backend_pluseops.Base.{
  ℕ, Bool, true, false, ◌≡◌, sym, if◌then◌else◌, List, [], ◌∷◌, ◌++◌, Option, none, some, ok,
}
use backend_pluseops.Base.Lists.{All}
use backend_pluseops.Audit.{
  Value, null, object, end, sanitize_value, sanitize_audit_value, sanitize_metadata, is_truthy,
  Logs, AuditLog, ActivityLog, log_audit, log_activity, audit_row, activity_row,
}
use backend_pluseops.Audit.Clean.{IsClean, value-IsClean}

truthy-IsClean : (b : Bool) (v w : Value) → IsClean v → IsClean w → IsClean (if b then v else w)
truthy-IsClean true v w h k = h
truthy-IsClean false v w h k = k

abbrev pub IsCleanAudit : AuditLog → Type 0
IsCleanAudit row = IsClean row.old_value × IsClean row.new_value

abbrev pub IsCleanActivity : ActivityLog → Type 0
IsCleanActivity row = IsClean row.metadata

-- The logs hold nothing but REDACTED under sensitive keys.
pub record AreSafe (s : Logs) : Type 0 where
  pub audits : All IsCleanAudit s.audits
  pub activities : All IsCleanActivity s.activities

All-snoc :
    {A : Type 0} (P : A → Type 0) (xs : List A) (x : A) → All P xs → P x → All P (xs ++ (x ∷ []))
All-snoc P [] x h p = (p, tt)
All-snoc P (y ∷ ys) x h p = (h.0, All-snoc P ys x h.1 p)

audit_value-IsClean : (v : Value) → IsClean (sanitize_audit_value v)
unfolding sanitize_audit_value IsClean
audit_value-IsClean v =
    truthy-IsClean (is_truthy v) (sanitize_value 0 v) null (value-IsClean v 0) tt

metadata-IsClean : (v : Value) → IsClean (sanitize_metadata v)
unfolding sanitize_metadata IsClean
metadata-IsClean v =
    truthy-IsClean (is_truthy v) (sanitize_value 0 v) (object end) (value-IsClean v 0) tt

audit_row-IsClean :
    (tenant : ℕ) (user : Option ℕ) (action resource : ℕ) (id : Option ℕ) (old new : Value)
    → IsCleanAudit (audit_row tenant user action resource id old new)
unfolding audit_row
audit_row-IsClean tenant user action resource id old new =
    (audit_value-IsClean old, audit_value-IsClean new)

activity_row-IsClean :
    (tenant : ℕ) (user : Option ℕ) (action : ℕ) (metadata : Value)
    → IsCleanActivity (activity_row tenant user action metadata)
unfolding activity_row IsClean
activity_row-IsClean tenant user action metadata =
    truthy-IsClean (is_truthy metadata) (sanitize_metadata metadata) (object end)
      (metadata-IsClean metadata) tt

log_audit-AreSafe :
    (tenant user action resource id : Option ℕ) (old new : Value) (s t : Logs)
    → AreSafe s
    → log_audit tenant user action resource id old new s ≡ ok t
    → AreSafe t
unfolding log_audit
log_audit-AreSafe (some tenant) user (some action) (some resource) id old new s t h e =
    let row = audit_row tenant user action resource id old new in
    let after : record s { audits = s.audits ++ (row ∷ []) } ≡ t = cc in
    rw (sym after) (record {
      audits =
          All-snoc IsCleanAudit s.audits row h.audits
            (audit_row-IsClean tenant user action resource id old new);
      activities = h.activities;
    })
log_audit-AreSafe (some tenant) user (some action) none id old new s t h e = cc
log_audit-AreSafe (some tenant) user none resource id old new s t h e = cc
log_audit-AreSafe none user action resource id old new s t h e = cc

log_activity-AreSafe :
    (tenant user action : Option ℕ) (metadata : Value) (s t : Logs)
    → AreSafe s
    → log_activity tenant user action metadata s ≡ ok t
    → AreSafe t
unfolding log_activity
log_activity-AreSafe (some tenant) user (some action) metadata s t h e =
    let row = activity_row tenant user action metadata in
    let after : record s { activities = s.activities ++ (row ∷ []) } ≡ t = cc in
    rw (sym after) (record {
      audits = h.audits;
      activities =
          All-snoc IsCleanActivity s.activities row h.activities
            (activity_row-IsClean tenant user action metadata);
    })
log_activity-AreSafe (some tenant) user none metadata s t h e = cc
log_activity-AreSafe none user action metadata s t h e = cc

-- The writes to the logs.
pub data Written : Logs → Type 0 where
  blank : Written (record { audits = []; activities = [] })
  audited :
      {s t : Logs} (tenant user action resource id : Option ℕ) (old new : Value)
      → Written s
      → log_audit tenant user action resource id old new s ≡ ok t
      → Written t
  acted :
      {s t : Logs} (tenant user action : Option ℕ) (metadata : Value)
      → Written s
      → log_activity tenant user action metadata s ≡ ok t
      → Written t

-- Whatever values are passed to logAudit and logActivity, in any order, the audit and activity logs hold
-- nothing but REDACTED under a sensitive key, at any depth.
pub Written-AreSafe : {s : Logs} → Written s → AreSafe s
Written-AreSafe blank = record { audits = tt; activities = tt }
Written-AreSafe (audited {s} {t} tenant user action resource id old new w e) =
    log_audit-AreSafe tenant user action resource id old new s t (Written-AreSafe w) e
Written-AreSafe (acted {s} {t} tenant user action metadata w e) =
    log_activity-AreSafe tenant user action metadata s t (Written-AreSafe w) e
