-- ===== src/Examples/Logging.antt =====
-- Log entries with a password in them.
use backend_pluseops.Base.{◌≡◌, refl, true, none, some, [], ◌∷◌}
use backend_pluseops.Audit.{
  Value, Logs, text, number, object, array, cons, nil, field, end, codes, redacted,
  is_sensitive_key, sanitize_value, log_audit, audit_row,
}
use backend_pluseops.Audit.Safe.{AreSafe, blank, audited, Written-AreSafe}

secret_key : is_sensitive_key (codes "Pass-Word_Hash") ≡ true
unfolding is_sensitive_key
secret_key = refl

abbrev request : Value
request = object (
    field (codes "user") (array (cons (object (field (codes "API_SECRET") (number 42) end)) nil))
      (field (codes "name") (text (codes "An")) end))

abbrev kept : Value
kept = object (
    field (codes "user") (array (cons (object (field (codes "API_SECRET") redacted end)) nil))
      (field (codes "name") (text (codes "An")) end))

sanitized_request : sanitize_value 0 request ≡ kept
unfolding sanitize_value is_sensitive_key
sanitized_request = refl

abbrev after : Logs
after = record { audits = audit_row 1 none 2 3 none request (text []) ∷ []; activities = [] }

Written-AreSafe_example : AreSafe after
unfolding log_audit
Written-AreSafe_example =
    Written-AreSafe
      (audited {t = after} (some 1) none (some 2) (some 3) none request (text []) blank refl)
