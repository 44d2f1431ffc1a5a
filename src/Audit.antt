-- ===== src/Audit.antt =====
-- src/modules/audit: audit.sanitize.js, and logAudit and logActivity of audit.service.js. A text is the
-- list of its characters; `toLowerCase` is here that of the ASCII letters.
pub mod Clean
pub mod Twice
pub mod Safe
use Prim.Native.Char.{code}
use Prim.Native.String.{String}
use backend_pluseops.Base.{
  ℕ, Bool, true, false, not, ◌&&◌, ◌||◌, Option, none, some, List, [], ◌∷◌, ◌++◌, map, ◌+◌, nat_eq,
  ◌==◌, ltb, leb, if◌then◌else◌, Result, ok, err, missing_argument,
}
use backend_pluseops.Base.Lists.{any, filter}

abbrev pub Text : Type 0
Text = List ℕ

abbrev pub codes : String → Text
codes String.[] = []
codes (String.◌∷◌ c s) = code c ∷ codes s

-- A JavaScript value. A number is told apart from 0 and NaN, a `Decimal` comes with its `toString`
-- and a `Date` with its `toISOString`.
mutual
  pub data Value : Type 0 where
    null undefined zero_or_nan : Value
    number : ℕ → Value
    boolean : Bool → Value
    text : Text → Value
    decimal : Text → Value
    date : Text → Value
    array : Values → Value
    object : Fields → Value

  pub data Values : Type 0 where
    nil : Values
    cons : Value → Values → Values

  pub data Fields : Type 0 where
    end : Fields
    field : Text → Value → Fields → Fields

-- SENSITIVE_KEYS
unfoldable pub sensitive_keys : List Text
sensitive_keys =
    codes "password"
    ∷ codes "passwordhash"
    ∷ codes "password_hash"
    ∷ codes "currentpassword"
    ∷ codes "newpassword"
    ∷ codes "confirmpassword"
    ∷ codes "hash"
    ∷ codes "token"
    ∷ codes "refreshtoken"
    ∷ codes "accesstoken"
    ∷ codes "secret"
    ∷ codes "apisecret"
    ∷ codes "webhooksecret"
    ∷ codes "providersecret"
    ∷ codes "providercredentials"
    ∷ codes "authorization"
    ∷ codes "cookie"
    ∷ codes "credentials"
    ∷ codes "clientsecret"
    ∷ codes "privatekey"
    ∷ codes "seed"
    ∷ codes "salt"
    ∷ codes "tokenhash"
    ∷ codes "token_hash"
    ∷ codes "refreshtokenhash"
    ∷ codes "emailverificationtoken"
    ∷ codes "passwordresettoken"
    ∷ []

-- REDACTED
abbrev pub redacted : Value
redacted = text (codes "[REDACTED]")

abbrev pub max_depth : ℕ
max_depth = 8

abbrev pub lower : ℕ → ℕ
lower c = if leb b'A' c && leb c b'Z' then c + 32 else c

unfoldable pub same_text : Text → Text → Bool
same_text [] [] = true
same_text (a ∷ s) (b ∷ t) = a == b && same_text s t
same_text _ _ = false

-- `key.toLowerCase().replace(/[_-]/g, '')`
unfoldable pub normalized : Text → Text
normalized key = filter (λ c. not (c == b'_' || c == b'-')) (map lower key)

-- `isSensitiveKey`; the empty key is in no case one.
unfoldable pub is_sensitive_key : Text → Bool
unfolding normalized same_text sensitive_keys
is_sensitive_key key = any (same_text (normalized key)) sensitive_keys

abbrev pub or_redacted : ℕ → Value → Value
or_redacted depth v = if ltb max_depth depth then redacted else v

-- `sanitizeValue`
unfoldable mutual
  pub sanitize_value : ℕ → Value → Value
  sanitize_value depth null = or_redacted depth null
  sanitize_value depth undefined = or_redacted depth undefined
  sanitize_value depth zero_or_nan = or_redacted depth zero_or_nan
  sanitize_value depth (number n) = or_redacted depth (number n)
  sanitize_value depth (boolean b) = or_redacted depth (boolean b)
  sanitize_value depth (text t) = or_redacted depth (text t)
  sanitize_value depth (decimal t) = or_redacted depth (text t)
  sanitize_value depth (date t) = or_redacted depth (text t)
  sanitize_value depth (array vs) = or_redacted depth (array (sanitize_values (depth + 1) vs))
  sanitize_value depth (object fs) = or_redacted depth (object (sanitize_fields (depth + 1) fs))

  pub sanitize_values : ℕ → Values → Values
  sanitize_values depth nil = nil
  sanitize_values depth (cons v vs) = cons (sanitize_value depth v) (sanitize_values depth vs)

  pub sanitize_fields : ℕ → Fields → Fields
  sanitize_fields depth end = end
  sanitize_fields depth (field k v fs) =
      field k (if is_sensitive_key k then redacted else sanitize_value depth v)
        (sanitize_fields depth fs)

-- `value ? … : …`
abbrev pub is_truthy : Value → Bool
is_truthy null = false
is_truthy undefined = false
is_truthy zero_or_nan = false
is_truthy (boolean b) = b
is_truthy (text []) = false
is_truthy _ = true

-- `sanitizeAuditValues`, for one of the two
unfoldable pub sanitize_audit_value : Value → Value
sanitize_audit_value v = if is_truthy v then sanitize_value 0 v else null

-- `sanitizeMetadata`
unfoldable pub sanitize_metadata : Value → Value
sanitize_metadata v = if is_truthy v then sanitize_value 0 v else object end

pub record AuditLog : Type 0 where
  pub tenant_id : ℕ
  pub user_id : Option ℕ
  pub action : ℕ
  pub resource : ℕ
  pub resource_id : Option ℕ
  pub old_value : Value
  pub new_value : Value

pub record ActivityLog : Type 0 where
  pub tenant_id : ℕ
  pub user_id : Option ℕ
  pub action : ℕ
  pub metadata : Value

pub record Logs : Type 0 where
  pub audits : List AuditLog
  pub activities : List ActivityLog

unfoldable pub audit_row : ℕ → Option ℕ → ℕ → ℕ → Option ℕ → Value → Value → AuditLog
audit_row tenant user action resource resource_id old_value new_value = record {
  tenant_id = tenant;
  user_id = user;
  action = action;
  resource = resource;
  resource_id = resource_id;
  old_value = sanitize_audit_value old_value;
  new_value = sanitize_audit_value new_value;
}

unfoldable pub activity_row : ℕ → Option ℕ → ℕ → Value → ActivityLog
activity_row tenant user action metadata = record {
  tenant_id = tenant;
  user_id = user;
  action = action;
  metadata = if is_truthy metadata then sanitize_metadata metadata else object end;
}

-- `logAudit`. The tenant, the action and the resource are required, and the writes to the tables are
-- appends; the address and the agent of the client are left out.
unfoldable pub log_audit :
    Option ℕ → Option ℕ → Option ℕ → Option ℕ → Option ℕ → Value → Value → Logs → Result Logs
log_audit (some tenant) user (some action) (some resource) resource_id old_value new_value s =
    let row = audit_row tenant user action resource resource_id old_value new_value in
    ok (record s { audits = s.audits ++ (row ∷ []) })
log_audit _ user _ _ resource_id old_value new_value s = err missing_argument

-- `logActivity`
unfoldable pub log_activity : Option ℕ → Option ℕ → Option ℕ → Value → Logs → Result Logs
log_activity (some tenant) user (some action) metadata s =
    let row = activity_row tenant user action metadata in
    ok (record s { activities = s.activities ++ (row ∷ []) })
log_activity _ user _ metadata s = err missing_argument
