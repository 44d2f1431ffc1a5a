-- ===== src/Audit/Twice.antt =====
-- Values that are sanitized again, as those of a log entry that is logged.
use backend_pluseops.Base.{ℕ, false, ◌+◌, ◌≡◌, refl, ap, ◌∙◌, Bool-cases, inl, inr, ltb}
use backend_pluseops.Audit.{
  Value, Values, Fields, null, undefined, zero_or_nan, number, boolean, text, decimal, date, array,
  object, nil, cons, end, field, redacted, or_redacted, max_depth, is_sensitive_key, sanitize_value,
  sanitize_values, sanitize_fields,
}
use backend_pluseops.Audit.Clean.{IsClean, value-IsClean}

sanitize_twice :
    (depth : ℕ) (v : Value)
    → (ltb max_depth depth ≡ false → sanitize_value depth v ≡ v)
    → sanitize_value depth (or_redacted depth v) ≡ or_redacted depth v
unfolding sanitize_value
sanitize_twice depth v h = elim (Bool-cases (ltb max_depth depth)) [
  | inl deep ↦ rw deep (rw deep refl)
  | inr shallow ↦ rw shallow (h shallow)
]

or_redacted_shallow :
    (depth : ℕ) (v : Value) → ltb max_depth depth ≡ false → or_redacted depth v ≡ v
or_redacted_shallow depth v h = rw h

mutual
  unfolding sanitize_value

  value_twice :
      (v : Value) (depth : ℕ)
      → sanitize_value depth (sanitize_value depth v) ≡ sanitize_value depth v
  value_twice null depth = sanitize_twice depth null (or_redacted_shallow depth null)
  value_twice undefined depth = sanitize_twice depth undefined (or_redacted_shallow depth undefined)
  value_twice zero_or_nan depth =
      sanitize_twice depth zero_or_nan (or_redacted_shallow depth zero_or_nan)
  value_twice (number n) depth =
      sanitize_twice depth (number n) (or_redacted_shallow depth (number n))
  value_twice (boolean b) depth =
      sanitize_twice depth (boolean b) (or_redacted_shallow depth (boolean b))
  value_twice (text t) depth = sanitize_twice depth (text t) (or_redacted_shallow depth (text t))
  value_twice (decimal t) depth = sanitize_twice depth (text t) (or_redacted_shallow depth (text t))
  value_twice (date t) depth = sanitize_twice depth (text t) (or_redacted_shallow depth (text t))
  value_twice (array vs) depth =
      let once = sanitize_values (depth + 1) vs in
      sanitize_twice depth (array once) (λ h.
        or_redacted_shallow depth (array (sanitize_values (depth + 1) once)) h
        ∙ ap array (values_twice vs (depth + 1)))
  value_twice (object fs) depth =
      let once = sanitize_fields (depth + 1) fs in
      sanitize_twice depth (object once) (λ h.
        or_redacted_shallow depth (object (sanitize_fields (depth + 1) once)) h
        ∙ ap object (fields_twice fs (depth + 1)))

  values_twice :
      (vs : Values) (depth : ℕ)
      → sanitize_values depth (sanitize_values depth vs) ≡ sanitize_values depth vs
  values_twice nil depth = refl
  values_twice (cons v vs) depth = cc (value_twice v depth, values_twice vs depth)

  fields_twice :
      (fs : Fields) (depth : ℕ)
      → sanitize_fields depth (sanitize_fields depth fs) ≡ sanitize_fields depth fs
  fields_twice end depth = refl
  fields_twice (field k v fs) depth = elim (Bool-cases (is_sensitive_key k)) [
    | inl secret ↦ rw secret (ap (field k redacted) (fields_twice fs depth))
    | inr open_key ↦ rw open_key (cc (value_twice v depth, fields_twice fs depth))
  ]

-- Sanitizing leaves nothing but REDACTED under a sensitive key, at any depth and in any spelling of the
-- key in capitals, dashes and underscores; sanitizing again changes nothing.
pub sanitize_value-IsClean :
    (v : Value) (depth : ℕ)
    → IsClean (sanitize_value depth v)
      × (sanitize_value depth (sanitize_value depth v) ≡ sanitize_value depth v)
sanitize_value-IsClean v depth = (value-IsClean v depth, value_twice v depth)
