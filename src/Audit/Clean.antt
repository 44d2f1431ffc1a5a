-- ===== src/Audit/Clean.antt =====
-- Values as sanitizeValue leaves them.
use backend_pluseops.Base.{ℕ, true, ◌+◌, ◌≡◌, refl, Bool-cases, inl, inr, ltb}
use backend_pluseops.Audit.{
  Value, Values, Fields, null, undefined, zero_or_nan, number, boolean, text, decimal, date, array,
  object, nil, cons, end, field, redacted, or_redacted, max_depth, is_sensitive_key, sanitize_value,
  sanitize_values, sanitize_fields,
}

-- Nothing but REDACTED under a sensitive key, at any depth.
unfoldable mutual
  pub IsClean : Value → Type 0
  IsClean null = Unit
  IsClean undefined = Unit
  IsClean zero_or_nan = Unit
  IsClean (number n) = Unit
  IsClean (boolean b) = Unit
  IsClean (text t) = Unit
  IsClean (decimal t) = Unit
  IsClean (date t) = Unit
  IsClean (array vs) = AreClean vs
  IsClean (object fs) = HaveClean fs

  pub AreClean : Values → Type 0
  AreClean nil = Unit
  AreClean (cons v vs) = IsClean v × AreClean vs

  pub HaveClean : Fields → Type 0
  HaveClean end = Unit
  HaveClean (field k v fs) = (is_sensitive_key k ≡ true → v ≡ redacted) × IsClean v × HaveClean fs

or_redacted-IsClean : (depth : ℕ) (v : Value) → IsClean v → IsClean (or_redacted depth v)
unfolding IsClean
or_redacted-IsClean depth v h = elim (Bool-cases (ltb max_depth depth)) [
  | inl deep ↦ rw deep tt
  | inr shallow ↦ rw shallow h
]

mutual
  unfolding sanitize_value IsClean

  pub value-IsClean : (v : Value) (depth : ℕ) → IsClean (sanitize_value depth v)
  value-IsClean null depth = or_redacted-IsClean depth null tt
  value-IsClean undefined depth = or_redacted-IsClean depth undefined tt
  value-IsClean zero_or_nan depth = or_redacted-IsClean depth zero_or_nan tt
  value-IsClean (number n) depth = or_redacted-IsClean depth (number n) tt
  value-IsClean (boolean b) depth = or_redacted-IsClean depth (boolean b) tt
  value-IsClean (text t) depth = or_redacted-IsClean depth (text t) tt
  value-IsClean (decimal t) depth = or_redacted-IsClean depth (text t) tt
  value-IsClean (date t) depth = or_redacted-IsClean depth (text t) tt
  value-IsClean (array vs) depth =
      or_redacted-IsClean depth (array (sanitize_values (depth + 1) vs))
        (values-AreClean vs (depth + 1))
  value-IsClean (object fs) depth =
      or_redacted-IsClean depth (object (sanitize_fields (depth + 1) fs))
        (fields-HaveClean fs (depth + 1))

  pub values-AreClean : (vs : Values) (depth : ℕ) → AreClean (sanitize_values depth vs)
  values-AreClean nil depth = tt
  values-AreClean (cons v vs) depth = (value-IsClean v depth, values-AreClean vs depth)

  pub fields-HaveClean : (fs : Fields) (depth : ℕ) → HaveClean (sanitize_fields depth fs)
  fields-HaveClean end depth = tt
  fields-HaveClean (field k v fs) depth = elim (Bool-cases (is_sensitive_key k)) [
    | inl secret ↦ rw secret ((λ e. refl), tt, fields-HaveClean fs depth)
    | inr open_key ↦ rw open_key ((λ e. cc), value-IsClean v depth, fields-HaveClean fs depth)
  ]
