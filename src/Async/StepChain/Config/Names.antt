-- ===== src/Async/StepChain/Config/Names.antt =====
-- What a configuration that passed the checks of src/pyads/rpc_interface.py holds.
use pyads_agile.Prelude.{
  ℕ, zero, suc, ◌+◌, ◌*◌, ◌^◌, ◌≤◌, ◌<◌, ◌⊎◌, ◌≡◌, ◌≢◌, refl, ap, ◌∙◌, subst, arith, [], ◌∷◌, true,
  false, if◌then◌else◌, Bool-cases, inl, inr, Option, none, some, Result, ok, err, value_error,
  >>=-eq-ok, ok_inj, not_ok,
}
use pyads_agile.Python.Int.{ℤ, pos, negsuc}
use pyads_agile.Python.Utf8.{Text}
use pyads_agile.Structure.Value.{
  Value, bool_value, int_value, float_value, text_value, dict_value, list_value,
}
use pyads_agile.Async.StepChain.Config.{
  is_space, strip_left, keep_before, strip_right, strip, Attributes, Settings, nonempty,
  required_name, some_name, optional_name, positive_length, completion_of, is_not_positive,
  positive_time, optional_time, checked_settings, float_of,
}

-- The name is not empty, and has no space at its ends.
abbrev pub IsName : Text → Type 0
IsName t = (t ≢ []) × (strip t ≡ t)

abbrev pub IsOptionalName : Option Text → Type 0
IsOptionalName none = Unit {0}
IsOptionalName (some t) = IsName t

-- does not begin with a space
IsLeft : Text → Type 0
IsLeft [] = Unit {0}
IsLeft (c ∷ cs) = is_space c ≡ false

strip_left-IsLeft : (t : Text) → IsLeft (strip_left t)
unfolding IsLeft
strip_left-IsLeft [] = tt
strip_left-IsLeft (c ∷ cs) = elim (Bool-cases (is_space c)) [
  | inl space ↦ rw space (strip_left-IsLeft cs)
  | inr letter ↦ rw letter letter
]

IsLeft-strip_left : (t : Text) → IsLeft t → strip_left t ≡ t
unfolding IsLeft
IsLeft-strip_left [] h = refl
IsLeft-strip_left (c ∷ cs) h = rw h refl

keep_before-IsLeft : (c : ℕ) (t : Text) → is_space c ≡ false → IsLeft (keep_before c t)
unfolding IsLeft
keep_before-IsLeft c [] h = rw h h
keep_before-IsLeft c (d ∷ ds) h = h

strip_right-IsLeft : (t : Text) → IsLeft t → IsLeft (strip_right t)
unfolding IsLeft
strip_right-IsLeft [] h = tt
strip_right-IsLeft (c ∷ cs) h = keep_before-IsLeft c (strip_right cs) h

keep_before-twice :
    (c : ℕ) (t : Text) → strip_right t ≡ t → strip_right (keep_before c t) ≡ keep_before c t
keep_before-twice c [] h = elim (Bool-cases (is_space c)) [
  | inl space ↦ rw space refl
  | inr letter ↦ rw letter (rw letter refl)
]
keep_before-twice c (d ∷ ds) h = ap (keep_before c) h

strip_right-twice : (t : Text) → strip_right (strip_right t) ≡ strip_right t
strip_right-twice [] = refl
strip_right-twice (c ∷ cs) = keep_before-twice c (strip_right cs) (strip_right-twice cs)

strip-twice : (t : Text) → strip (strip t) ≡ strip t
strip-twice t =
    let left = strip_right-IsLeft (strip_left t) (strip_left-IsLeft t) in
    ap strip_right (IsLeft-strip_left (strip t) left) ∙ strip_right-twice (strip_left t)

nonempty-IsName : (t u : Text) → strip t ≡ t → nonempty t ≡ ok u → IsName u
nonempty-IsName [] u h e = absurd (not_ok e)
nonempty-IsName (c ∷ cs) u h e = subst IsName (ok_inj e) ((λ f. cc), h)

required_name-IsName : (v : Option Value) (u : Text) → required_name v ≡ ok u → IsName u
required_name-IsName none u e = absurd (not_ok e)
required_name-IsName (some (text_value t)) u e = nonempty-IsName (strip t) u (strip-twice t) e
required_name-IsName (some (bool_value b)) u e = absurd (not_ok e)
required_name-IsName (some (int_value z)) u e = absurd (not_ok e)
required_name-IsName (some (float_value x)) u e = absurd (not_ok e)
required_name-IsName (some (dict_value fs)) u e = absurd (not_ok e)
required_name-IsName (some (list_value vs)) u e = absurd (not_ok e)

some_name-IsName :
    (r : Result Text) (o : Option Text)
    → ((u : Text) → r ≡ ok u → IsName u)
    → some_name r ≡ ok o
    → IsOptionalName o
some_name-IsName (err x) o h e = absurd (not_ok e)
some_name-IsName (ok t) o h e = subst IsOptionalName (ok_inj e) (h t refl)

optional_name-IsName :
    (v : Option Value) (o : Option Text) → optional_name v ≡ ok o → IsOptionalName o
optional_name-IsName none o e = subst IsOptionalName (ok_inj e) tt
optional_name-IsName (some v) o e =
    some_name-IsName (required_name (some v)) o (required_name-IsName (some v)) e

positive_length-le : (v : Value) (n : ℕ) → positive_length v ≡ ok n → 1 ≤ n
positive_length-le (bool_value true) n e = subst (λ k. 1 ≤ k) (ok_inj e) (omega arith)
positive_length-le (bool_value false) n e = absurd (not_ok e)
positive_length-le (int_value (pos zero)) n e = absurd (not_ok e)
positive_length-le (int_value (pos (suc m))) n e = subst (λ k. 1 ≤ k) (ok_inj e) (omega arith)
positive_length-le (int_value (negsuc m)) n e = absurd (not_ok e)
positive_length-le (float_value x) n e = absurd (not_ok e)
positive_length-le (text_value t) n e = absurd (not_ok e)
positive_length-le (dict_value fs) n e = absurd (not_ok e)
positive_length-le (list_value vs) n e = absurd (not_ok e)

-- A 64-bit float above 0: no sign, not all zeros, and at most the infinity.
abbrev pub IsPositiveFloat : ℕ → Type 0
IsPositiveFloat bits = (0 < bits) × (bits ≤ 2047 * 2 ^ 52)

-- A 64-bit float that is not a number: beyond the infinity, without or with the sign.
abbrev pub IsNan : ℕ → Type 0
IsNan bits = ((2047 * 2 ^ 52 < bits) × (bits < 2 ^ 63)) ⊎ (2 ^ 63 + 2047 * 2 ^ 52 < bits)

abbrev pub IsTime : ℕ → Type 0
IsTime bits = IsPositiveFloat bits ⊎ IsNan bits

abbrev pub IsOptionalTime : Option ℕ → Type 0
IsOptionalTime none = Unit {0}
IsOptionalTime (some bits) = IsTime bits

is_not_positive-IsTime : (bits : ℕ) → is_not_positive bits ≡ false → IsTime bits
is_not_positive-IsTime bits e = elim (split bits (2047 * 2 ^ 52)) [
  | inl low ↦ inl (ground arith, low)
  | inr high ↦ elim (split bits (2 ^ 63 + 2047 * 2 ^ 52)) [
    | inl mid ↦ inr (inl (high, ground arith))
    | inr top ↦ inr (inr top)
  ]
]
  where
    split : (m n : ℕ) → (m ≤ n) ⊎ (n < m)
    split m n = ground arith

-- Every name is a name, the length is above 0, and the times are above 0 or not a number.
pub record IsChecked (s : Settings) : Type 0 where
  pub status_symbol : IsOptionalName s.config.status_symbol
  pub status_field : IsName s.config.status_field
  pub request_id_field : IsName s.config.request_id_field
  pub request_id_arg : IsName s.config.request_id_arg
  pub busy_field : IsOptionalName s.config.busy_field
  pub done_field : IsName s.config.done_field
  pub error_field : IsName s.config.error_field
  pub error_code_field : IsName s.config.error_code_field
  pub step_field : IsOptionalName s.config.step_field
  pub step_name_field : IsOptionalName s.config.step_name_field
  pub step_name_length : 1 ≤ s.config.step_name_length
  pub poll_interval : IsTime s.poll_interval
  pub timeout_s : IsOptionalTime s.timeout_s

module _ (float_of_int : ℤ → Result ℕ) where
  positive_time-IsTime :
      (v : Value) (bits : ℕ) → positive_time float_of_int v ≡ ok bits → IsTime bits
  unfolding positive_time
  positive_time-IsTime v bits e =
      let (x, a, f) =
        >>=-eq-ok (float_of float_of_int v)
          (λ bits. if is_not_positive bits then err value_error else ok bits) e in
      elim (Bool-cases (is_not_positive x)) [
        | inl low ↦ absurd (not_ok (rw low at f))
        | inr high ↦ subst IsTime (ok_inj (rw high at f)) (is_not_positive-IsTime x high)
      ]

  optional_time-IsTime :
      (v : Option Value) (o : Option ℕ) → optional_time float_of_int v ≡ ok o → IsOptionalTime o
  optional_time-IsTime none o e = subst IsOptionalTime (ok_inj e) tt
  optional_time-IsTime (some v) o e =
      let (x, a, f) = >>=-eq-ok (positive_time float_of_int v) (λ bits. ok (some bits)) e in
      subst IsOptionalTime (ok_inj f) (positive_time-IsTime v x a)

  -- A configuration that passed the checks has names without spaces at their ends where it has names, so
  -- none of them counts as missing, its length is above 0, and its poll interval, and its timeout where
  -- it has one, is a float above 0 or not a number.
  pub checked_settings-IsChecked :
      (a : Attributes) (s : Settings) → checked_settings float_of_int a ≡ ok s → IsChecked s
  unfolding checked_settings
  checked_settings-IsChecked a s e0 =
      let (v1, a1, e1) = >>=-eq-ok (optional_name a.status_symbol) _ e0 in
      let (v2, a2, e2) = >>=-eq-ok (required_name a.status_field) _ e1 in
      let (v3, a3, e3) = >>=-eq-ok (required_name a.request_id_field) _ e2 in
      let (v4, a4, e4) = >>=-eq-ok (required_name a.request_id_arg) _ e3 in
      let (v5, a5, e5) = >>=-eq-ok (optional_name a.busy_field) _ e4 in
      let (v6, a6, e6) = >>=-eq-ok (required_name a.done_field) _ e5 in
      let (v7, a7, e7) = >>=-eq-ok (required_name a.error_field) _ e6 in
      let (v8, a8, e8) = >>=-eq-ok (required_name a.error_code_field) _ e7 in
      let (v9, a9, e9) = >>=-eq-ok (optional_name a.step_field) _ e8 in
      let (v10, a10, e10) = >>=-eq-ok (optional_name a.step_name_field) _ e9 in
      let (v11, a11, e11) = >>=-eq-ok (positive_length a.step_name_length) _ e10 in
      let (v12, a12, e12) = >>=-eq-ok (completion_of a.completion) _ e11 in
      let (v13, a13, e13) = >>=-eq-ok (positive_time float_of_int a.poll_interval) _ e12 in
      let (v14, a14, e14) = >>=-eq-ok (optional_time float_of_int a.timeout_s) _ e13 in
      subst IsChecked (ok_inj e14) (record {
        status_symbol = optional_name-IsName a.status_symbol v1 a1;
        status_field = required_name-IsName a.status_field v2 a2;
        request_id_field = required_name-IsName a.request_id_field v3 a3;
        request_id_arg = required_name-IsName a.request_id_arg v4 a4;
        busy_field = optional_name-IsName a.busy_field v5 a5;
        done_field = required_name-IsName a.done_field v6 a6;
        error_field = required_name-IsName a.error_field v7 a7;
        error_code_field = required_name-IsName a.error_code_field v8 a8;
        step_field = optional_name-IsName a.step_field v9 a9;
        step_name_field = optional_name-IsName a.step_name_field v10 a10;
        step_name_length = positive_length-le a.step_name_length v11 a11;
        poll_interval = positive_time-IsTime a.poll_interval v13 a13;
        timeout_s = optional_time-IsTime a.timeout_s v14 a14;
      })
