-- ===== src/Async/StepChain/Requests.antt =====
-- The request ids of step chains: `_resolve_request_id` of `AsyncStepChainRpcObject` and
-- `_next_request_id` of `AsyncConnection`, in src/pyads/async_connection.py.
use pyads_agile.Prelude.{
  ℕ, suc, ◌+◌, ◌%◌, ◌^◌, ◌≡◌, refl, [], ◌∷◌, ◌++◌, List, Bool, true, false, if◌then◌else◌, ◌==◌,
  ltb, list_eq, length, get_elem?, Option, none, some, Bool-cases, inl, inr, Result, ok, not_ok,
  ok_inj, Error, subst, ==→eq, type_error, or_raise, index_error,
}
use pyads_agile.Python.Exec.{Exec, ◌>>=◌, pure, raise, lift, lift->>=-eq-ok}
use pyads_agile.Python.Dict.{lookup_key}
use pyads_agile.Python.Utf8.{Text}
use pyads_agile.Python.Int.{ℤ, pos}
use pyads_agile.Structure.Value.{Value, int_value}
use pyads_agile.Async.StepChain.{StepChainConfig}
use pyads_agile.Async.StepChain.Completion.{int_of}

-- The state is the next number of `itertools.count(1)`.
unfoldable pub next_request_id : Exec ℕ ℤ
next_request_id counter = (ok (pos (counter % 2 ^ 32)), counter + 1)

-- `xs.index(x)`, where `x in xs`
abbrev pub index_of : Text → List Text → Option ℕ
index_of t [] = none
index_of t (x ∷ xs) =
    let rest = index_of t xs in
    if list_eq x t then some 0 else elim rest [ none ↦ none | some i ↦ some (suc i) ]

-- `set(kwargs.keys()) - {name}` is not empty
abbrev pub has_other : {A : Type 0} → Text → List (Text × A) → Bool
has_other name [] = false
has_other name ((k, v) ∷ kwargs) = if list_eq k name then has_other name kwargs else true

-- `call_args.append(request_id)`, unless the positional arguments before it are missing
unfoldable pub append_if : Bool → List Value → ℤ → Exec ℕ (ℤ × List Value)
unfolding pure raise
append_if true args request_id = pure (request_id, args ++ int_value request_id ∷ [])
append_if false args request_id = raise type_error

unfoldable pub given_by_name : ℕ → List Value → ℤ → Exec ℕ (ℤ × List Value)
unfolding append_if
given_by_name index args request_id =
    if ltb index (length args)
    then raise type_error
    else append_if (index == length args) args request_id

module _ (int_of_float : ℕ → Result ℤ) (int_of_text : Text → Result ℤ) where
  -- the argument given by position, or a new number
  unfoldable pub given_by_position : ℕ → List Value → Exec ℕ (ℤ × List Value)
  unfolding next_request_id append_if ◌>>=◌
  given_by_position index args =
      if ltb index (length args)
      then (lift (or_raise (get_elem? args index) index_error) >>= λ v.
          lift (int_of int_of_float int_of_text v) >>= λ request_id. pure (request_id, args))
      else next_request_id >>= λ request_id. append_if (index == length args) args request_id

  unfoldable pub at_index : Option ℕ → List Value → Option Value → Exec ℕ (ℤ × List Value)
  unfolding given_by_name given_by_position ◌>>=◌
  at_index none args by_name = raise type_error
  at_index (some index) args (some v) =
      lift (int_of int_of_float int_of_text v) >>= λ request_id. given_by_name index args request_id
  at_index (some index) args none = given_by_position index args

  unfoldable pub resolve_request_id :
      StepChainConfig → List Text → List Value → List (Text × Value) → Exec ℕ (ℤ × List Value)
  unfolding at_index ◌>>=◌
  resolve_request_id cfg arg_names args kwargs =
      if has_other cfg.request_id_arg kwargs
      then raise type_error
      else at_index (index_of cfg.request_id_arg arg_names) args
          (lookup_key cfg.request_id_arg kwargs)

get_elem?-snoc : {A : Type 0} (xs : List A) (a : A) → get_elem? (xs ++ a ∷ []) (length xs) ≡ some a
get_elem?-snoc [] a = refl
get_elem?-snoc (x ∷ xs) a = get_elem?-snoc xs a

module _ (int_of_float : ℕ → Result ℤ) (int_of_text : Text → Result ℤ) where
  -- Where the request id of a call comes from. The value that was given by name is converted, and the id is
  -- put behind the arguments of the user; so is a new number, where none was given; an argument that
  -- was given by position is converted, and stays where it is.
  pub data Resolved (index counter : ℕ) (args : List Value)
      : Option Value → ℤ → List Value → Type 0 where
    named_id :
        (v : Value) (id : ℤ)
        → int_of int_of_float int_of_text v ≡ ok id
        → index ≡ length args
        → Resolved index counter args (some v) id (args ++ int_value id ∷ [])
    positional_id :
        (v : Value) (id : ℤ)
        → get_elem? args index ≡ some v
        → int_of int_of_float int_of_text v ≡ ok id
        → Resolved index counter args none id args
    drawn_id :
        index ≡ length args
        → Resolved index counter args none
            (pos (counter % 2 ^ 32))
            (args ++ int_value (pos (counter % 2 ^ 32)) ∷ [])

  append_if-ok :
      (args : List Value) (index : ℕ) (id request_id : ℤ) (call_args : List Value) (c : ℕ)
      (fits : Bool)
      → (index == length args) ≡ fits
      → (append_if fits args id c).0 ≡ ok (request_id, call_args)
      → (index ≡ length args)
        × ◌≡◌ {A = ℤ × List Value} (id, args ++ int_value id ∷ []) (request_id, call_args)
  unfolding append_if
  append_if-ok args index id request_id call_args c true f e =
      (==→eq index (length args) f, ok_inj e)
  append_if-ok args index id request_id call_args c false f e = cc

  given_by_name-Resolved :
      (args : List Value) (index counter : ℕ) (v : Value) (id request_id : ℤ)
      (call_args : List Value)
      → int_of int_of_float int_of_text v ≡ ok id
      → (given_by_name index args id counter).0 ≡ ok (request_id, call_args)
      → Resolved index counter args (some v) request_id call_args
  unfolding given_by_name raise
  given_by_name-Resolved args index counter v id request_id call_args a e =
      elim (Bool-cases (ltb index (length args))) [
        | inl twice ↦ absurd (not_ok (rw twice at e))
        | inr free ↦
            let (f, g) =
              append_if-ok args index id request_id call_args counter (index == length args) refl
                (rw free at e) in
            subst (λ p. Resolved index counter args (some v) p.0 p.1) g (named_id v id a f)
      ]

  or_raise-ok : (o : Option Value) (x : Error) (v : Value) → or_raise o x ≡ ok v → o ≡ some v
  or_raise-ok none x v e = cc
  or_raise-ok (some w) x v e = cc

  -- the body of the first branch
  passed : ℕ → List Value → Exec ℕ (ℤ × List Value)
  unfolding ◌>>=◌
  passed index args = lift (or_raise (get_elem? args index) index_error) >>= λ v.
      lift (int_of int_of_float int_of_text v) >>= λ request_id. pure (request_id, args)

  passed-Resolved :
      (args : List Value) (index counter : ℕ) (request_id : ℤ) (call_args : List Value)
      → (passed index args counter).0 ≡ ok (request_id, call_args)
      → Resolved index counter args none request_id call_args
  unfolding passed pure
  passed-Resolved args index counter request_id call_args e =
      let (v, a, f) = lift->>=-eq-ok (or_raise (get_elem? args index) index_error) _ counter e in
      let (id, b, g) = lift->>=-eq-ok (int_of int_of_float int_of_text v) _ counter f in
      subst (λ p. Resolved index counter args none p.0 p.1) (ok_inj g)
        (positional_id v id (or_raise-ok (get_elem? args index) index_error v a) b)

  given_by_position-Resolved :
      (args : List Value) (index counter : ℕ) (request_id : ℤ) (call_args : List Value)
      → (given_by_position int_of_float int_of_text index args counter).0
        ≡ ok (request_id, call_args)
      → Resolved index counter args none request_id call_args
  unfolding given_by_position next_request_id ◌>>=◌
  given_by_position-Resolved args index counter request_id call_args e =
      elim (Bool-cases (ltb index (length args))) [
        | inl given ↦
            passed-Resolved args index counter request_id call_args (unfold passed in rw given at e)
        | inr missing ↦
            let (f, g) =
              append_if-ok args index (pos (counter % 2 ^ 32)) request_id call_args (counter + 1)
                (index == length args) refl (rw missing at e) in
            subst (λ p. Resolved index counter args none p.0 p.1) g (drawn_id f)
      ]

  -- The argument at the index, in the call that goes to the PLC, converts to the request id.
  Resolved-argument :
      (index counter : ℕ) (args : List Value) (by_name : Option Value) (id : ℤ)
      (call_args : List Value)
      → Resolved index counter args by_name id call_args
      → (v : Value) × (get_elem? call_args index ≡ some v)
        × (int_of int_of_float int_of_text v ≡ ok id)
  Resolved-argument index counter args _ _ _ (named_id v id a f) =
      (int_value id, rw f (get_elem?-snoc args (int_value id)), refl)
  Resolved-argument index counter args _ _ _ (positional_id v id a b) = (v, a, b)
  Resolved-argument index counter args _ _ _ (drawn_id f) =
      let id = pos (counter % 2 ^ 32) in
      (int_value id, rw f (get_elem?-snoc args (int_value id)), refl)

  -- When the request id of a call is resolved, then it is the number that was given by name or by position,
  -- or else the next number modulo 2^32; the arguments of the call are those of the user, with the id behind
  -- them unless it was given by position; and the argument of that name converts to the id.
  pub resolve_request_id-Resolved :
      (cfg : StepChainConfig) (arg_names : List Text) (args : List Value)
      (kwargs : List (Text × Value)) (counter : ℕ) (request_id : ℤ) (call_args : List Value)
      → (resolve_request_id int_of_float int_of_text cfg arg_names args kwargs counter).0
        ≡ ok (request_id, call_args)
      → (index : ℕ) × (index_of cfg.request_id_arg arg_names ≡ some index)
        × Resolved index counter args (lookup_key cfg.request_id_arg kwargs) request_id call_args
        × ((v : Value) × (get_elem? call_args index ≡ some v)
            × (int_of int_of_float int_of_text v ≡ ok request_id))
  unfolding resolve_request_id raise at_index
  resolve_request_id-Resolved cfg arg_names args kwargs counter request_id call_args e =
      elim (Bool-cases (has_other cfg.request_id_arg kwargs)) [
        | inl other ↦ absurd (not_ok (rw other at e))
        | inr known ↦
            let given = lookup_key cfg.request_id_arg kwargs in
            let (index, f, r) =
              at_index-Resolved (index_of cfg.request_id_arg arg_names) given (rw known at e) in
            (index, f, r, Resolved-argument index counter args given request_id call_args r)
      ]
    where
      at_index-Resolved :
          (o : Option ℕ) (by_name : Option Value)
          → (at_index int_of_float int_of_text o args by_name counter).0
            ≡ ok (request_id, call_args)
          → (index : ℕ) × (o ≡ some index)
            × Resolved index counter args by_name request_id call_args
      at_index-Resolved none by_name f = absurd (not_ok f)
      at_index-Resolved (some index) none f =
          (index, refl, given_by_position-Resolved args index counter request_id call_args f)
      at_index-Resolved (some index) (some v) f =
          let (id, a, g) = lift->>=-eq-ok (int_of int_of_float int_of_text v) _ counter f in
          (index, refl, given_by_name-Resolved args index counter v id request_id call_args a g)
