-- ===== src/Web/Hooks/Laws.antt =====
-- What the errors of hooks become, and that without hooks nothing happens.
use velo_external_db.Base.{
  ℕ, String, ◌≡◌, refl, subst, ◌⊎◌, inl, inr, Option, none, some, List, [], ◌∷◌, ok, err,
}
use velo_external_db.Commons.Errors.{Error, Result, other_error, with_status}
use velo_external_db.Commons.Effects.{Exec, proceed, ◌>>=◌}
use velo_external_db.Web.Errors.{unknown_error_code, internal, status_of, error_middleware}
use velo_external_db.Web.Hooks.{
  HookTable, SchemaAction, schema_hooks_for_action, execute_schema_hooks_for, DataAction,
  data_hooks_for_action, rethrown, after_hook, run_hook, find_hook, execute_hook, execute_hooks,
  execute_data_hooks_for,
}

-- A client is told of an unknown error, with a status of its own or 500.
abbrev IsUnknown : Error → Type 0
IsUnknown e =
    ((error_middleware e).1 ≡ unknown_error_code)
    × (((error_middleware e).0 ≡ internal) ⊎ (some (error_middleware e).0 ≡ status_of e))

-- An error of the domain on which a status was set.
abbrev pub HasStatus : Error → Type 0
HasStatus e = (n : ℕ) × (d : Error) × (e ≡ with_status n d)

-- What the client is told of, or such an error.
abbrev Reported : Error → Type 0
Reported e = IsUnknown e ⊎ HasStatus e

rethrown-Reported : (e : Error) → Reported (rethrown e)
unfolding rethrown error_middleware
rethrown-Reported (other_error m none) = inl (refl, inl refl)
rethrown-Reported (other_error m (some ℕ.zero)) = inl (refl, inl refl)
rethrown-Reported (other_error m (some (ℕ.suc n))) = inl (refl, inr refl)
rethrown-Reported (with_status ℕ.zero d) = inl (refl, inl refl)
rethrown-Reported (with_status (ℕ.suc n) d) = inr (ℕ.suc n, d, refl)
rethrown-Reported e = inl (refl, inl refl)

module _ {S P : Type 0} (hooks : HookTable S P) where
  after_hook-Reported :
      (payload : P) (r : Result (Option P)) (e : Error) → after_hook payload r ≡ err e → Reported e
  after_hook-Reported payload (ok none) e h = cc
  after_hook-Reported payload (ok (some p)) e h = cc
  after_hook-Reported payload (err x) e h =
      let same : rethrown x ≡ e = cc in subst Reported same (rethrown-Reported x)

  run_hook-Reported :
      (hook : Option (P → Exec S (Option P))) (payload : P) (s : S) (e : Error)
      → (run_hook hook payload s).0 ≡ err e
      → Reported e
  run_hook-Reported none payload s e h = cc
  run_hook-Reported (some f) payload s e h = after_hook-Reported payload (f payload s).0 e h

  proceed-Reported :
      (r : Result P) (s : S) (f : P → Exec S P) (e : Error)
      → ((x : Error) → r ≡ err x → Reported x)
      → ((p : P) → (f p s).0 ≡ err e → Reported e)
      → (proceed r s f).0 ≡ err e
      → Reported e
  proceed-Reported (ok p) s f e here later h = later p h
  proceed-Reported (err x) s f e here later h = here e h

  execute_hooks-Reported :
      (names : List String) (payload : P) (s : S) (e : Error)
      → (execute_hooks hooks names payload s).0 ≡ err e
      → Reported e
  unfolding execute_hooks execute_hook ◌>>=◌
  execute_hooks-Reported [] payload s e h = cc
  execute_hooks-Reported (name ∷ names) payload s e h =
      let hook : Option (P → Exec S (Option P)) = find_hook name hooks in
      proceed-Reported (run_hook hook payload s).0 (run_hook hook payload s).1
        (λ p. execute_hooks hooks names p) e (run_hook-Reported hook payload s)
        (λ p. execute_hooks-Reported names p (run_hook hook payload s).1 e) h

  -- If the hooks of an action on data, or of one on collections, end in an error, it is an error of
  -- the domain on which a hook had set a status, or else the client is told of an UNKNOWN_ERROR, with
  -- status 500 or the error's own status.
  pub hook_errors_are_unknown :
      (action : DataAction) (change : SchemaAction) (payload : P) (s : S) (e : Error)
      → ((execute_data_hooks_for hooks action payload s).0 ≡ err e)
        ⊎ ((execute_schema_hooks_for hooks change payload s).0 ≡ err e)
      → (((error_middleware e).1 ≡ unknown_error_code)
          × (((error_middleware e).0 ≡ internal) ⊎ (some (error_middleware e).0 ≡ status_of e)))
        ⊎ HasStatus e
  unfolding execute_data_hooks_for execute_schema_hooks_for
  hook_errors_are_unknown action change payload s e h = elim h [
    | inl d ↦ execute_hooks-Reported (data_hooks_for_action action) payload s e d
    | inr d ↦ execute_hooks-Reported (schema_hooks_for_action change) payload s e d
  ]
