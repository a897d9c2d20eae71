-- ===== src/Runs/Checking.antt =====
-- internal/api/runs.go: what checkRunSpec and parseEnv make sure of.
use poligon.Base.{
  All, Bool, Bool-cases, List, Option, Option-cases, Text, [], all, arith, codes, has_prefix,
  if_keeps, if◌then◌else◌, inl, inr, is_empty, leb, none, not, put, some, subst, text_discrete,
  true, ℕ, ℕ_discrete, ◌&&◌, ◌==◌, ◌||◌, ◌∷◌, ◌≡◌, ◌≢◌,
}
use poligon.Model.{RunSpec}
use poligon.Runs.Form.{>>=-accept, accept, refuse}
use poligon.Runs.Inputs.{
  add_env, add_envs, check_run_spec, cut_at, env_letter, is_env_key, is_reserved_key,
}

-- The inputs that a type of run works on.
abbrev pub HasInputs : Text → RunSpec → Type 0
HasInputs typ spec =
    (typ ≡ codes "install_smoke" → spec.artifacts ≢ [])
    × (typ ≡ codes "maestro" → spec.flow_path ≢ [])
    × (typ ≡ codes "command" → spec.command ≢ [])
    × (typ ≡ codes "integration_test" → (spec.artifacts ≢ []) × (spec.test_artifacts ≢ []))

not_empty {ℓ} : {A : Type ℓ} (xs : List A) → not (is_empty xs) ≡ true → xs ≢ []
not_empty [] h = absurd (ground arith)
not_empty (x ∷ xs) h = λ e. ground arith

module _ (spec : RunSpec) where
  smoke_inputs : check_run_spec (codes "install_smoke") spec ≡ true → spec.artifacts ≢ []
  unfolding check_run_spec text_discrete ℕ_discrete
  smoke_inputs h = not_empty spec.artifacts h

  maestro_inputs : check_run_spec (codes "maestro") spec ≡ true → spec.flow_path ≢ []
  unfolding check_run_spec text_discrete ℕ_discrete
  maestro_inputs h = not_empty spec.flow_path h

  command_inputs : check_run_spec (codes "command") spec ≡ true → spec.command ≢ []
  unfolding check_run_spec text_discrete ℕ_discrete
  command_inputs h = not_empty spec.command h

  test_inputs :
      check_run_spec (codes "integration_test") spec ≡ true
      → (spec.artifacts ≢ []) × (spec.test_artifacts ≢ [])
  unfolding check_run_spec text_discrete ℕ_discrete
  test_inputs h =
      (not_empty spec.artifacts (ground arith), not_empty spec.test_artifacts (ground arith))

pub check_run_spec-HasInputs :
    (typ : Text) (spec : RunSpec) → check_run_spec typ spec ≡ true → HasInputs typ spec
check_run_spec-HasInputs typ spec h = (
  λ e. smoke_inputs spec (subst (λ t. check_run_spec t spec ≡ true) e h),
  λ e. maestro_inputs spec (subst (λ t. check_run_spec t spec ≡ true) e h),
  λ e. command_inputs spec (subst (λ t. check_run_spec t spec ≡ true) e h),
  λ e. test_inputs spec (subst (λ t. check_run_spec t spec ≡ true) e h),
)

-- The name of a variable: letters, digits and underscores, not reserved for the farm.
abbrev is_word : ℕ → Bool
is_word c = env_letter c || (leb b'0' c && leb c b'9')

abbrev pub IsKey : Text → Type 0
IsKey k = (k ≢ []) × (all is_word k ≡ true) × (has_prefix (codes "POLIGON_") k ≡ none)

env_key_word : (k : Text) → is_env_key k ≡ true → (k ≢ []) × (all is_word k ≡ true)
unfolding is_env_key
env_key_word [] h = absurd (ground arith)
env_key_word (c ∷ s) h = (λ e. ground arith, ground arith)

All-put :
    (k v : Text) (env : List (Text × Text))
    → IsKey k
    → All (λ x. IsKey x.0) env
    → All (λ x. IsKey x.0) (put k v env)
All-put k v [] h g = (h, tt)
All-put k v ((j, w) ∷ env) h (g, gs) =
    if_keeps (All (λ x. IsKey x.0)) (j == k) ((k, v) ∷ env) ((j, w) ∷ put k v env) (h, gs)
      (g, All-put k v env h gs)

add_env-keys :
    (kv : Text) (env env' : List (Text × Text))
    → add_env kv env ≡ accept env'
    → All (λ x. IsKey x.0) env
    → All (λ x. IsKey x.0) env'
unfolding add_env
add_env-keys kv env env' e g = of_cut (cut_at b'=' kv) e
  where
    of_cut :
        (o : Option (Text × Text))
        → (elim o [
          | none ↦ refuse 400
          | some (k, v) ↦
              if not (is_env_key k)
              then refuse 400
              else if is_reserved_key k
              then refuse 400
              else accept (put k v env)
        ])
          ≡ accept env'
        → All (λ x. IsKey x.0) env'
    of_cut none p = absurd (ground arith)
    of_cut (some (k, v)) p = elim (Option-cases (has_prefix (codes "POLIGON_") k)) [
      | inl free_key ↦ elim (Bool-cases (is_env_key k)) [
        | inl key ↦
            let (filled, words) = env_key_word k key in
            let same : put k v env ≡ env' = ground arith in
            subst (All (λ x. IsKey x.0)) same (All-put k v env (filled, words, free_key) g)
        | inr key ↦ absurd (ground arith)
      ]
      | inr (rest, taken_key) ↦ absurd (ground arith)
    ]

pub add_envs-keys :
    (kvs : List Text) (env env' : List (Text × Text))
    → add_envs kvs env ≡ accept env'
    → All (λ x. IsKey x.0) env
    → All (λ x. IsKey x.0) env'
unfolding add_envs
add_envs-keys [] env env' e g =
    let same : env ≡ env' = ground arith in subst (All (λ x. IsKey x.0)) same g
add_envs-keys (kv ∷ kvs) env env' e g =
    let (env1, p, q) = >>=-accept (add_env kv env) (λ x. add_envs kvs x) e in
    add_envs-keys kvs env1 env' q (add_env-keys kv env env1 p g)
