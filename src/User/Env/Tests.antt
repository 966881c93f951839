-- ===== src/User/Env/Tests.antt =====
-- The environment that the kernel left on the stack, with the one entry "A=1" at the address 10.
use exyde.Common.{◌≡◌, refl, true, false, [], ◌∷◌, some, none, arith, update}
use exyde.Kernel.Chain.{null}
use exyde.User.Env.{
  Env, Memory, getenv, setenv, unsetenv, find_env, count_loop, promote, shift_loop,
}
use exyde.User.Env.Lookup.{IsEnv}
use exyde.User.Env.Set.{Settled, setenv-Settled}

abbrev stack_env : Env
stack_env = record {
  present = true;
  arr = update (λ i. null) 0 10;
  owned = λ i. false;
  cap = 0;
  count = 0;
  is_owned = false;
  text = update (λ p. []) 10 (65 ∷ 61 ∷ 49 ∷ []);
  freed = [];
}

stack_env-IsEnv : IsEnv stack_env 1
stack_env-IsEnv = record {
  entries = λ i lt e. ground arith;
  end = refl;
  present = refl;
  counted = λ own. cc;
  room = λ own. cc;
}

abbrev memory : Memory
memory = record { table = some (λ i. 7); larger = some (λ i. 7); entry = some 20 }

finds_one : getenv 3 stack_env (65 ∷ []) ≡ some (49 ∷ [])
unfolding getenv find_env
finds_one = refl

-- The entry on the stack is not freed.
keeps_the_stack : (setenv 3 memory (65 ∷ []) (50 ∷ []) true stack_env).1.freed ≡ []
unfolding setenv find_env count_loop promote
keeps_the_stack = refl

removes_it : getenv 3 (unsetenv 3 (some (λ i. 7)) (65 ∷ []) stack_env).1 (65 ∷ []) ≡ none
unfolding getenv unsetenv find_env count_loop promote shift_loop
removes_it = refl

setenv-Settled_example :
    Settled 3 stack_env 1
      (65 ∷ [])
      (50 ∷ [])
      20
      false
      (getenv 3 stack_env (65 ∷ []))
      (setenv 3 memory (65 ∷ []) (50 ∷ []) false stack_env)
setenv-Settled_example =
    setenv-Settled 3 stack_env 1 (65 ∷ []) (50 ∷ []) 20 false (λ i. 7) (λ i. 7) stack_env-IsEnv
      (omega arith) refl ((λ e. omega arith), (λ i lt e. ground arith))

-- Without overwrite the old value stays; with it the new one is found.
keeps_the_value :
    getenv 3 (setenv 3 memory (65 ∷ []) (50 ∷ []) false stack_env).1 (65 ∷ []) ≡ some (49 ∷ [])
unfolding getenv setenv find_env
keeps_the_value = refl

replaces_the_value :
    getenv 3 (setenv 3 memory (65 ∷ []) (50 ∷ []) true stack_env).1 (65 ∷ []) ≡ some (50 ∷ [])
unfolding getenv setenv find_env count_loop promote
replaces_the_value = refl
