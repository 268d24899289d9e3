-- ===== src/Stack/Manager/Reload.antt =====
-- pkg/orchestration/stack.go: what a new daemon reads back of a deployed stack.
use hospitus.Shared.{
  ℕ, suc, length, Option, ◌≡◌, Bool, List, [], ◌∷◌, none, some, Text, Dict, lookup, IsMap,
}
use hospitus.Discovery.{get}
use hospitus.Stack.Manager.{StackManager, Stack, StackInstanceRecord, StackStatus, rows_of}
use hospitus.Stack.Manager.Status.{values_of, get_stack_instances, decoded}

abbrev keys_of : Dict StackInstanceRecord → List Text
keys_of [] = []
keys_of ((k, row) ∷ m) = k ∷ keys_of m

-- The deploy orders of the rows go up by one from the number after `n`.
abbrev IsCounted : ℕ → List StackInstanceRecord → Type 0
IsCounted n [] = Unit
IsCounted n (row ∷ rows) = (row.deploy_order ≡ suc n) × IsCounted (suc n) rows

module _ (decodes : Text → Option Text) where
  -- The rows of the stack are those of its instances, in their order and numbered.
  pub record Mirrored (stack : Text) (sm : StackManager) (done : List Text) : Type 0 where
    pub entry : Stack
    pub found : lookup stack sm.stacks ≡ some entry
    pub titled : entry.name ≡ stack
    pub keyed : keys_of (rows_of stack sm.instance_rows) ≡ done
    pub mirrored : decoded decodes (values_of (rows_of stack sm.instance_rows)) ≡ entry.instances
    pub numbered : IsCounted 0 (values_of (rows_of stack sm.instance_rows))
    pub as_many : length (values_of (rows_of stack sm.instance_rows)) ≡ length entry.instances
    pub old_status : StackStatus
    pub recorded : lookup stack sm.stack_rows ≡ some old_status
    pub rows_fit : IsMap sm.stack_rows

module _ (reads : Text → Bool) (decodes : Text → Option Text)
    (rows : Dict (Dict StackInstanceRecord)) where
  abbrev loaded : Text → StackStatus → Stack
  loaded name status = record {
    name = name;
    instances = decoded decodes (get_stack_instances name rows);
    status = status;
  }

-- What a daemon knows of a stack of the daemon before it.
pub record Reloaded (before after : StackManager) (stack : Text) : Type 0 where
  pub same_stack : lookup stack after.stacks ≡ lookup stack before.stacks
  pub no_service : (n : Text) → get after.service_reg stack n ≡ none
  pub no_check : (id : Text) → lookup id after.health_checker.configs ≡ none
