-- ===== src/Stack/Manager/Retry.antt =====
-- pkg/orchestration/stack.go: destructions that fail half-way, and the one that does not.
use hospitus.Shared.{
  ◌-◌, ◌≤◌, ◌≡◌, refl, sym, ap, subst, ◌∙◌, ◌⊎◌, inl, inr, Bool, true, false, not, ◌&&◌, List, [],
  ◌∷◌, none, some, arith, if◌then◌else◌, Text, lookup, lookup-insert, lookup-remove, same_refl,
}
use hospitus.Stack.Degrees.{times}
use hospitus.Stack.Manager.{
  StackManager, Stack, StackInstance, Answers, StackStatus, running, stopped, degraded, destroying,
  update_stack_status,
}
use hospitus.Stack.Manager.Teardown.{
  Outcome, completed, incomplete, not_found, watch_again, watch_no_more, stop_instance,
  stop_instances, stop_stack, start_instances, start_stack, destroy_stack, remove_stack,
}
use hospitus.Stack.Manager.Destruction.{
  handles_of, marked, left, concluded, destroy_stack-concluded, destroy_instances-stacks,
  destroy_instances-alive, destroy_instances-held, destroy_instances-completes,
}

-- The stack lists `is`, and no more is held than in `base`.
pub record Lists (base : StackManager) (is : List StackInstance) (stack : Text) (sm : StackManager)
    : Type 0 where
  pub entry : Stack
  pub listed : lookup stack sm.stacks ≡ some entry
  pub same_instances : entry.instances ≡ is
  pub fewer : (k : Text) → times k sm.alive ≤ times k base.alive

-- The stack is unknown, and of `base` no more is held than without `is`.
pub record Cleared (base : StackManager) (is : List StackInstance) (stack : Text)
    (sm : StackManager) : Type 0 where
  pub unlisted : lookup stack sm.stacks ≡ none
  pub fewer : (k : Text) → times k sm.alive ≤ times k base.alive - times k (handles_of is)

module _ (base : StackManager) (is : List StackInstance) (stack : Text) where
  abbrev pub Tracked : StackManager → Type 0
  Tracked sm = Lists base is stack sm ⊎ Cleared base is stack sm

  module _ (ans : Answers) where
    update_stack_status-Lists :
        (sm : StackManager) (status : StackStatus)
        → Lists base is stack sm
        → Lists base is stack (update_stack_status ans sm stack status)
    unfolding update_stack_status
    update_stack_status-Lists sm status l =
        let e : Stack = record l.entry { status = status } in
        record {
          entry = e;
          listed = ground (arith, l.listed, same_refl stack, lookup-insert stack stack e sm.stacks);
          same_instances = l.same_instances;
          fewer = l.fewer;
        }

    framed-Lists :
        (sm after : StackManager)
        → after.stacks ≡ sm.stacks
        → ((k : Text) → times k after.alive ≤ times k sm.alive)
        → Lists base is stack sm
        → Lists base is stack after
    framed-Lists sm after es le l = record {
      entry = l.entry;
      listed = ap (lookup stack) es ∙ l.listed;
      same_instances = l.same_instances;
      fewer = λ k. ground (arith, le k, l.fewer k);
    }

    stop_instances-frame :
        (js : List StackInstance) (sm : StackManager)
        → ((stop_instances ans sm js).0.stacks ≡ sm.stacks)
          × ((stop_instances ans sm js).0.alive ≡ sm.alive)
    unfolding stop_instances stop_instance watch_again watch_no_more
    stop_instances-frame [] sm = (refl, refl)
    stop_instances-frame (j ∷ js) sm = (
      ground (arith, (stop_instances-frame js sm).0),
      ground (arith, (stop_instances-frame js sm).1),
    )

    abbrev Kept : StackManager × Outcome → Type 0
    Kept r = Lists base is stack r.0

    if-Kept :
        (b : Bool) (x y : StackManager × Outcome) → Kept x → Kept y → Kept (if b then x else y)
    if-Kept true x y kx ky = kx
    if-Kept false x y kx ky = ky

    stop_stack-Kept : (sm : StackManager) → Lists base is stack sm → Kept (stop_stack ans sm stack)
    unfolding stop_stack
    stop_stack-Kept sm l =
        subst
          (λ o. Kept (elim o [
            | none ↦ (sm, not_found)
            | some s ↦
                let r = stop_instances ans sm s.instances in
                if r.1
                then (update_stack_status ans r.0 stack stopped, completed)
                else (update_stack_status ans r.0 stack degraded, incomplete)
          ]))
          (sym l.listed) stopped-Kept
      where
        r : StackManager × Bool
        r = stop_instances ans sm l.entry.instances

        kept : Lists base is stack r.0
        kept =
            let frame = stop_instances-frame l.entry.instances sm in
            framed-Lists sm r.0 frame.0 (λ k. ground (arith, frame.1)) l

        stopped-Kept : Kept (
            if r.1
            then (update_stack_status ans r.0 stack stopped, completed)
            else (update_stack_status ans r.0 stack degraded, incomplete))
        stopped-Kept =
            if-Kept r.1 _ _ (update_stack_status-Lists r.0 stopped kept)
              (update_stack_status-Lists r.0 degraded kept)

    watch_again-Lists :
        (sm : StackManager) (i : StackInstance)
        → Lists base is stack sm
        → Lists base is stack (watch_again sm i)
    unfolding watch_again
    watch_again-Lists sm i l = framed-Lists sm (watch_again sm i) refl (λ k. ground arith) l

    start_instances-Kept :
        (js : List StackInstance) (sm : StackManager)
        → Lists base is stack sm
        → Kept (start_instances ans stack sm js)
    unfolding start_instances
    start_instances-Kept [] sm l = update_stack_status-Lists sm running l
    start_instances-Kept (j ∷ js) sm l =
        if-Kept (not (ans.knows j.provider && ans.starts j.handle)) _ _
          (update_stack_status-Lists sm degraded l)
          (if-Kept (ans.continues j.name) _ _
            (start_instances-Kept js (watch_again sm j) (watch_again-Lists sm j l))
            (watch_again-Lists sm j l))

    start_stack-Kept :
        (sm : StackManager) → Lists base is stack sm → Kept (start_stack ans sm stack)
    unfolding start_stack
    start_stack-Kept sm l =
        subst
          (λ o.
            Kept (elim o [
              | none ↦ (sm, not_found)
              | some s ↦ start_instances ans stack sm s.instances
            ]))
          (sym l.listed) (start_instances-Kept l.entry.instances sm l)

    module _ (removes : Bool) (sm : StackManager) (l : Lists base is stack sm) where
      abbrev remaining : StackManager × Bool
      remaining = left ans removes sm stack l.entry l.listed

      remaining-Lists : Lists base is stack remaining.0
      remaining-Lists =
          let e : Stack = record l.entry { status = destroying } in
          let m : StackManager = marked ans removes sm stack l.entry l.listed in
          record {
            entry = e;
            listed = ground (
              arith,
              destroy_instances-stacks ans stack l.entry.instances m,
              same_refl stack,
              lookup-insert stack stack e sm.stacks,
            );
            same_instances = l.same_instances;
            fewer = λ k.
                ground (arith, l.fewer k, destroy_instances-alive ans stack l.entry.instances m k);
          }

      removed-Cleared : remaining.1 ≡ true → Cleared base is stack (remove_stack remaining.0 stack)
      removed-Cleared h =
          let m : StackManager = marked ans removes sm stack l.entry l.listed in
          record {
            unlisted =
                ground (arith, same_refl stack, lookup-remove stack stack remaining.0.stacks);
            fewer = λ k. ground (
              arith,
              l.fewer k,
              destroy_instances-held ans stack l.entry.instances m k h,
              ap (λ js. times k (handles_of js)) l.same_instances,
            );
          }

      concluded-Tracked :
          (gone removed : Bool)
          → remaining.1 ≡ gone
          → Tracked (concluded ans removes sm stack l.entry l.listed gone removed).0
      concluded-Tracked true true h = inr (removed-Cleared h)
      concluded-Tracked true false h = inl remaining-Lists
      concluded-Tracked false removed h =
          inl (update_stack_status-Lists remaining.0 degraded remaining-Lists)

      destroy_stack-Tracked : Tracked (destroy_stack ans removes sm stack).0
      destroy_stack-Tracked =
          subst (λ r. Tracked r.0)
            (sym (destroy_stack-concluded ans removes sm stack l.entry l.listed))
            (concluded-Tracked remaining.1 removes refl)

    module _ (sm : StackManager) (c : Cleared base is stack sm) where
      destroy_stack-cleared :
          (removes : Bool) → destroy_stack ans removes sm stack ≡ (sm, not_found)
      unfolding destroy_stack
      destroy_stack-cleared removes = ground (arith, c.unlisted)

      stop_stack-cleared : stop_stack ans sm stack ≡ (sm, not_found)
      unfolding stop_stack
      stop_stack-cleared = ground (arith, c.unlisted)

      start_stack-cleared : start_stack ans sm stack ≡ (sm, not_found)
      unfolding start_stack
      start_stack-cleared = ground (arith, c.unlisted)

pub data Request : Type 0 where
  destroys : Answers → Bool → Request
  stops : Answers → Request
  starts : Answers → Request

unfoldable pub serve : Text → StackManager → Request → StackManager
serve stack sm (destroys ans removes) = (destroy_stack ans removes sm stack).0
serve stack sm (stops ans) = (stop_stack ans sm stack).0
serve stack sm (starts ans) = (start_stack ans sm stack).0

unfoldable pub serve_all : Text → StackManager → List Request → StackManager
serve_all stack sm [] = sm
serve_all stack sm (r ∷ rs) = serve_all stack (serve stack sm r) rs

module _ (base : StackManager) (is : List StackInstance) (stack : Text) where
  serve-Tracked :
      (sm : StackManager) (r : Request)
      → Tracked base is stack sm
      → Tracked base is stack (serve stack sm r)
  unfolding serve
  serve-Tracked sm (destroys ans removes) (inl l) =
      destroy_stack-Tracked base is stack ans removes sm l
  serve-Tracked sm (stops ans) (inl l) = inl (stop_stack-Kept base is stack ans sm l)
  serve-Tracked sm (starts ans) (inl l) = inl (start_stack-Kept base is stack ans sm l)
  serve-Tracked sm (destroys ans removes) (inr c) = inr (
      subst (λ r. Cleared base is stack r.0)
        (sym (destroy_stack-cleared base is stack ans sm c removes)) c)
  serve-Tracked sm (stops ans) (inr c) =
      inr
        (subst (λ r. Cleared base is stack r.0) (sym (stop_stack-cleared base is stack ans sm c)) c)
  serve-Tracked sm (starts ans) (inr c) =
      inr (
        subst (λ r. Cleared base is stack r.0) (sym (start_stack-cleared base is stack ans sm c)) c)

  serve_all-Tracked :
      (rs : List Request) (sm : StackManager)
      → Tracked base is stack sm
      → Tracked base is stack (serve_all stack sm rs)
  unfolding serve_all
  serve_all-Tracked [] sm t = t
  serve_all-Tracked (r ∷ rs) sm t = serve_all-Tracked rs (serve stack sm r) (serve-Tracked sm r t)

  final-Cleared :
      (ans : Answers) (sm : StackManager)
      → ((name : Text) → ans.knows name ≡ true)
      → ((held : List Text) (h : Text) → ans.deletes held h ≡ true)
      → Tracked base is stack sm
      → Cleared base is stack (destroy_stack ans true sm stack).0
  final-Cleared ans sm knows deletes (inr c) =
      subst (λ r. Cleared base is stack r.0)
        (sym (destroy_stack-cleared base is stack ans sm c true)) c
  final-Cleared ans sm knows deletes (inl l) =
      let m : StackManager = marked ans true sm stack l.entry l.listed in
      let gone : (left ans true sm stack l.entry l.listed).1 ≡ true =
        destroy_instances-completes ans stack l.entry.instances m knows deletes in
      subst (λ r. Cleared base is stack r.0)
        (sym (
          destroy_stack-concluded ans true sm stack l.entry l.listed
          ∙ ap (λ b. concluded ans true sm stack l.entry l.listed b true) gone))
        (removed-Cleared base is stack ans true sm l gone)

-- Whatever destructions, stops and starts of a listed stack came before, completed or not, a
-- destruction with every provider known, deletions that do not fail, also of what is gone already, and
-- the row removed leaves the stack unknown, and of each handle at least all that the stack listed are
-- no longer held.
pub destroy_stack-retried :
    (sm : StackManager) (stack : Text) (s : Stack) (rs : List Request) (ans : Answers)
    → lookup stack sm.stacks ≡ some s
    → ((name : Text) → ans.knows name ≡ true)
    → ((held : List Text) (h : Text) → ans.deletes held h ≡ true)
    → Cleared sm s.instances stack (destroy_stack ans true (serve_all stack sm rs) stack).0
destroy_stack-retried sm stack s rs ans listed knows deletes =
    final-Cleared sm s.instances stack ans (serve_all stack sm rs) knows deletes (
      serve_all-Tracked sm s.instances stack rs sm (
        inl (record {
          entry = s;
          listed = listed;
          same_instances = refl;
          fewer = λ k. ground arith;
        })))
