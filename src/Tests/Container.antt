-- ===== src/Tests/Container.antt =====
-- Runs of container/stack.c, and its theorems at a stack of one node.
use attica.Base.{◌≡◌, refl, arith, null, Returns, [], ◌∷◌}
use attica.Memory.{release}
use attica.Container.{Container, Store, write, node_create}
use attica.Container.Stack.Chain.{IsStack}
use attica.Container.Stack.Pop.{pop-IsStack}
use attica.Container.Stack.{push, pop, peek}
use attica.Tests.Memory.{program}

abbrev store : Store
store = record {
  host = record { supply = 64 ∷ 96 ∷ []; live = 32 ∷ [] };
  nodes = λ q. record { content = 7; next = null; prev = null };
}

abbrev one : Container
one = record { head = 32; tail = null; size = 1 }

one-IsStack : IsStack store one (32 ∷ []) (7 ∷ [])
one-IsStack = record {
  chain = (refl, omega arith, refl, refl, refl);
  sized = refl;
  distinct = (tt, tt);
  live = (unfold program in refl, tt);
}

-- After two pushes the second one is in front.
stack_runs : (let (a, s, st) = push 8 one store in let (b, t, st') = push 9 s st in peek t st') ≡ 9
unfolding program push peek node_create write
stack_runs = refl

pop-IsStack_example :
    Returns
      (pop one store)
      λ r. (r.0 ≡ 7) × IsStack r.2 r.1 [] [] × (r.2.host.live ≡ release 32 (32 ∷ []))
pop-IsStack_example = pop-IsStack store one 32 7 [] [] one-IsStack
