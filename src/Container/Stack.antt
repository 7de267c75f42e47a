-- ===== src/Container/Stack.antt =====
-- container/stack.c: a stack of pointers as a chain of nodes. The stack itself is given; `NULL`
-- stacks and the log are not modelled.
pub mod Chain
pub mod Push
pub mod Pop
use attica.Base.{
  ℕ, zero, suc, fault, ◌+◌, ◌-◌, ◌%◌, ◌||◌, Bool, true, false, Ptr, null, word, Run, ok, ◌>>=◌,
  ◌==◌, if◌then◌else◌,
}
use attica.Memory.{alloc, mem_free}
use attica.Container.{ContainerNode, Container, Store, write, node_create, node_free}

-- `container_stack_create`: the address of the struct, and the struct
unfoldable pub create : Store → Ptr × Container × Store
create store =
    let (self, host') = alloc 32 16 store.host in
    (self, record { head = null; tail = null; size = 0 }, record store { host = host' })

-- `container_stack_push`
unfoldable pub push : Ptr → Container → Store → Bool × Container × Store
unfolding node_create write
push content stack store =
    if content == null
    then (false, stack, store)
    else let (node, store') = node_create content store in
      if node == null
      then (false, stack, store')
      else let linked = write node (record (store'.nodes node) { next = stack.head }) store' in
        let old = record (linked.nodes stack.head) { prev = node } in
        (
          true,
          record stack { head = node; size = (stack.size + 1) % word },
          if stack.head == null then linked else write stack.head old linked,
        )

-- `container_stack_pop`
unfoldable pub pop : Container → Store → Run (Ptr × Container × Store)
unfolding node_free write
pop stack store =
    if stack.size == 0
    then ok (null, stack, store)
    else if stack.head == null
    then ok (null, stack, store)
    else let current = store.nodes stack.head in
      let after = record (store.nodes current.next) { prev = null } in
      let unlinked = if current.next == null then store else write current.next after store in
      do
        store' ← node_free stack.head unlinked
        ok (current.content, record stack { head = current.next; size = stack.size - 1 }, store')

-- `container_stack_peek`
unfoldable pub peek : Container → Store → Ptr
peek stack store =
    if (stack.head == null) || (stack.size == 0) then null else (store.nodes stack.head).content

-- The loop of `container_stack_free`, on fuel.
unfoldable pub free_loop : (fuel : ℕ) → Ptr → Store → Run Store
unfolding node_free
free_loop zero current store = fault
free_loop (suc n) current store =
    if current == null
    then ok store
    else do store' ← node_free current store; free_loop n (store.nodes current).next store'

-- `container_stack_free`, given the address of the struct
unfoldable pub stack_free : (fuel : ℕ) → Ptr → Container → Store → Run Store
unfolding free_loop
stack_free fuel self stack store = do
  store' ← free_loop fuel stack.head store
  host' ← mem_free self store'.host
  ok (record store' { host = host' })
