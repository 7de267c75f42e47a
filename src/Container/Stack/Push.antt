-- ===== src/Container/Stack/Push.antt =====
-- container/stack.c: `container_stack_push` on a stack that represents a list.
use attica.Base.{Ptr, null, ◌==◌, if◌then◌else◌}
use attica.Container.{ContainerNode, Container}

-- The nodes after a push, before the old front node is told of the new one.
abbrev linked : (node content head : Ptr) → (Ptr → ContainerNode) → Ptr → ContainerNode
linked node content head nodes q =
    if q == node then record { content = content; next = head; prev = null } else nodes q

abbrev front_of : (node content head : Ptr) → (Ptr → ContainerNode) → Ptr → ContainerNode
front_of node content head nodes q =
    if q == head
    then record (linked node content head nodes head) { prev = node }
    else linked node content head nodes q
