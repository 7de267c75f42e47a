-- ===== src/Container.antt =====
-- container/: linked nodes, and the stack made of them. The nodes are a function of their address,
-- which keeps what a freed node held; an access at `NULL` is a fault.
pub mod Stack
use attica.Base.{ℕ, Ptr, null, Run, ok, fault, ◌>>=◌, ◌==◌, if◌then◌else◌}
use attica.Memory.{Host, alloc, mem_free}

pub record ContainerNode : Type 0 where
  pub content : Ptr
  pub next : Ptr
  pub prev : Ptr

pub record Container : Type 0 where
  pub head : Ptr
  pub tail : Ptr
  pub size : ℕ

pub record Store : Type 0 where
  pub host : Host
  pub nodes : Ptr → ContainerNode

-- A write of a whole node.
unfoldable pub write : Ptr → ContainerNode → Store → Store
write p node store = record store { nodes = λ q. if q == p then node else store.nodes q }

-- `container_node_create`: nodes have 32 bytes, at an alignment of 16.
unfoldable pub node_create : Ptr → Store → Ptr × Store
unfolding write
node_create content store =
    let (node, host') = alloc 32 16 store.host in
    let store' = record store { host = host' } in
    if node == null
    then (null, store')
    else (node, write node (record { content = content; next = null; prev = null }) store')

-- `container_node_free`
unfoldable pub node_free : Ptr → Store → Run Store
node_free node store = do host' ← mem_free node store.host; ok (record store { host = host' })
