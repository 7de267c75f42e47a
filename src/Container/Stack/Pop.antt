-- ===== src/Container/Stack/Pop.antt =====
-- container/stack.c: `container_stack_pop` and `container_stack_peek` on a stack that represents
-- a list.
use attica.Base.{
  ◌≡◌, ◌≢◌, ◌⊎◌, ◌∙◌, inl, inr, refl, sym, arith, true, false, Bool-cases, Ptr, null, ok, Returns,
  List, [], ◌∷◌, ◌==◌,
}
use attica.Memory.{Host, mem_free, free, is_live, release}
use attica.Container.{ContainerNode, Container, Store, write, node_free}
use attica.Container.Stack.{pop, peek}
use attica.Container.Stack.Chain.{IsDistinct, IsChain, IsStack, reback, live_rest, same_ptr}

-- The nodes after a pop: the new front node points back to nothing.
unlinked-IsChain :
    (nodes nodes' : Ptr → ContainerNode) (p next : Ptr) (ps ds : List Ptr)
    → IsDistinct ps
    → IsChain nodes p next ps ds
    → ((next ≡ null) × (nodes' ≡ nodes))
      ⊎ ((nodes' next ≡ record (nodes next) { prev = null })
          × ((q : Ptr) → q ≢ next → nodes' q ≡ nodes q))
    → IsChain nodes' null next ps ds
unlinked-IsChain nodes nodes' p next ps ds distinct chain (inr (front, same)) =
    reback nodes nodes' p null next ps ds distinct chain front (λ q g. inl (same q g))
unlinked-IsChain nodes nodes' p next [] [] distinct chain (inl (e, f)) = e
unlinked-IsChain nodes nodes' p next [] (d ∷ ds) distinct chain (inl (e, f)) = chain
unlinked-IsChain nodes nodes' p next (r ∷ ps) [] distinct chain (inl (e, f)) = chain
unlinked-IsChain nodes nodes' p next (r ∷ ps) (d ∷ ds) distinct chain (inl (e, f)) =
    absurd (chain.1 (sym chain.0 ∙ e))

mem_free-live :
    (p : Ptr) (host : Host)
    → p ≢ null
    → is_live p host.live ≡ true
    → mem_free p host ≡ ok (record host { live = release p host.live })
unfolding mem_free free
mem_free-live p host given live =
    let more : (p == null) ≡ false = ground arith in rw (mem_free, more, live) refl

-- A pop gives the front of the list and leaves the rest, and frees the node of the front, which is live.
pub pop-IsStack :
    (store : Store) (stack : Container) (p d : Ptr) (ps ds : List Ptr)
    → IsStack store stack (p ∷ ps) (d ∷ ds)
    → Returns
        (pop stack store)
        λ r. (r.0 ≡ d) × IsStack r.2 r.1 ps ds × (r.2.host.live ≡ release p store.host.live)
unfolding pop node_free write
pop-IsStack store stack p d ps ds is =
    let (e, given, content, back, rest) = is.chain in
    let some_size : (stack.size == 0) ≡ false = ground (arith, is.sized) in
    let some_head : (p == null) ≡ false = ground arith in
    let freed = mem_free-live p store.host given is.live.0 in
    let left = live_rest p store.host ps is.distinct.0 is.live.1 in
    let next = (store.nodes p).next in
    elim (Bool-cases (next == null)) [
      | inl last ↦
          rw (pop, some_size, e, some_head, last, freed)
            (
              _,
              refl,
              (
                content,
                record {
                  chain =
                      unlinked-IsChain store.nodes _ p next ps ds is.distinct.1 rest
                        (inl (ground arith, refl));
                  sized = omega (arith, is.sized);
                  distinct = is.distinct.1;
                  live = left;
                },
                refl,
              ),
            )
      | inr more ↦
          rw (pop, some_size, e, some_head, more, freed)
            (
              _,
              refl,
              (
                content,
                record {
                  chain = unlinked-IsChain store.nodes _ p next ps ds is.distinct.1 rest (
                      inr (
                        rw (same_ptr next) refl,
                        λ q g. let off : (q == next) ≡ false = ground arith in rw off refl,
                      ));
                  sized = omega (arith, is.sized);
                  distinct = is.distinct.1;
                  live = left;
                },
                refl,
              ),
            )
    ]

-- `container_stack_peek` reads the front.
pub peek-IsStack :
    (store : Store) (stack : Container) (p d : Ptr) (ps ds : List Ptr)
    → IsStack store stack (p ∷ ps) (d ∷ ds)
    → peek stack store ≡ d
unfolding peek
peek-IsStack store stack p d ps ds is =
    let (e, given, content, back, rest) = is.chain in
    let some_size : (stack.size == 0) ≡ false = ground (arith, is.sized) in
    let some_head : (p == null) ≡ false = ground arith in rw (peek, some_size, e, some_head) content
