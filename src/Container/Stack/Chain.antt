-- ===== src/Container/Stack/Chain.antt =====
-- container/stack.c: what it means that a stack represents a list, and what keeps it.
use attica.Base.{
  ◌≡◌, ◌≢◌, ◌⊎◌, ◌∙◌, inl, inr, refl, sym, ap, arith, true, Bool-cases, Ptr, null, List, [], ◌∷◌,
  length, ◌==◌,
}
use mathlib.Core.Path.{subst}
use attica.Memory.{
  Host, alloc, posix_memalign, is_power_of_two, pointer_alignment, is_live, release,
}
use attica.Container.{ContainerNode, Container, Store}

abbrev pub Avoids : Ptr → List Ptr → Type 0
Avoids p [] = Unit
Avoids p (q ∷ qs) = (p ≢ q) × Avoids p qs

abbrev pub IsDistinct : List Ptr → Type 0
IsDistinct [] = Unit
IsDistinct (p ∷ ps) = Avoids p ps × IsDistinct ps

abbrev pub AllLive : Host → List Ptr → Type 0
AllLive host [] = Unit
AllLive host (p ∷ ps) = (is_live p host.live ≡ true) × AllLive host ps

-- The nodes from `head` on stand at `ps`, hold `ds`, and each points back to the one before it.
abbrev pub IsChain : (Ptr → ContainerNode) → (back head : Ptr) → (ps ds : List Ptr) → Type 0
IsChain nodes back head [] [] = head ≡ null
IsChain nodes back head [] (d ∷ ds) = ⊥
IsChain nodes back head (p ∷ ps) [] = ⊥
IsChain nodes back head (p ∷ ps) (d ∷ ds) =
    (head ≡ p)
    × (p ≢ null)
    × ((nodes p).content ≡ d)
    × ((nodes p).prev ≡ back)
    × IsChain nodes p (nodes p).next ps ds

pub record IsStack (store : Store) (stack : Container) (ps ds : List Ptr) : Type 0 where
  pub chain : IsChain store.nodes null stack.head ps ds
  pub sized : stack.size ≡ length ps
  pub distinct : IsDistinct ps
  pub live : AllLive store.host ps

-- Nodes elsewhere do not matter.
pub frame :
    (nodes nodes' : Ptr → ContainerNode) (back head : Ptr) (ps ds : List Ptr)
    → ((q : Ptr) → nodes' q ≡ nodes q ⊎ Avoids q ps)
    → IsChain nodes back head ps ds
    → IsChain nodes' back head ps ds
frame nodes nodes' back head [] [] same chain = chain
frame nodes nodes' back head [] (d ∷ ds) same chain = chain
frame nodes nodes' back head (p ∷ ps) [] same chain = chain
frame nodes nodes' back head (p ∷ ps) (d ∷ ds) same (e, given, content, back', rest) =
    let here : nodes' p ≡ nodes p = elim (same p) [ inl h ↦ h | inr off ↦ absurd (off.0 refl) ] in
    let next : (nodes' p).next ≡ (nodes p).next = ap (λ n. n.next) here in
    (
      e,
      given,
      ap (λ n. n.content) here ∙ content,
      ap (λ n. n.prev) here ∙ back',
      rw next (
          frame nodes nodes' p (nodes p).next ps ds
            (λ q. elim (same q) [ inl h ↦ inl h | inr off ↦ inr off.1 ]) rest),
    )

-- The front node gets a new `prev`, and the rest of the chain stays.
pub reback :
    (nodes nodes' : Ptr → ContainerNode) (back back' head : Ptr) (ps ds : List Ptr)
    → IsDistinct ps
    → IsChain nodes back head ps ds
    → nodes' head ≡ record (nodes head) { prev = back' }
    → ((q : Ptr) → q ≢ head → (nodes' q ≡ nodes q) ⊎ Avoids q ps)
    → IsChain nodes' back' head ps ds
reback nodes nodes' back back' head [] [] distinct chain front same = chain
reback nodes nodes' back back' head [] (d ∷ ds) distinct chain front same = chain
reback nodes nodes' back back' head (p ∷ ps) [] distinct chain front same = chain
reback nodes nodes' back back' head (p ∷ ps) (d ∷ ds) distinct (e, given, content, prev, rest) front
      same =
    let front' : nodes' p ≡ record (nodes p) { prev = back' } =
      subst (λ h. nodes' h ≡ record (nodes h) { prev = back' }) e front in
    let next : (nodes' p).next ≡ (nodes p).next = ap (λ n. n.next) front' in
    (
      e,
      given,
      ap (λ n. n.content) front' ∙ content,
      ap (λ n. n.prev) front',
      rw next (
          frame nodes nodes' p (nodes p).next ps ds
            (λ q. elim (Bool-cases (q == p)) [
              | inl here ↦
                  let f : q ≡ p = ground arith in inr (subst (λ r. Avoids r ps) (sym f) distinct.0)
              | inr off ↦ elim (same q (λ g. let f : q ≡ p = g ∙ e in ground arith)) [
                | inl h ↦ inl h
                | inr away ↦ inr away.1
              ]
            ])
            rest),
    )

-- What `container_node_create` gets from the system: nothing, or a live address.
system_gives :
    (supply live : List Ptr)
    → let (p, after) = posix_memalign (record { supply = supply; live = live }) in
      ((p ≡ null) × (after.live ≡ live)) ⊎ ((p ≢ null) × (after.live ≡ p ∷ live))
unfolding posix_memalign
system_gives [] live = inl (refl, refl)
system_gives (p ∷ ps) live = elim (Bool-cases (p == null)) [
  | inl over ↦ rw over (inl (ground arith, refl))
  | inr given ↦ rw given (inr (ground arith, refl))
]

pub node_alloc :
    (host : Host)
    → let (p, after) = alloc 32 16 host in
      ((p ≡ null) × (after.live ≡ host.live)) ⊎ ((p ≢ null) × (after.live ≡ p ∷ host.live))
unfolding alloc is_power_of_two pointer_alignment
node_alloc host = system_gives host.supply host.live

pub live_more :
    (p : Ptr) (host host' : Host) (ps : List Ptr)
    → host'.live ≡ p ∷ host.live
    → AllLive host ps
    → AllLive host' ps
unfolding is_live
live_more p host host' [] e all = tt
live_more p host host' (q ∷ ps) e all = (
  rw e (elim (Bool-cases (p == q)) [ inl h ↦ rw h refl | inr h ↦ rw h all.0 ]),
  live_more p host host' ps e all.1,
)

pub live_same :
    (host host' : Host) (ps : List Ptr)
    → host'.live ≡ host.live
    → AllLive host ps
    → AllLive host' ps
live_same host host' [] e all = tt
live_same host host' (q ∷ ps) e all =
    (ap (λ l. is_live q l) e ∙ all.0, live_same host host' ps e all.1)

is_live-release_ne :
    (p q : Ptr) (l : List Ptr) → q ≢ p → is_live q l ≡ true → is_live q (release p l) ≡ true
unfolding is_live release
is_live-release_ne p q [] off h = h
is_live-release_ne p q (r ∷ l) off h = ground (arith, is_live-release_ne p q l off)

pub live_rest :
    (p : Ptr) (host : Host) (ps : List Ptr)
    → Avoids p ps
    → AllLive host ps
    → AllLive (record host { live = release p host.live }) ps
live_rest p host [] off all = tt
live_rest p host (q ∷ ps) off all =
    (is_live-release_ne p q host.live (λ e. off.0 (sym e)) all.0, live_rest p host ps off.1 all.1)

pub same_ptr : (p : Ptr) → (p == p) ≡ true
same_ptr p = ground arith
